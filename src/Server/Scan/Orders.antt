-- ===== src/Server/Scan/Orders.antt =====
-- The order in which readdir gives the entries makes no difference to FindNextFile.
use mathlib.Core.List.{Perm, Permᴰ}
use mathlib.Core.Logic.{∥∥₁_elim}
use study_and_development_of.Base.{
  ℕ, zero, suc, ◌≡◌, refl, sym, ◌∙◌, ap, subst, All, ℤ, pos, negsuc, ltb_ℤ, ◌≤ℤ◌, Bytes, List, true,
  arith, Bool-cases, inl, inr, if◌then◌else◌,
}
use study_and_development_of.World.{World, entries}
use study_and_development_of.Common.Info.{NextFile}
use study_and_development_of.Server.Scan.{
  is_data_name, file_step, file_loop, scan_files, find_next_file,
}
use study_and_development_of.Server.Scan.Files.{
  number_of, Numbered, Carries, inc-suc, file_step-other, file_step-first, file_step-later, extend,
}

antisym_ℤ : (a b : ℤ) → a ≤ℤ b → b ≤ℤ a → a ≡ b
antisym_ℤ (pos m) (pos n) h k = ap pos (omega arith)
antisym_ℤ (pos m) (negsuc n) h k = absurd (omega arith)
antisym_ℤ (negsuc m) (pos n) h k = absurd (omega arith)
antisym_ℤ (negsuc m) (negsuc n) h k = ap negsuc (omega arith)

least_comm : (a b : ℤ) → (if ltb_ℤ b a then b else a) ≡ (if ltb_ℤ a b then a else b)
least_comm a b = antisym_ℤ _ _ (ground arith) (ground arith)

-- The lower of the number before and of two numbers, in both orders.
least_swap :
    (f a b : ℤ)
    → (if ltb_ℤ b (if ltb_ℤ a f then a else f) then b else (if ltb_ℤ a f then a else f))
      ≡ (if ltb_ℤ a (if ltb_ℤ b f then b else f) then a else (if ltb_ℤ b f then b else f))
least_swap f a b = antisym_ℤ _ _ (ground arith) (ground arith)

most_comm : (a b : ℤ) → (if ltb_ℤ a b then b else a) ≡ (if ltb_ℤ b a then a else b)
most_comm a b = antisym_ℤ _ _ (ground arith) (ground arith)

most_swap :
    (f a b : ℤ)
    → (if ltb_ℤ (if ltb_ℤ f a then a else f) b then b else (if ltb_ℤ f a then a else f))
      ≡ (if ltb_ℤ (if ltb_ℤ f b then b else f) a then a else (if ltb_ℤ f b then b else f))
most_swap f a b = antisym_ℤ _ _ (ground arith) (ground arith)

-- Two structures are equal if their parts are.
pub NextFile-eq : (f g : NextFile) → f.first ≡ g.first → f.last ≡ g.last → f.count ≡ g.count → f ≡ g
NextFile-eq f g h k e = cc

module _ {S : Type 0} (w : World S) where
  extend-swap : (f : NextFile) (a b : ℤ) → extend w (extend w f a) b ≡ extend w (extend w f b) a
  extend-swap f a b = NextFile-eq _ _ (least_swap f.first a b) (most_swap f.last a b) refl

  -- Two data files, in both orders.
  both_data :
      (f : NextFile) (x y : Bytes) (k : ℕ)
      → f.count ≡ pos k
      → is_data_name x ≡ true
      → is_data_name y ≡ true
      → Numbered x
      → Numbered y
      → file_step w (file_step w f x) y ≡ file_step w (file_step w f y) x
  both_data f x y zero e dx dy nx ny =
      let a = number_of x in
      let b = number_of y in
      ap (λ g. file_step w g y) (file_step-first w f x dx nx e)
      ∙ file_step-later w _ y 0 dy ny refl
      ∙ NextFile-eq _ _ (least_comm a b) (most_comm a b) refl
      ∙ sym (file_step-later w _ x 0 dx nx refl)
      ∙ sym (ap (λ g. file_step w g x) (file_step-first w f y dy ny e))
  both_data f x y (suc k) e dx dy nx ny =
      let a = number_of x in
      let b = number_of y in
      ap (λ g. file_step w g y) (file_step-later w f x k dx nx e)
      ∙ file_step-later w (extend w f a) y (suc k) dy ny (inc-suc f.count k e)
      ∙ extend-swap f a b
      ∙ sym (file_step-later w (extend w f b) x (suc k) dx nx (inc-suc f.count k e))
      ∙ sym (ap (λ g. file_step w g x) (file_step-later w f y k dy ny e))

  file_step-swap :
      (f : NextFile) (x y : Bytes) (k : ℕ)
      → Carries x
      → Carries y
      → f.count ≡ pos k
      → file_step w (file_step w f x) y ≡ file_step w (file_step w f y) x
  file_step-swap f x y k cx cy e = elim (Bool-cases (is_data_name x)) [
    | inr other ↦
        ap (λ g. file_step w g y) (file_step-other w f x other)
        ∙ sym (file_step-other w (file_step w f y) x other)
    | inl dx ↦ elim (Bool-cases (is_data_name y)) [
      | inr other ↦
          file_step-other w (file_step w f x) y other
          ∙ sym (ap (λ g. file_step w g x) (file_step-other w f y other))
      | inl dy ↦ both_data f x y k e dx dy (cx dx) (cy dy)
    ]
  ]

  -- A step counts up or leaves the count.
  file_step-counts :
      (f : NextFile) (x : Bytes) (k : ℕ)
      → Carries x
      → f.count ≡ pos k
      → (m : ℕ) × ((file_step w f x).count ≡ pos m)
  file_step-counts f x k carries e = elim (Bool-cases (is_data_name x)) [
    | inr other ↦ (k, ap (λ g. NextFile.count g) (file_step-other w f x other) ∙ e)
    | inl dx ↦ counted k e dx
  ]
    where
      counted :
          (k : ℕ)
          → f.count ≡ pos k
          → is_data_name x ≡ true
          → (m : ℕ) × ((file_step w f x).count ≡ pos m)
      counted zero e dx = (1, ap (λ g. NextFile.count g) (file_step-first w f x dx (carries dx) e))
      counted (suc k) e dx = (
        suc (suc k),
        ap (λ g. NextFile.count g) (file_step-later w f x k dx (carries dx) e)
            ∙ inc-suc f.count k e,
      )

  All-Permᴰ : (P : Bytes → Type 0) {xs ys : List Bytes} → Permᴰ xs ys → All P xs → All P ys
  All-Permᴰ P Permᴰ.nil h = tt
  All-Permᴰ P (Permᴰ.cons same p) h = (subst P same h.0, All-Permᴰ P p h.1)
  All-Permᴰ P (Permᴰ.swap first second) h = (subst P second h.1.0, (subst P first h.0, h.1.1))
  All-Permᴰ P (Permᴰ.trans p q) h = All-Permᴰ P q (All-Permᴰ P p h)

  pub file_loop-perm :
      {xs ys : List Bytes} (f : NextFile) (k : ℕ)
      → All Carries xs
      → f.count ≡ pos k
      → Permᴰ xs ys
      → file_loop w f xs ≡ file_loop w f ys
  unfolding file_loop
  file_loop-perm f k carry e Permᴰ.nil = refl
  file_loop-perm f k carry e (Permᴰ.cons {a = a} {l₁ = xs} same p) =
      let (m, counted) = file_step-counts f a k carry.0 e in
      file_loop-perm (file_step w f a) m carry.1 counted p ∙ rw same refl
  file_loop-perm f k carry e (Permᴰ.swap {a = a} {b = b} {l = l} first second) =
      ap (λ g. file_loop w g l) (file_step-swap f a b k carry.0 carry.1.0 e)
      ∙ rw (first, second) refl
  file_loop-perm f k carry e (Permᴰ.trans p q) =
      file_loop-perm f k carry e p ∙ file_loop-perm f k (All-Permᴰ Carries p carry) e q

  pub IsSet-NextFile : IsSet NextFile
  IsSet-NextFile = hlevel

  -- If a directory opens in two states, the entries of one are a permutation of those of the
  -- other, and every entry that is not hidden and not data.csv has a name from which
  -- ExtractFileNumber reads a number that an int holds, FindNextFile makes the same of a structure
  -- in both: the order of readdir makes no difference.
  pub find_next_file-order :
      (f : NextFile) (path : Bytes) (s t : S) (xs ys : List Bytes)
      → w.opendir path s ≡ entries xs
      → w.opendir path t ≡ entries ys
      → All Carries xs
      → Perm xs ys
      → find_next_file w f path s ≡ find_next_file w f path t
  unfolding find_next_file scan_files
  find_next_file-order f path s t xs ys one other carry same =
      ∥∥₁_elim same (IsSet-NextFile _ _)
        λ p. rw (one, other) (file_loop-perm (record f { count = pos 0 }) 0 carry refl p)
