-- ===== src/Server/Scan/Numbers.antt =====
-- The names that the logger gives its files: FindNextFile reads the numbers back, and over files whose
-- numbers ascend it finds the first, the last and how many there are.
use mathlib.Core.List.{Perm}
use mathlib.Core.List.Perm
use mathlib.Core.Logic.{∥∥₁_elim}
use study_and_development_of.Base.{
  ℕ, suc, sym, All, some, ◌^◌, ◌+◌, ◌<◌, ◌≡◌, refl, ◌∙◌, ap, pos, ltb_ℤ, Bytes, List, [], ◌∷◌, ◌++◌,
  codes, length, true, arith, Bool-cases, inl, inr, equal, starts_with, if◌then◌else◌,
}
use study_and_development_of.Libc.Format.{fmt_d}
use study_and_development_of.Libc.Scan.{skip_until, literal}
use study_and_development_of.Libc.RoundTrip.{scan_d-fmt_d_pos}
use study_and_development_of.World.{World, entries}
use study_and_development_of.Common.Info.{NextFile}
use study_and_development_of.Server.Scan.{
  as_int, file_number, is_data_name, file_step, file_loop, scan_files, find_next_file,
}
use study_and_development_of.Server.Scan.Files.{
  number_of, Numbered, Carries, data_names, data_names-data, data_names-other, inc-suc,
  file_step-other, file_step-first, file_step-later, file_loop-cons,
}
use study_and_development_of.Server.Scan.Orders.{NextFile-eq, IsSet-NextFile, file_loop-perm}

-- "data_%d.pcd"
abbrev pub data_name : ℕ → Bytes
data_name n = codes "data_" ++ (fmt_d (pos n) ++ codes ".pcd")

abbrev pub named : List ℕ → List Bytes
named [] = []
named (n ∷ ns) = data_name n ∷ named ns

-- Every number is lower than the one behind it.
abbrev pub Ascends : ℕ → List ℕ → Type 0
Ascends n [] = Unit
Ascends n (m ∷ ms) = (n < m) × Ascends m ms

abbrev pub last_of : ℕ → List ℕ → ℕ
last_of n [] = n
last_of n (m ∷ ms) = last_of m ms

-- What the loop holds over ascending files.
abbrev pub found_files : ℕ → ℕ → ℕ → NextFile
found_files a b k = record { first = pos a; last = pos b; count = pos k }

pub data_name-IsData : (n : ℕ) → is_data_name (data_name n) ≡ true
unfolding equal starts_with
data_name-IsData n = refl

module _ {S : Type 0} (w : World S) where
  as_int-pos : (n : ℕ) → n < 2 ^ 31 → as_int (some (pos n)) ≡ some (pos n)
  as_int-pos n h = ground arith

  file_number-data_name : (n : ℕ) → n < 2 ^ 31 → file_number (data_name n) ≡ some (pos n)
  unfolding file_number skip_until literal
  file_number-data_name n h = rw (scan_d-fmt_d_pos n (codes ".pcd") refl) (as_int-pos n h)

  number_of-data_name : (n : ℕ) → n < 2 ^ 31 → number_of (data_name n) ≡ pos n
  unfolding number_of
  number_of-data_name n h = rw (file_number-data_name n h) refl

  data_name-Numbered : (n : ℕ) → n < 2 ^ 31 → Numbered (data_name n)
  data_name-Numbered n h = file_number-data_name n h ∙ ap some (sym (number_of-data_name n h))

  named-Carries : (ns : List ℕ) → All (λ n. n < 2 ^ 31) ns → All Carries (named ns)
  named-Carries [] h = tt
  named-Carries (n ∷ ns) h = ((λ counts. data_name-Numbered n h.0), named-Carries ns h.1)

  -- The loop passes over what is no data file.
  file_loop-data_names :
      (f : NextFile) (names : List Bytes) → file_loop w f names ≡ file_loop w f (data_names names)
  file_loop-data_names f [] = unfold data_names in refl
  file_loop-data_names f (name ∷ names) = elim (Bool-cases (is_data_name name)) [
    | inl counts ↦
        let f' = file_step w f name in
        rw
          (
            data_names-data name names counts,
            file_loop-cons w f f' name names refl,
            file_loop-cons w f f' name (data_names names) refl,
          )
          (file_loop-data_names f' names)
    | inr other ↦
        rw
          (
            data_names-other name names other,
            file_loop-cons w f f name names (file_step-other w f name other),
          )
          (file_loop-data_names f names)
  ]

  file_step-next :
      (a b k n : ℕ)
      → a < n
      → b < n
      → n < 2 ^ 31
      → file_step w (found_files a b (suc k)) (data_name n) ≡ found_files a n (suc (suc k))
  file_step-next a b k n low high small =
      file_step-later w (found_files a b (suc k)) (data_name n) k (data_name-IsData n)
        (data_name-Numbered n small) refl
      ∙ rw (number_of-data_name n small) (
          NextFile-eq _ _ (keeps_first a n low) (takes_last b n high)
            (inc-suc (pos (suc k)) k refl))
    where
      keeps_first : (a n : ℕ) → a < n → (if ltb_ℤ (pos n) (pos a) then pos n else pos a) ≡ pos a
      keeps_first a n h = ground arith

      takes_last : (b n : ℕ) → b < n → (if ltb_ℤ (pos b) (pos n) then pos n else pos b) ≡ pos n
      takes_last b n h = ground arith

  file_loop-Ascends :
      (a b k : ℕ) (ns : List ℕ)
      → (a < suc b)
      → Ascends b ns
      → All (λ n. n < 2 ^ 31) ns
      → file_loop w (found_files a b (suc k)) (named ns)
        ≡ found_files a (last_of b ns) (suc k + length ns)
  file_loop-Ascends a b k [] low up small =
      unfold file_loop in ap (λ n. found_files a b n) (omega arith)
  file_loop-Ascends a b k (n ∷ ns) low up small =
      file_loop-cons w (found_files a b (suc k)) (found_files a n (suc (suc k))) (data_name n)
        (named ns) (file_step-next a b k n (omega arith) up.0 small.0)
      ∙ file_loop-Ascends a n (suc k) ns (omega arith) up.1 small.1
      ∙ ap (λ z. found_files a (last_of n ns) z) (omega arith)

  scan-Ascends :
      (f : NextFile) (n : ℕ) (ns : List ℕ)
      → f.count ≡ pos 0
      → Ascends n ns
      → All (λ n. n < 2 ^ 31) (n ∷ ns)
      → file_loop w f (named (n ∷ ns)) ≡ found_files n (last_of n ns) (suc (length ns))
  scan-Ascends f n ns e up small =
      let first_step : file_step w f (data_name n) ≡ found_files n n 1 =
        file_step-first w f (data_name n) (data_name-IsData n) (data_name-Numbered n small.0) e
        ∙ ap (λ z. record { first = z; last = z; count = pos 1 }) (number_of-data_name n small.0) in
      file_loop-cons w f (found_files n n 1) (data_name n) (named ns) first_step
      ∙ file_loop-Ascends n n 0 ns (omega arith) up small.1
      ∙ ap (λ z. found_files n (last_of n ns) z) (omega arith)

  -- Over the files of the logger, in any order and among other entries, FindNextFile finds the lowest
  -- number, the highest, and how many files there are.
  pub find_next_file-Ascends :
      (f : NextFile) (path : Bytes) (s : S) (xs : List Bytes) (n : ℕ) (ns : List ℕ)
      → w.opendir path s ≡ entries xs
      → Perm (data_names xs) (named (n ∷ ns))
      → Ascends n ns
      → All (λ n. n < 2 ^ 31) (n ∷ ns)
      → find_next_file w f path s ≡ found_files n (last_of n ns) (suc (length ns))
  unfolding find_next_file scan_files
  find_next_file-Ascends f path s xs n ns opened same up small =
      let f0 = record f { count = pos 0 } in
      ∥∥₁_elim (Perm.symm same) (IsSet-NextFile w _ _) λ p. rw opened (
        file_loop-data_names f0 xs
        ∙ sym (file_loop-perm w f0 0 (named-Carries (n ∷ ns) small) refl p)
        ∙ scan-Ascends f0 n ns refl up small)

  pub find_next_file-none :
      (f : NextFile) (path : Bytes) (s : S) (xs : List Bytes)
      → w.opendir path s ≡ entries xs
      → data_names xs ≡ []
      → find_next_file w f path s ≡ record f { count = pos 0 }
  unfolding find_next_file scan_files
  find_next_file-none f path s xs opened none_left =
      let f0 = record f { count = pos 0 } in
      rw opened (
        file_loop-data_names f0 xs
        ∙ ap (λ names. file_loop w f0 names) none_left
        ∙ unfold file_loop in refl)
