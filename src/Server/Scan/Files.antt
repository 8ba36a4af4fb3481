-- ===== src/Server/Scan/Files.antt =====
-- FindNextFile finds the lowest and the highest file number, and counts the files.
use study_and_development_of.Base.{
  ℕ, suc, ◌+◌, ◌≡◌, ◌≢◌, refl, sym, ◌∙◌, ap, ◌⊎◌, inl, inr, ℤ, pos, ltb_ℤ, ◌≤ℤ◌, inc, is_pos, Bytes,
  List, [], ◌∷◌, length, All, Any, true, false, some, arith, Bool-cases, if◌then◌else◌,
}
use study_and_development_of.World.{World, Opened, entries, enoent, unreadable}
use study_and_development_of.Libc.Scan.{assigned}
use study_and_development_of.Common.Info.{NextFile}
use study_and_development_of.Server.Scan.{
  is_data_name, file_number, extract_file_number, file_step, file_loop, scan_files, find_next_file,
}

-- The entries of a directory that are data files.
unfoldable pub data_names : List Bytes → List Bytes
data_names [] = []
data_names (name ∷ names) =
    let rest = data_names names in if is_data_name name then name ∷ rest else rest

pub is_pos-suc : (z : ℤ) (k : ℕ) → z ≡ pos (suc k) → is_pos z 0 ≡ false
is_pos-suc z k e = rw e (ground arith)

pub inc-suc : (z : ℤ) (k : ℕ) → z ≡ pos (suc k) → inc z ≡ pos (suc (suc k))
inc-suc z k e = rw e (ap pos (omega arith))

pub data_names-data :
    (name : Bytes) (names : List Bytes)
    → is_data_name name ≡ true
    → data_names (name ∷ names) ≡ name ∷ data_names names
unfolding data_names
data_names-data name names h = rw h refl

pub data_names-other :
    (name : Bytes) (names : List Bytes)
    → is_data_name name ≡ false
    → data_names (name ∷ names) ≡ data_names names
unfolding data_names
data_names-other name names h = rw h refl

-- The number in a name, and that there is one, which an `int` holds.
unfoldable pub number_of : Bytes → ℤ
number_of name = assigned (file_number name) (pos 0)

abbrev pub Numbered : Bytes → Type 0
Numbered name = file_number name ≡ some (number_of name)

-- A name that is counted has a number.
abbrev pub Carries : Bytes → Type 0
Carries name = is_data_name name ≡ true → Numbered name

extract-Numbered :
    (junk : ℤ) (name : Bytes) → Numbered name → extract_file_number junk name ≡ number_of name
unfolding extract_file_number
extract-Numbered junk name h = ap (λ n. assigned n junk) h

module _ {S : Type 0} (w : World S) where
  -- Entries that are no data files are passed over.
  pub file_step-other :
      (f : NextFile) (name : Bytes) → is_data_name name ≡ false → file_step w f name ≡ f
  unfolding file_step
  file_step-other f name h = rw h refl

  -- The structure after the first data file, and after a later one.
  pub file_step-first :
      (f : NextFile) (name : Bytes)
      → is_data_name name ≡ true
      → Numbered name
      → f.count ≡ pos 0
      → file_step w f name ≡ record { first = number_of name; last = number_of name; count = pos 1 }
  unfolding file_step
  file_step-first f name h numbered e = rw h (rw (e, extract-Numbered _ name numbered) refl)

  -- What one more data file with number `n` does.
  abbrev pub extend : NextFile → ℤ → NextFile
  extend f n = record {
    first = if ltb_ℤ n f.first then n else f.first;
    last = if ltb_ℤ f.last n then n else f.last;
    count = inc f.count;
  }

  pub file_step-later :
      (f : NextFile) (name : Bytes) (k : ℕ)
      → is_data_name name ≡ true
      → Numbered name
      → f.count ≡ pos (suc k)
      → file_step w f name ≡ extend f (number_of name)
  unfolding file_step
  file_step-later f name k h numbered e =
      rw h (rw (is_pos-suc f.count k e, extract-Numbered _ name numbered) refl)

  -- From `f` on, `g` is what the data files among the names make of it.
  record Extremes (f g : NextFile) (names : List Bytes) : Type 0 where
    low_before : g.first ≤ℤ f.first
    low : All (λ name. g.first ≤ℤ number_of name) names
    low_is : (g.first ≡ f.first) ⊎ Any (λ name. number_of name ≡ g.first) names
    high_before : f.last ≤ℤ g.last
    high : All (λ name. number_of name ≤ℤ g.last) names
    high_is : (g.last ≡ f.last) ⊎ Any (λ name. number_of name ≡ g.last) names

  low_split :
      (f : NextFile) (g : ℤ) (name : Bytes) (rest : List Bytes)
      → (g ≡ (extend f (number_of name)).first) ⊎ Any (λ name. number_of name ≡ g) rest
      → (g ≡ f.first) ⊎ Any (λ name. number_of name ≡ g) (name ∷ rest)
  low_split f g name rest (inr later) = inr (inr later)
  low_split f g name rest (inl here) = elim (Bool-cases (ltb_ℤ (number_of name) f.first)) [
    | inl less ↦ inr (inl (sym (rw less at here)))
    | inr more ↦ inl (rw more at here)
  ]

  high_split :
      (f : NextFile) (g : ℤ) (name : Bytes) (rest : List Bytes)
      → (g ≡ (extend f (number_of name)).last) ⊎ Any (λ name. number_of name ≡ g) rest
      → (g ≡ f.last) ⊎ Any (λ name. number_of name ≡ g) (name ∷ rest)
  high_split f g name rest (inr later) = inr (inr later)
  high_split f g name rest (inl here) = elim (Bool-cases (ltb_ℤ f.last (number_of name))) [
    | inl more ↦ inr (inl (sym (rw more at here)))
    | inr less ↦ inl (rw less at here)
  ]

  -- A bound of the smaller of two numbers bounds both.
  le-min : (z a b : ℤ) → z ≤ℤ (if ltb_ℤ a b then a else b) → (z ≤ℤ a) × (z ≤ℤ b)
  le-min z a b h = ground arith

  max-le : (z a b : ℤ) → (if ltb_ℤ b a then a else b) ≤ℤ z → (a ≤ℤ z) × (b ≤ℤ z)
  max-le z a b h = ground arith

  Extremes-extend :
      (f g : NextFile) (name : Bytes) (rest : List Bytes)
      → Extremes (extend f (number_of name)) g rest
      → Extremes f g (name ∷ rest)
  Extremes-extend f g name rest h =
      let n = number_of name in
      let low2 = le-min g.first n f.first h.low_before in
      let high2 = max-le g.last n f.last h.high_before in
      record {
        low_before = low2.1;
        low = (low2.0, h.low);
        low_is = low_split f g.first name rest h.low_is;
        high_before = high2.1;
        high = (high2.0, h.high);
        high_is = high_split f g.last name rest h.high_is;
      }

  Extremes-refl : (f : NextFile) → Extremes f f []
  Extremes-refl f = record {
    low_before = omega arith;
    low = tt;
    low_is = inl refl;
    high_before = omega arith;
    high = tt;
    high_is = inl refl;
  }

  pub file_loop-cons :
      (f f' : NextFile) (name : Bytes) (names : List Bytes)
      → file_step w f name ≡ f'
      → file_loop w f (name ∷ names) ≡ file_loop w f' names
  unfolding file_loop
  file_loop-cons f f' name names e = ap (λ x. file_loop w x names) e

  -- The loop, once it has met a data file.
  file_loop-Extremes :
      (names : List Bytes) (f : NextFile) (k : ℕ)
      → All Carries names
      → f.count ≡ pos (suc k)
      → Extremes f (file_loop w f names) (data_names names)
        × ((file_loop w f names).count ≡ pos (suc k + length (data_names names)))
  file_loop-Extremes [] f k numbered e =
      unfold file_loop data_names in (Extremes-refl f, e ∙ ap pos (omega arith))
  file_loop-Extremes (name ∷ names) f k numbered e = elim (Bool-cases (is_data_name name)) [
    | inr other ↦
        rw
          (
            file_loop-cons f f name names (file_step-other f name other),
            data_names-other name names other,
          )
          (file_loop-Extremes names f k numbered.1 e)
    | inl counts ↦
        let f' = extend f (number_of name) in
        let (ih, size) = file_loop-Extremes names f' (suc k) numbered.1 (inc-suc f.count k e) in
        rw
          (
            file_loop-cons f f' name names (file_step-later f name k counts (numbered.0 counts) e),
            data_names-data name names counts,
          )
          (
            Extremes-extend f (file_loop w f' names) name (data_names names) ih,
            size ∙ ap pos (omega arith),
          )
  ]

  -- `f` describes the data files among the names: how many there are, and if there are any, that
  -- `first` and `last` are the lowest and the highest of their numbers.
  pub record Summary (f : NextFile) (names : List Bytes) : Type 0 where
    pub count : f.count ≡ pos (length names)
    pub first-le : All (λ name. f.first ≤ℤ number_of name) names
    pub le-last : All (λ name. number_of name ≤ℤ f.last) names
    pub first-attained : names ≢ [] → Any (λ name. number_of name ≡ f.first) names
    pub last-attained : names ≢ [] → Any (λ name. number_of name ≡ f.last) names

  attained :
      (n g : ℤ) (names : List Bytes)
      → (g ≡ n) ⊎ Any (λ name. number_of name ≡ g) names
      → (n ≡ g) ⊎ Any (λ name. number_of name ≡ g) names
  attained n g names (inl e) = inl (sym e)
  attained n g names (inr a) = inr a

  file_loop-Summary :
      (names : List Bytes) (f : NextFile)
      → All Carries names
      → f.count ≡ pos 0
      → Summary (file_loop w f names) (data_names names)
  file_loop-Summary [] f numbered e =
      unfold file_loop data_names in
      record {
        count = e;
        first-le = tt;
        le-last = tt;
        first-attained = λ ne. absurd (ne refl);
        last-attained = λ ne. absurd (ne refl);
      }
  file_loop-Summary (name ∷ names) f numbered e = elim (Bool-cases (is_data_name name)) [
    | inr other ↦
        rw
          (
            file_loop-cons f f name names (file_step-other f name other),
            data_names-other name names other,
          )
          (file_loop-Summary names f numbered.1 e)
    | inl counts ↦
        let n = number_of name in
        let f1 : NextFile = record { first = n; last = n; count = pos 1 } in
        let g = file_loop w f1 names in
        let (x, size) = file_loop-Extremes names f1 0 numbered.1 refl in
        rw
          (
            file_loop-cons f f1 name names (file_step-first f name counts (numbered.0 counts) e),
            data_names-data name names counts,
          )
          (record {
            count = size ∙ ap pos (omega arith);
            first-le = (x.low_before, x.low);
            le-last = (x.high_before, x.high);
            first-attained = λ _. attained n g.first (data_names names) x.low_is;
            last-attained = λ _. attained n g.last (data_names names) x.high_is;
          })
  ]

  -- What a scan makes of `f`, by the way the directory opened.
  abbrev pub Scanned : NextFile → NextFile → Opened → Type 0
  Scanned f g (entries names) = Summary g (data_names names)
  Scanned f g _ = g ≡ f

  -- The names that are counted have numbers, if the directory opens.
  abbrev pub AllCarry : Opened → Type 0
  AllCarry (entries names) = All Carries names
  AllCarry _ = Unit

  scan_files-Scanned : (f : NextFile) (o : Opened) → AllCarry o → Scanned f (scan_files w f o) o
  unfolding scan_files
  scan_files-Scanned f (entries names) numbered =
      file_loop-Summary names (record f { count = pos 0 }) numbered refl
  scan_files-Scanned f enoent numbered = refl
  scan_files-Scanned f unreadable numbered = refl

  -- If the directory opens, and every entry that is not hidden and not data.csv has a name from
  -- which ExtractFileNumber reads a number that an int holds, the structure that FindNextFile
  -- leaves holds, whatever it held before, how many these entries are, and if there are any, the
  -- lowest and the highest of their numbers. If the directory does not open, the structure is left
  -- as it was.
  pub find_next_file-Scanned :
      (f : NextFile) (path : Bytes) (s : S)
      → AllCarry (w.opendir path s)
      → Scanned f (find_next_file w f path s) (w.opendir path s)
  unfolding find_next_file
  find_next_file-Scanned f path s numbered = scan_files-Scanned f (w.opendir path s) numbered
