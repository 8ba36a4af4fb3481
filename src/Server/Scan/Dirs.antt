-- ===== src/Server/Scan/Dirs.antt =====
-- FindFirstDir finds a directory with the lowest time, and counts the directories.
use study_and_development_of.Base.{
  ℕ, suc, ◌+◌, ◌≡◌, ◌≢◌, refl, sym, ◌∙◌, ap, ◌⊎◌, inl, inr, ℤ, pos, ltb_ℤ, ◌≤ℤ◌, inc, is_pos, Bytes,
  List, [], ◌∷◌, length, All, Any, true, false, arith, Bool-cases, if◌then◌else◌,
}
use study_and_development_of.World.{World, Opened, entries}
use study_and_development_of.Common.Info.{NextDir}
use study_and_development_of.Server.Scan.{
  is_dir_name, copy_name, DirScan, string_to_time, dir_loop, scan_dirs, find_first_dir,
}
use study_and_development_of.Server.Scan.Files.{is_pos-suc, inc-suc}

-- The entries of a directory that FindFirstDir counts.
unfoldable pub dir_names : List Bytes → List Bytes
dir_names [] = []
dir_names (name ∷ names) =
    let rest = dir_names names in if is_dir_name name then name ∷ rest else rest

pub dir_names-dir :
    (name : Bytes) (names : List Bytes)
    → is_dir_name name ≡ true
    → dir_names (name ∷ names) ≡ name ∷ dir_names names
unfolding dir_names
dir_names-dir name names h = rw h refl

pub dir_names-other :
    (name : Bytes) (names : List Bytes)
    → is_dir_name name ≡ false
    → dir_names (name ∷ names) ≡ dir_names names
unfolding dir_names
dir_names-other name names h = rw h refl

module _ {S : Type 0} (w : World S) where
  pub dir_loop-other :
      (l : DirScan) (name : Bytes) (names : List Bytes)
      → is_dir_name name ≡ false
      → dir_loop w l (name ∷ names) ≡ dir_loop w l names
  unfolding dir_loop
  dir_loop-other l name names h = rw h refl

  -- The variables after the first directory, and after a later one.
  abbrev begin : DirScan → Bytes → DirScan
  begin l name = record {
    nd = record (l.nd) { first = copy_name name; last = copy_name name; count = inc l.nd.count };
    ts_first = string_to_time w name;
    ts_last = string_to_time w name;
  }

  abbrev extend : DirScan → Bytes → ℤ → DirScan
  extend l name ts = record {
    nd = record (l.nd) {
      first = if ltb_ℤ ts l.ts_first then copy_name name else l.nd.first;
      last = if ltb_ℤ l.ts_last ts then copy_name name else l.nd.last;
      count = inc l.nd.count;
    };
    ts_first = if ltb_ℤ ts l.ts_first then ts else l.ts_first;
    ts_last = if ltb_ℤ l.ts_last ts then ts else l.ts_last;
  }

  dir_loop-first :
      (l : DirScan) (name : Bytes) (names : List Bytes)
      → is_dir_name name ≡ true
      → is_pos l.nd.count 0 ≡ true
      → dir_loop w l (name ∷ names) ≡ dir_loop w (begin l name) names
  unfolding dir_loop
  dir_loop-first l name names h e = rw h (rw e refl)

  dir_loop-later :
      (l : DirScan) (name : Bytes) (names : List Bytes)
      → is_dir_name name ≡ true
      → is_pos l.nd.count 0 ≡ false
      → dir_loop w l (name ∷ names) ≡ dir_loop w (extend l name (string_to_time w name)) names
  unfolding dir_loop
  dir_loop-later l name names h e = rw h (rw e refl)

  -- `name` is stored in `first`, with its time.
  pub record IsFirst (g : DirScan) (name : Bytes) : Type 0 where
    pub first : g.nd.first ≡ copy_name name
    pub time : g.ts_first ≡ string_to_time w name

  -- From `l` on, `g` is what the directories among the names make of it.
  record Oldest (l g : DirScan) (names : List Bytes) : Type 0 where
    before : g.ts_first ≤ℤ l.ts_first
    low : All (λ name. g.ts_first ≤ℤ string_to_time w name) names
    kept : ((g.nd.first ≡ l.nd.first) × (g.ts_first ≡ l.ts_first)) ⊎ Any (IsFirst g) names

  kept-extend :
      (l g : DirScan) (name : Bytes) (rest : List Bytes) (ts : ℤ)
      → string_to_time w name ≡ ts
      → ((g.nd.first ≡ (extend l name ts).nd.first) × (g.ts_first ≡ (extend l name ts).ts_first))
        ⊎ Any (IsFirst g) rest
      → ((g.nd.first ≡ l.nd.first) × (g.ts_first ≡ l.ts_first)) ⊎ Any (IsFirst g) (name ∷ rest)
  kept-extend l g name rest ts e (inr later) = inr (inr later)
  kept-extend l g name rest ts e (inl (first, time)) = elim (Bool-cases (ltb_ℤ ts l.ts_first)) [
    | inl older ↦
        inr (inl (record { first = rw older at first; time = (rw older at time) ∙ sym e }))
    | inr newer ↦ inl (rw newer at first, rw newer at time)
  ]

  Oldest-extend :
      (l g : DirScan) (name : Bytes) (rest : List Bytes)
      → Oldest (extend l name (string_to_time w name)) g rest
      → Oldest l g (name ∷ rest)
  Oldest-extend l g name rest h =
      let two = below_min g.ts_first (string_to_time w name) l.ts_first h.before in
      record {
        before = two.1;
        low = (two.0, h.low);
        kept = kept-extend l g name rest (string_to_time w name) refl h.kept;
      }
    where
      below_min : (z a b : ℤ) → z ≤ℤ (if ltb_ℤ a b then a else b) → (z ≤ℤ a) × (z ≤ℤ b)
      below_min z a b h = ground arith

  -- The loop, once it has met a directory.
  dir_loop-Oldest :
      (names : List Bytes) (l : DirScan) (k : ℕ)
      → l.nd.count ≡ pos (suc k)
      → Oldest l (dir_loop w l names) (dir_names names)
        × ((dir_loop w l names).nd.count ≡ pos (suc k + length (dir_names names)))
  dir_loop-Oldest [] l k e =
      unfold dir_loop dir_names in
      (record { before = omega arith; low = tt; kept = inl (refl, refl) }, e ∙ ap pos (omega arith))
  dir_loop-Oldest (name ∷ names) l k e = elim (Bool-cases (is_dir_name name)) [
    | inr other ↦
        rw (dir_loop-other l name names other, dir_names-other name names other)
          (dir_loop-Oldest names l k e)
    | inl counts ↦
        let l' = extend l name (string_to_time w name) in
        let (ih, size) = dir_loop-Oldest names l' (suc k) (inc-suc l.nd.count k e) in
        rw
          (
            dir_loop-later l name names counts (is_pos-suc l.nd.count k e),
            dir_names-dir name names counts,
          )
          (
            Oldest-extend l (dir_loop w l' names) name (dir_names names) ih,
            size ∙ ap pos (omega arith),
          )
  ]

  -- Among the names `nd.first` holds one whose time none precedes, cut to the size of the array.
  pub record OldestFirst (nd : NextDir) (names : List Bytes) : Type 0 where
    pub count : nd.count ≡ pos (length names)
    pub oldest :
        names ≢ []
        → (ts : ℤ) × All (λ name. ts ≤ℤ string_to_time w name) names
          × Any (λ name. (nd.first ≡ copy_name name) × (ts ≡ string_to_time w name)) names

  Any-IsFirst :
      (g : DirScan) (names : List Bytes)
      → Any (IsFirst g) names
      → Any (λ name. (g.nd.first ≡ copy_name name) × (g.ts_first ≡ string_to_time w name)) names
  Any-IsFirst g [] h = absurd h
  Any-IsFirst g (name ∷ names) (inl here) = inl (here.first, here.time)
  Any-IsFirst g (name ∷ names) (inr later) = inr (Any-IsFirst g names later)

  first_or_later :
      (l g : DirScan) (name : Bytes) (names : List Bytes)
      → ((g.nd.first ≡ copy_name name) × (g.ts_first ≡ string_to_time w name))
        ⊎ Any (IsFirst g) names
      → Any
          (λ name. (g.nd.first ≡ copy_name name) × (g.ts_first ≡ string_to_time w name))
          (name ∷ names)
  first_or_later l g name names (inl here) = inl here
  first_or_later l g name names (inr later) = inr (Any-IsFirst g names later)

  dir_loop-OldestFirst :
      (names : List Bytes) (l : DirScan)
      → l.nd.count ≡ pos 0
      → OldestFirst (dir_loop w l names).nd (dir_names names)
  dir_loop-OldestFirst [] l e =
      unfold dir_loop dir_names in record { count = e; oldest = λ ne. absurd (ne refl) }
  dir_loop-OldestFirst (name ∷ names) l e = elim (Bool-cases (is_dir_name name)) [
    | inr other ↦
        rw (dir_loop-other l name names other, dir_names-other name names other)
          (dir_loop-OldestFirst names l e)
    | inl counts ↦
        let l1 = begin l name in
        let g = dir_loop w l1 names in
        let (x, size) = dir_loop-Oldest names l1 0 (rw e (ap pos (omega arith))) in
        rw (dir_loop-first l name names counts (rw e refl), dir_names-dir name names counts)
          (record {
            count = size ∙ ap pos (omega arith);
            oldest = λ _.
                (g.ts_first, (x.before, x.low), first_or_later l1 g name (dir_names names) x.kept);
          })
  ]

  -- What a scan makes of `nd`, by the way the directory opened.
  abbrev pub Scanned : NextDir → NextDir → Opened → Type 0
  Scanned nd g (entries names) = OldestFirst g (dir_names names)
  Scanned nd g _ = g ≡ nd

  scan_dirs-Scanned : (nd : NextDir) (o : Opened) → Scanned nd (scan_dirs w nd o) o
  unfolding scan_dirs
  scan_dirs-Scanned nd (entries names) = dir_loop-OldestFirst names _ refl
  scan_dirs-Scanned nd _ = refl

  -- If the directory opens, the structure that FindFirstDir leaves holds, whatever it held before,
  -- the number of the entries whose names do not begin with a dot, be they directories or plain
  -- files, and if there are any, in `first` the name, cut to sixteen bytes, of one of them whose
  -- time, as StringToTime gives it, no other's precedes. If it does not open, the structure is
  -- left as it was.
  pub find_first_dir-Scanned :
      (nd : NextDir) (dir_name : Bytes) (s : S)
      → Scanned nd (find_first_dir w nd dir_name s) (w.opendir dir_name s)
  unfolding find_first_dir
  find_first_dir-Scanned nd dir_name s = scan_dirs-Scanned nd (w.opendir dir_name s)
