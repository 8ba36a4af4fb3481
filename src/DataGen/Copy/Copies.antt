-- ===== src/DataGen/Copy/Copies.antt =====
-- CopyFile copies text files byte for byte.
use study_and_development_of.Base.{
  ◌-◌, ◌≡◌, refl, sym, ◌∙◌, ap, pos, List, [], ◌∷◌, ◌++◌, append-nil, append_assoc, Bytes, NoNul,
  c_str, arith, true, Option, some,
}
use study_and_development_of.Libc.Fgets.{fgets_all}
use study_and_development_of.Libc.Fgets.Laws.{flatten, fgets_all-flatten}
use study_and_development_of.World.{done, World, bind-done}
use study_and_development_of.DataGen.Copy.{max_line_len, put_lines, copy_file}

-- What CopyFile relies on when writing goes well: a file that has just been opened for writing is
-- empty, and fputs puts a string at its end.
pub record Appends {S : Type 0} (w : World S) (file : S → Bytes → Option Bytes) : Type 0 where
  pub opened : Bytes → S → S
  pub put : Bytes → Bytes → S → S
  pub open_lem : (name : Bytes) (s : S) → w.fopen_write name s ≡ done true (opened name s)
  pub put_lem : (name line : Bytes) (s : S) → w.fputs name line s ≡ done (pos 0) (put name line s)
  pub file-opened : (name : Bytes) (s : S) → file (opened name s) name ≡ some []
  pub file-put :
      (name line old : Bytes) (s : S)
      → file s name ≡ some old
      → file (put name line s) name ≡ some (old ++ line)

-- A string with no NUL is the C string of its array.
c_str-NoNul : (s : Bytes) → NoNul s → c_str s ≡ s
unfolding c_str
c_str-NoNul [] h = refl
c_str-NoNul (c ∷ s) h = ground (arith, c_str-NoNul s h.1, h.0)

NoNul-split : (a b : Bytes) → NoNul (a ++ b) → NoNul a × NoNul b
NoNul-split [] b h = (tt, h)
NoNul-split (c ∷ a) b h = let (left, right) = NoNul-split a b h.1 in ((h.0, left), right)

module _ {S : Type 0} (w : World S) (file : S → Bytes → Option Bytes) (files : Appends w file) where
  -- The lines are put one behind the other.
  put_lines-appends :
      (lines : List Bytes) (name old : Bytes) (s : S)
      → NoNul (flatten lines)
      → file s name ≡ some old
      → (t : S) × (put_lines w name lines s ≡ done (pos 0) t)
        × (file t name ≡ some (old ++ flatten lines))
  unfolding put_lines
  put_lines-appends [] name old s text h = (s, refl, h ∙ ap some (sym (append-nil old)))
  put_lines-appends (line ∷ lines) name old s text h =
      let parts = NoNul-split line (flatten lines) text in
      let s1 = files.put name line s in
      let (t, run, has) =
        put_lines-appends lines name (old ++ line) s1 parts.1 (files.file-put name line old s h) in
      (
        t,
        rw (c_str-NoNul line parts.0)
            (bind-done (w.fputs name line) _ (files.put_lem name line s) ∙ run),
        has ∙ ap some (append_assoc old line (flatten lines)),
      )

  -- If the source opens and has no NUL, opening the copy leaves the contents of the source as they
  -- are, as it does when the two are different files, and opening and writing the copy succeed,
  -- CopyFile returns 0 and the copy holds the same bytes, whatever the lengths of the lines.
  pub copy_file-copies :
      (input out contents : Bytes) (s : S)
      → w.fopen_read input s ≡ some contents
      → w.fopen_read input (files.opened out s) ≡ some contents
      → NoNul contents
      → (t : S) × (copy_file w input out s ≡ done (pos 0) t) × (file t out ≡ some contents)
  unfolding copy_file
  copy_file-copies input out contents s there kept text =
      let lines = fgets_all (max_line_len - 1) contents in
      let whole = (fgets_all-flatten (max_line_len - 1) contents (omega arith)).0 in
      let (t, run, has) =
        put_lines-appends lines out [] (files.opened out s) (rw whole text)
          (files.file-opened out s) in
      (
        t,
        rw there (bind-done (w.fopen_write out) _ (files.open_lem out s) ∙ rw kept run),
        has ∙ ap some whole,
      )
