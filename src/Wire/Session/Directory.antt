-- ===== src/Wire/Session/Directory.antt =====
-- A whole directory: its files, EMPTY, the remaining files, REMOVE_DIR and the renaming.
use study_and_development_of.Base.{
  ℕ, suc, ◌+◌, ◌<◌, ◌≡◌, ◌≢◌, refl, ◌∙◌, ap, Bytes, List, [], ◌∷◌, ◌++◌, append_assoc, append-nil,
  length, Option, some, All, arith,
}
use study_and_development_of.World.{World}
use study_and_development_of.Common.Stream.{Pending}
use study_and_development_of.Client.Transmission.{Shared, Local, transmission_loop}
use study_and_development_of.Wire.Said.{SaysApart}
use study_and_development_of.Wire.Sending.{active_dir}
use study_and_development_of.Wire.Remaining.{Asked, asked_file}
use study_and_development_of.Wire.Finish.{complete_dir}
use study_and_development_of.Wire.Session.{
  Item, item_file, session_answers, session_commands, There, Writable, Fits, Distinct, SameDir,
  Works,
}
use study_and_development_of.Wire.Session.One.{Stands, item_round}
use study_and_development_of.Wire.Session.Rounds.{
  Fits-more, still-There, still-Writable, session_kept,
}
use study_and_development_of.Wire.Session.Ending.{
  ending_answers, ending_requests, Knows, Remembers, Ends, Knows-set, ending_round,
}

module _ {S : Type 0} (w : World S) (t : Shared S) (unread : S → Bytes)
    (file : S → Bytes → Option Bytes) (h : Works w t unread file)
    (m : Remembers w t unread h.shared) where
  stored_still :
      (dir : Bytes) (ys : List Asked) (is : List Item) (s u : S)
      → ((name bytes : Bytes)
          → All (λ y. asked_file dir y ≢ name) ys
          → file s name ≡ some bytes
          → file u name ≡ some bytes)
      → All (λ i. All (λ y. asked_file dir y ≢ item_file i) ys) is
      → All (λ i. file s (item_file i) ≡ some i.contents) is
      → All (λ i. file u (item_file i) ≡ some i.contents) is
  stored_still dir ys [] s u kept apart stored = tt
  stored_still dir ys (i ∷ is) s u kept apart stored = (
    kept (item_file i) i.contents apart.0 stored.0,
    stored_still dir ys is s u kept apart.1 stored.1,
  )

  -- The run, with what it leaves of the array.
  pub directory_run :
      (rounds k : ℕ) (x : Item) (xs : List Item) (ys : List Asked) (scratch rest : Bytes)
      (l : Local) (s : S)
      → k < rounds
      → All (λ i. SameDir x.tr i.tr) xs
      → All (Fits w (length l.rec) (suc rounds)) (x ∷ xs)
      → All (There w h.files.can_write s) (x ∷ xs)
      → Writable (h.files.can_write s) (active_dir x.tr) ys
      → Distinct (x ∷ xs)
      → Ends w (length l.rec) scratch x.tr ys
      → All (λ i. All (λ y. asked_file (active_dir x.tr) y ≢ item_file i) ys) (x ∷ xs)
      → 4 < length l.rec
      → 3 < length scratch
      → Pending unread l.b s (session_answers (x ∷ xs) (ending_answers k x.tr ys rest))
      → (l' : Local) × (u : S) × (transmission_loop w t (length (x ∷ xs) + suc rounds) scratch l s
          ≡ transmission_loop w t rounds scratch l'
              (m.renamed (active_dir x.tr) (complete_dir x.tr.d.first) u))
        × All (λ i. file u (item_file i) ≡ some i.contents) (x ∷ xs)
        × All (λ y. file u (asked_file (active_dir x.tr) y) ≡ some y.contents) ys
        × (length l'.rec ≡ length l.rec)
        × SaysApart w h.shared.set s
            (m.renamed (active_dir x.tr) (complete_dir x.tr.d.first) u)
            (session_commands (x ∷ xs) [] ++ ending_requests k x.tr ys)
        × Pending unread l'.b (m.renamed (active_dir x.tr) (complete_dir x.tr.d.first) u) rest
  directory_run rounds k x xs ys scratch rest l s enough same fits there writable distinct ends
        apart room small p =
      let size = length l.rec in
      let tr = x.tr in
      let more = suc rounds in
      let one_more : length (x ∷ xs) + more ≡ suc (length xs + more) = omega arith in
      let (l0, u0, first, array0, dir0, follows, stored0, kept0, told0, stands, p0) =
        item_round w t unread file h size (length xs + more) x scratch
          (session_answers xs (ending_answers k tr ys rest)) l s
          (Fits-more w t unread file h size more (length xs) x fits.0) there.0 refl room small p in
      let (l1, u1, others, array1, stays, stored1, kept1, told1, stands1, p1) =
        session_kept w t unread file h size more xs scratch (ending_answers k tr ys rest) l0 u0
          fits.1 (still-There w t unread file h xs s u0 stands there.1) distinct.1 array0 room small
          p0 in
      let (dir1, keep) = stays tr same dir0 in
      let knows0 =
        follows (Knows t tr) (m.calls tr)
          (λ old v. Knows-set w t unread file h m tr tr old v (refl, refl)) in
      let knows1 =
        keep (Knows t tr) (m.calls tr)
          (λ y alike old v. Knows-set w t unread file h m tr y old v alike) knows0 in
      let stands' : Stands w t unread file h s u1 =
        λ P h' set before. stands1 P h' set (stands P h' set before) in
      let there1 = still-There w t unread file h (x ∷ []) s u1 stands' (there.0, tt) in
      let writable1 = still-Writable w t unread file h (active_dir tr) ys s u1 stands' writable in
      let (l2, u2, last, endings, size2, kept2, told2, p2) =
        ending_round w t unread file h m size rounds k tr ys scratch rest l1 u1 fits.0.names ends
          enough array1 room dir1 knows1 there1.0.0 writable1 p1 in
      let all_stored : All (λ i. file u1 (item_file i) ≡ some i.contents) (x ∷ xs) =
        (kept1 (item_file x) x.contents distinct.0 stored0, stored1) in
      (
        l2,
        u2,
        ap (λ n. transmission_loop w t n scratch l s) one_more ∙ first ∙ others ∙ last,
        stored_still (active_dir tr) ys (x ∷ xs) u1 u2 kept2 apart all_stored,
        endings,
        size2,
        (λ said speaks apart.
            told2 said speaks
            ∙ rw (told1 said speaks apart)
                (rw (told0 said speaks apart) (simp (append_assoc, append-nil) refl))),
        p2,
      )

  -- If the connection holds what the server sends for a directory (for each of its files any
  -- number of WAIT answers below the rounds left, the transfer and the answer to REMOVE_FILE; then
  -- WAIT answers, EMPTY, the transfers of the four remaining files and the answer to REMOVE_DIR)
  -- and any bytes behind it, in packets of any size, the environment works, the local directory is
  -- there and the files can be written at the start, only a rename could change that, and a
  -- directory that is there can be renamed, nobody tells the thread to stop, the local names
  -- differ, and names, lines and sizes are within the bounds of the client, then the rounds of the
  -- transmission thread, one for each file and one for the end, lead to the state in which the
  -- local directory has just been renamed to its final name, before which renaming every file of
  -- the directory held its contents, to which zlib uncompresses what was sent of it; the
  -- connection is behind the answers, and the thread goes on from there with the rounds it has
  -- left.
  pub transmission_loop-directory :
      (rounds k : ℕ) (x : Item) (xs : List Item) (ys : List Asked) (scratch rest : Bytes)
      (l : Local) (s : S)
      → k < rounds
      → All (λ i. SameDir x.tr i.tr) xs
      → All (Fits w (length l.rec) (suc rounds)) (x ∷ xs)
      → All (There w h.files.can_write s) (x ∷ xs)
      → Writable (h.files.can_write s) (active_dir x.tr) ys
      → Distinct (x ∷ xs)
      → Ends w (length l.rec) scratch x.tr ys
      → All (λ i. All (λ y. asked_file (active_dir x.tr) y ≢ item_file i) ys) (x ∷ xs)
      → 4 < length l.rec
      → 3 < length scratch
      → Pending unread l.b s (session_answers (x ∷ xs) (ending_answers k x.tr ys rest))
      → (l' : Local) × (u : S) × (transmission_loop w t (length (x ∷ xs) + suc rounds) scratch l s
          ≡ transmission_loop w t rounds scratch l'
              (m.renamed (active_dir x.tr) (complete_dir x.tr.d.first) u))
        × All (λ i. file u (item_file i) ≡ some i.contents) (x ∷ xs)
        × All (λ y. file u (asked_file (active_dir x.tr) y) ≡ some y.contents) ys
        × Pending unread l'.b (m.renamed (active_dir x.tr) (complete_dir x.tr.d.first) u) rest
  transmission_loop-directory rounds k x xs ys scratch rest l s enough same fits there writable
        distinct ends apart room small p =
      let (l', u, run, stored, endings, size, told, p') =
        directory_run rounds k x xs ys scratch rest l s enough same fits there writable distinct
          ends apart room small p in
      (l', u, run, stored, endings, p')
