-- ===== src/Wire/Session/Rounds.antt =====
-- The rounds of transmission_thread for the files that the server sends.
use study_and_development_of.Base.{
  ℕ, suc, ◌+◌, ◌<◌, ◌≡◌, ◌≢◌, refl, sym, ◌∙◌, ap, pos, Bytes, List, [], ◌∷◌, append_assoc,
  append-nil, length, Option, some, All, arith, true,
}
use study_and_development_of.World.{World}
use study_and_development_of.Common.Info.{TrInfo}
use study_and_development_of.Common.Paths.{dir_exists}
use study_and_development_of.Common.Stream.{Pending}
use study_and_development_of.Client.Transmission.{Shared, Local, transmission_loop}
use study_and_development_of.Wire.Frame.{Untouched}
use study_and_development_of.Wire.Sending.{active_dir, received}
use study_and_development_of.Wire.Session.{
  Item, item_file, session_answers, session_commands, There, Writable, Fits, Distinct, SameDir,
  Works,
}
use study_and_development_of.Wire.Remaining.{Asked, asked_file}
use study_and_development_of.Wire.Said.{SaysApart}
use study_and_development_of.Wire.Session.One.{Stands, active_dir-same, item_round}

module _ {S : Type 0} (w : World S) (t : Shared S) (unread : S → Bytes)
    (file : S → Bytes → Option Bytes) (h : Works w t unread file) where
  pub Fits-more :
      (size rounds more : ℕ) (x : Item) → Fits w size rounds x → Fits w size (more + rounds) x
  Fits-more size rounds more x f =
      let waiting : x.delays < rounds = f.waiting in
      record {
        names = f.names;
        contents_small = f.contents_small;
        out_small = f.out_small;
        line = f.line;
        reply = f.reply;
        waiting = omega arith;
        packed = f.packed;
      }

  pub still-There :
      (xs : List Item) (s u : S)
      → Stands w t unread file h s u
      → All (There w h.files.can_write s) xs
      → All (There w h.files.can_write u) xs
  still-There [] s u stands there = tt
  still-There (x ∷ xs) s u stands there = (
    (
      stands (λ v. dir_exists w (active_dir x.tr) v ≡ pos 1) (h.apart.dirs (active_dir x.tr))
          (h.apart.lock_dirs (active_dir x.tr)) there.0.0,
      stands (λ v. h.files.can_write v (item_file x) ≡ true) (h.files.room (item_file x))
          (h.room_lock (item_file x)) there.0.1,
    ),
    still-There xs s u stands there.1,
  )

  pub still-Writable :
      (dir : Bytes) (ys : List Asked) (s u : S)
      → Stands w t unread file h s u
      → Writable (h.files.can_write s) dir ys
      → Writable (h.files.can_write u) dir ys
  still-Writable dir [] s u stands writable = tt
  still-Writable dir (y ∷ ys) s u stands writable = (
    stands (λ v. h.files.can_write v (asked_file dir y) ≡ true) (h.files.room (asked_file dir y))
        (h.room_lock (asked_file dir y)) writable.0,
    still-Writable dir ys s u stands writable.1,
  )

  -- What the files of one directory leave: the directory that the thread works in, and what holds
  -- whenever it has shared what it knows of a file of the directory, if no call changes it.
  abbrev pub Stays : TrInfo → Local → S → S → Type 1
  Stays tr l' s u =
      (l'.transmission_dir ≡ active_dir tr)
      × ((P : S → Type 0)
          → Untouched w P []
          → ((y : TrInfo)
              → SameDir tr y
              → (old : TrInfo) (v : S) → P (h.shared.set (received old y) v))
          → P s
          → P u)

  -- The session, with the files that it keeps.
  pub session_kept :
      (size rounds : ℕ) (xs : List Item) (scratch rest : Bytes) (l : Local) (s : S)
      → All (Fits w size rounds) xs
      → All (There w h.files.can_write s) xs
      → Distinct xs
      → length l.rec ≡ size
      → 4 < size
      → 3 < length scratch
      → Pending unread l.b s (session_answers xs rest)
      → (l' : Local) × (u : S) × (transmission_loop w t (length xs + rounds) scratch l s
          ≡ transmission_loop w t rounds scratch l' u)
        × (length l'.rec ≡ size)
        × ((tr : TrInfo)
            → All (λ x. SameDir tr x.tr) xs
            → l.transmission_dir ≡ active_dir tr
            → Stays tr l' s u)
        × All (λ x. file u (item_file x) ≡ some x.contents) xs
        × ((name bytes : Bytes)
            → All (λ x. item_file x ≢ name) xs
            → file s name ≡ some bytes
            → file u name ≡ some bytes)
        × SaysApart w h.shared.set s u (session_commands xs [])
        × Stands w t unread file h s u
        × Pending unread l'.b u rest
  session_kept size rounds [] scratch rest l s fits there distinct array room small p =
      let none_left : length {A = Item} [] + rounds ≡ rounds = omega arith in
      (
        l,
        s,
        ap (λ n. transmission_loop w t n scratch l s) none_left,
        array,
        (λ tr same at. (at, λ P h' at_set before. before)),
        tt,
        (λ name bytes other before. before),
        (λ said speaks apart. sym (append-nil (said s))),
        (λ P h' set before. before),
        p,
      )
  session_kept size rounds (x ∷ xs) scratch rest l s fits there distinct array room small p =
      let one_more : length (x ∷ xs) + rounds ≡ suc (length xs + rounds) = omega arith in
      let (l1, u1, run, array1, dir1, follows, stored, kept, told, stands, p1) =
        item_round w t unread file h size (length xs + rounds) x scratch (session_answers xs rest) l
          s (Fits-more size rounds (length xs) x fits.0) there.0 array room small p in
      let (l', u, runs, array', stays, all_stored, all_kept, all_told, all_stands, p') =
        session_kept size rounds xs scratch rest l1 u1 fits.1 (still-There xs s u1 stands there.1)
          distinct.1 array1 room small p1 in
      (
        l',
        u,
        ap (λ n. transmission_loop w t n scratch l s) one_more ∙ run ∙ runs,
        array',
        (λ tr same at.
            let (at', keep) = stays tr same.1 (dir1 ∙ active_dir-same tr x.tr same.0) in
            (
              at',
              λ P h' at_set before.
                  keep P h' at_set (follows P h' (λ old v. at_set x.tr same.0 old v)),
            )),
        (all_kept (item_file x) x.contents distinct.0 stored, all_stored),
        (λ name bytes other before. all_kept name bytes other.1 (kept name bytes other.0 before)),
        (λ said speaks apart.
            all_told said speaks apart
            ∙ rw (told said speaks apart) (simp (append_assoc, append-nil) refl)),
        (λ P h' set before. all_stands P h' set (stands P h' set before)),
        p',
      )

  -- If the connection holds, for a list of files with different local names, what the server sends
  -- for each of them (any number of WAIT answers below the rounds left, the transfer, the answer
  -- to REMOVE_FILE) and any bytes behind it, in packets of any size, the environment works, nobody
  -- tells the thread to stop, and every file fits the arrays and the bounds of the client, then
  -- the rounds of the transmission thread for these files lead to a state where every file of the
  -- list holds its contents, to which zlib uncompresses what was sent of it, with the connection
  -- behind the answers, and the thread goes on from there with the rounds it has left.
  transmission_loop-session :
      (rounds : ℕ) (xs : List Item) (scratch rest : Bytes) (l : Local) (s : S)
      → All (Fits w (length l.rec) rounds) xs
      → All (There w h.files.can_write s) xs
      → Distinct xs
      → 4 < length l.rec
      → 3 < length scratch
      → Pending unread l.b s (session_answers xs rest)
      → (l' : Local) × (u : S) × (transmission_loop w t (length xs + rounds) scratch l s
          ≡ transmission_loop w t rounds scratch l' u)
        × All (λ x. file u (item_file x) ≡ some x.contents) xs
        × Pending unread l'.b u rest
  transmission_loop-session rounds xs scratch rest l s fits there distinct room small p =
      let (l', u, run, array, stays, stored, kept, told, stands, p') =
        session_kept (length l.rec) rounds xs scratch rest l s fits there distinct refl room small
          p in
      (l', u, run, stored, p')
