-- ===== src/Wire/Session/Last.antt =====
-- The last request of the transmission thread, and the loop with it.
use study_and_development_of.Base.{
  ℕ, suc, ◌+◌, ◌<◌, ◌≡◌, ◌≢◌, refl, ◌∙◌, ap, subst, sym, Bytes, List, [], ◌∷◌, ◌++◌, append_assoc,
  codes, length, Option, some, All, arith, c_str, starts_with,
}
use study_and_development_of.World.{World, done, bind-done}
use study_and_development_of.Common.Stream.{Pending}
use study_and_development_of.Client.Transmission.{
  Shared, Local, request_next, on_sending, on_empty, transmission_loop,
}
use study_and_development_of.Client.Transmission.Waits.{waits, asks, request_next-answered}
use study_and_development_of.Wire.Said.{Says, SaysApart, exchange-Tells}
use study_and_development_of.Wire.Sending.{active_dir}
use study_and_development_of.Wire.Remaining.{Asked, asked_file}
use study_and_development_of.Wire.Finish.{complete_dir}
use study_and_development_of.Wire.Session.{
  Item, item_file, session_answers, session_commands, There, Writable, Fits, Distinct, SameDir,
  Works,
}
use study_and_development_of.Wire.Session.Ending.{ending_answers, ending_requests, Remembers, Ends}
use study_and_development_of.Wire.Session.Directory.{directory_run}

module _ {S : Type 0} (w : World S) (t : Shared S) where
  on_sending-no_tr :
      (scratch : Bytes) (l : Local) (s : S)
      → c_str l.rec ≡ codes "NO_TR"
      → on_sending w t scratch l s ≡ done l s
  unfolding on_sending starts_with
  on_sending-no_tr scratch l s holds = rw holds refl

  on_empty-no_tr :
      (scratch : Bytes) (l : Local) (s : S)
      → c_str l.rec ≡ codes "NO_TR"
      → on_empty w t scratch l s ≡ done l s
  unfolding on_empty starts_with
  on_empty-no_tr scratch l s holds = rw holds refl

  -- The round of NO_TR, whose answer is known.
  no_tr_run :
      (rounds : ℕ) (scratch : Bytes) (l l1 : Local) (s u : S)
      → request_next w t rounds l s ≡ done (some l1) u
      → c_str l1.rec ≡ codes "NO_TR"
      → transmission_loop w t (suc rounds) scratch l s ≡ done (some l1) u
  unfolding transmission_loop starts_with
  no_tr_run rounds scratch l l1 s u asked holds =
      bind-done (request_next w t rounds l) _ asked
      ∙ bind-done (on_sending w t scratch l1) _ (on_sending-no_tr scratch l1 u holds)
      ∙ bind-done (on_empty w t scratch l1) _ (on_empty-no_tr scratch l1 u holds)
      ∙ rw holds refl

module _ {S : Type 0} (w : World S) (t : Shared S) (unread : S → Bytes)
    (file : S → Bytes → Option Bytes) (h : Works w t unread file)
    (m : Remembers w t unread h.shared) where
  -- NO_TR ends the loop.
  last_round :
      (rounds : ℕ) (scratch rest : Bytes) (l : Local) (s : S)
      → 0 < rounds
      → 5 < length l.rec
      → Pending unread l.b s (codes "NO_TR\n" ++ rest)
      → (l' : Local) × (u : S) × (transmission_loop w t (suc rounds) scratch l s ≡ done (some l') u)
        × Says w s u (codes "SEND_NEXT\n")
        × Pending unread l'.b u rest
  unfolding waits asks starts_with
  last_round rounds scratch rest l s enough room p =
      let (l1, u, asked, holds, size, same, told, p1) =
        request_next-answered w t unread h.stream h.net rounds 0 (codes "NO_TR") rest l s enough
          h.runs (omega arith) (omega arith) room (omega arith) refl refl p in
      (
        l1,
        u,
        no_tr_run w t rounds scratch l l1 s u asked holds,
        (λ said speaks. told said (exchange-Tells w said speaks t)),
        p1,
      )

  -- The rounds of a directory and the last one.
  pub finished_run :
      (rounds k : ℕ) (x : Item) (xs : List Item) (ys : List Asked) (scratch rest : Bytes)
      (l : Local) (s : S)
      → 0 < rounds
      → k < suc rounds
      → All (λ i. SameDir x.tr i.tr) xs
      → All (Fits w (length l.rec) (suc (suc rounds))) (x ∷ xs)
      → All (There w h.files.can_write s) (x ∷ xs)
      → Writable (h.files.can_write s) (active_dir x.tr) ys
      → Distinct (x ∷ xs)
      → Ends w (length l.rec) scratch x.tr ys
      → All (λ i. All (λ y. asked_file (active_dir x.tr) y ≢ item_file i) ys) (x ∷ xs)
      → 5 < length l.rec
      → 3 < length scratch
      → Pending unread l.b s
          (session_answers (x ∷ xs) (ending_answers k x.tr ys (codes "NO_TR\n" ++ rest)))
      → (l1 l2 : Local) × (u v : S) × (transmission_loop w t
            (length (x ∷ xs) + suc (suc rounds))
            scratch
            l
            s
          ≡ transmission_loop w t
              (suc rounds)
              scratch
              l1
              (m.renamed (active_dir x.tr) (complete_dir x.tr.d.first) u))
        × All (λ i. file u (item_file i) ≡ some i.contents) (x ∷ xs)
        × All (λ y. file u (asked_file (active_dir x.tr) y) ≡ some y.contents) ys
        × (transmission_loop w t
              (suc rounds)
              scratch
              l1
              (m.renamed (active_dir x.tr) (complete_dir x.tr.d.first) u)
            ≡ done (some l2) v)
        × SaysApart w h.shared.set s v
            (session_commands (x ∷ xs) [] ++ (ending_requests k x.tr ys ++ codes "SEND_NEXT\n"))
        × Pending unread l2.b v rest
  finished_run rounds k x xs ys scratch rest l s more enough same fits there writable distinct ends
        apart room small p =
      let (l1, u, run, stored, endings, size, told1, p1) =
        directory_run w t unread file h m (suc rounds) k x xs ys scratch (codes "NO_TR\n" ++ rest) l
          s enough same fits there writable distinct ends apart (omega arith) small p in
      let (l2, v, last, told2, p2) =
        last_round rounds scratch rest l1
          (m.renamed (active_dir x.tr) (complete_dir x.tr.d.first) u) more
          (subst (λ n. 5 < n) (sym size) room) p1 in
      (
        l1,
        l2,
        u,
        v,
        run,
        stored,
        endings,
        last,
        (λ said speaks apart.
            told2 said speaks
            ∙ rw (told1 said speaks apart) (
                append_assoc (said s) (session_commands (x ∷ xs) [] ++ ending_requests k x.tr ys)
                  (codes "SEND_NEXT\n")
                ∙ ap (λ b. said s ++ b)
                    (append_assoc (session_commands (x ∷ xs) []) (ending_requests k x.tr ys)
                      (codes "SEND_NEXT\n")))),
        p2,
      )
