-- ===== src/Wire/Session/Ending.antt =====
-- The end of a directory in the transmission thread: EMPTY and what follows it.
use study_and_development_of.Base.{
  ℕ, suc, ◌<◌, ◌≡◌, ◌≢◌, refl, sym, ◌∙◌, ap, subst, pos, Bytes, List, [], ◌∷◌, ◌++◌, append_assoc,
  codes, length, Option, some, All, true, false, arith, c_str, starts_with,
}
use study_and_development_of.World.{World, done, pure, ◌>>=◌, bind-done}
use study_and_development_of.Common.Paths.{dir_exists}
use study_and_development_of.Common.Info.{NextDir, TrInfo}
use study_and_development_of.Common.Stream.{Pending}
use study_and_development_of.Common.Stream.Lines.{IsText}
use study_and_development_of.Client.Request.{remaining_files}
use study_and_development_of.Client.Transmission.{
  Shared, Local, request_next, on_sending, on_empty, transmission_loop,
}
use study_and_development_of.Client.Transmission.Waits.{waits, asks, request_next-answered}
use study_and_development_of.Wire.Text.{All-IsText-append, fmt_d-IsText}
use study_and_development_of.Wire.Frame.{Untouched}
use study_and_development_of.Wire.Apart.{request_next-Keeps}
use study_and_development_of.Wire.Said.{Says, exchange-Tells}
use study_and_development_of.Wire.Sending.{active_dir, received, SetsShared}
use study_and_development_of.Wire.Cycle.{NameFits}
use study_and_development_of.Wire.Remaining.{
  Asked, asked_file, asked_answers, asked_commands, rels, remaining_list, AskedFits, AskedApart,
}
use study_and_development_of.Wire.Remaining.Stored.{rooms-Unmoved}
use study_and_development_of.Wire.Finish.{
  empty_line, dir_removed_line, complete_dir, remove_dir_command, on_empty_run,
}
use study_and_development_of.Wire.Session.{Writable, SameDir, Works}

-- What the server puts on the connection for a directory: for its files, then, after `k` WAIT answers,
-- EMPTY, the remaining files, and the answer to REMOVE_DIR.
abbrev pub ending_answers : ℕ → TrInfo → List Asked → Bytes → Bytes
ending_answers k tr ys rest =
    waits k
      (empty_line tr ++ b'\n' ∷ asked_answers ys (dir_removed_line tr.d.first ++ b'\n' ∷ rest))

-- What the client sends for the end of a directory.
abbrev pub ending_requests : ℕ → TrInfo → List Asked → Bytes
ending_requests k tr ys = asks k ++ (asked_commands (rels ys) [] ++ remove_dir_command tr.d.first)

-- The directory and the logger that the main thread would read.
abbrev pub Knows : {S : Type 0} → Shared S → TrInfo → S → Type 0
Knows t tr s = ((t.get_tr s).d.first ≡ tr.d.first) × ((t.get_tr s).d.logger_n ≡ tr.d.logger_n)

-- What the thread shares is what it reads, and no call changes it; a directory can be renamed, which
-- takes nothing off the connection.
pub record Remembers {S : Type 0} (w : World S) (t : Shared S) (unread : S → Bytes)
    (shared : SetsShared t unread) : Type 0 where
  pub get_set : (tr : TrInfo) (s : S) → t.get_tr (shared.set tr s) ≡ tr
  pub calls : (tr : TrInfo) → Untouched w (Knows t tr) []
  pub renamed : Bytes → Bytes → S → S
  pub rename_lem :
      (old new : Bytes) (s : S)
      → dir_exists w old s ≡ pos 1
      → w.rename old new s ≡ done (pos 0) (renamed old new s)
  pub unread-renamed : (old new : Bytes) (s : S) → unread (renamed old new s) ≡ unread s

empty-error : (tr : TrInfo) → starts_with (codes "ERROR") (empty_line tr) ≡ false
unfolding starts_with
empty-error tr = refl

empty-wait : (tr : TrInfo) → starts_with (codes "WAIT") (empty_line tr) ≡ false
unfolding starts_with
empty-wait tr = refl

empty-sending : (tr : TrInfo) → starts_with (codes "SENDING") (empty_line tr) ≡ false
unfolding starts_with
empty-sending tr = refl

dir_removed-no_tr : (folder : Bytes) → starts_with (codes "NO_TR") (dir_removed_line folder) ≡ false
unfolding starts_with
dir_removed-no_tr folder = refl

empty-IsText : (tr : TrInfo) → All IsText tr.d.first → All IsText (empty_line tr)
empty-IsText tr h =
    All-IsText-append (codes "EMPTY ") _ (omega arith)
      (All-IsText-append tr.d.first _ h (omega arith, fmt_d-IsText tr.d.logger_n))

-- The names depend on the directory and the logger only.
remaining_list-same :
    (d e : NextDir)
    → d.first ≡ e.first
    → d.logger_n ≡ e.logger_n
    → remaining_list d ≡ remaining_list e
unfolding remaining_files
remaining_list-same d e first n = rw (first, n) refl

module _ {S : Type 0} (w : World S) (t : Shared S) where
  -- The round of EMPTY, whose answers are known.
  empty-run :
      (rounds : ℕ) (scratch : Bytes) (tr : TrInfo) (l l2 l3 : Local) (s u2 u3 : S)
      → ((u : S) → t.running u ≡ true)
      → request_next w t rounds l s ≡ done (some l2) u2
      → c_str l2.rec ≡ empty_line tr
      → on_empty w t scratch l2 u2 ≡ done l3 u3
      → c_str l3.rec ≡ dir_removed_line tr.d.first
      → transmission_loop w t (suc rounds) scratch l s ≡ transmission_loop w t rounds scratch l3 u3
  unfolding transmission_loop on_sending
  empty-run rounds scratch tr l l2 l3 s u2 u3 runs asked holds finished said =
      bind-done (request_next w t rounds l) _ asked
      ∙ rw (holds, empty-sending tr)
          (bind-done (on_empty w t scratch l2) _ finished
            ∙ rw (runs u3, said, dir_removed-no_tr tr.d.first) refl)

-- The end of a directory that the client can receive.
pub record Ends {S : Type 0} (w : World S) (size : ℕ) (scratch : Bytes) (tr : TrInfo)
    (ys : List Asked) : Type 0 where
  pub line : length (empty_line tr) < size
  pub reply : length (dir_removed_line tr.d.first) < size
  pub order : rels ys ≡ remaining_list tr.d
  pub fit : All (AskedFits w scratch (active_dir tr)) ys
  pub apart : AskedApart (active_dir tr) ys

module _ {S : Type 0} (w : World S) (t : Shared S) (unread : S → Bytes)
    (file : S → Bytes → Option Bytes) (h : Works w t unread file)
    (m : Remembers w t unread h.shared) where
  pub Knows-set :
      (tr y old : TrInfo) (v : S) → SameDir tr y → Knows t tr (h.shared.set (received old y) v)
  Knows-set tr y old v same =
      let e = m.get_set (received old y) v in
      (ap (λ (z : TrInfo). z.d.first) e ∙ same.0, ap (λ (z : TrInfo). z.d.logger_n) e ∙ same.1)

  -- The round of EMPTY.
  pub ending_round :
      (size rounds k : ℕ) (tr : TrInfo) (ys : List Asked) (scratch rest : Bytes) (l : Local) (s : S)
      → NameFits tr
      → Ends w size scratch tr ys
      → k < rounds
      → length l.rec ≡ size
      → 4 < size
      → l.transmission_dir ≡ active_dir tr
      → Knows t tr s
      → dir_exists w (active_dir tr) s ≡ pos 1
      → Writable (h.files.can_write s) (active_dir tr) ys
      → Pending unread l.b s (ending_answers k tr ys rest)
      → (l' : Local) × (u : S) × (transmission_loop w t (suc rounds) scratch l s
          ≡ transmission_loop w t rounds scratch l'
              (m.renamed (active_dir tr) (complete_dir tr.d.first) u))
        × All (λ y. file u (asked_file (active_dir tr) y) ≡ some y.contents) ys
        × (length l'.rec ≡ size)
        × ((name bytes : Bytes)
            → All (λ y. asked_file (active_dir tr) y ≢ name) ys
            → file s name ≡ some bytes
            → file u name ≡ some bytes)
        × Says w s (m.renamed (active_dir tr) (complete_dir tr.d.first) u) (ending_requests k tr ys)
        × Pending unread l'.b (m.renamed (active_dir tr) (complete_dir tr.d.first) u) rest
  ending_round size rounds k tr ys scratch rest l s names ends enough array room at knows there
        writable p =
      let dir = active_dir tr in
      let folder = tr.d.first in
      let (l2, u2, asked, holds, size2, same, told2, p2) =
        request_next-answered w t unread h.stream h.net rounds k (empty_line tr)
          (asked_answers ys (dir_removed_line folder ++ b'\n' ∷ rest)) l s enough h.runs
          (empty-IsText tr names.text) (omega arith)
          (subst (λ n. length (empty_line tr) < n) (sym array) ends.line)
          (subst (λ n. 4 < n) (sym array) room) (empty-error tr) (empty-wait tr) p in
      let knows2 =
        (request_next-Keeps w t (Knows t tr) [] (m.calls tr) rounds l).keeps s (some l2) u2 knows
          asked in
      let here : l2.transmission_dir ≡ dir = same ∙ at in
      let (l3, u3, run, stored, said, size3, kept, told3, still, p3) =
        on_empty_run w t unread file h.stream h.net h.files h.apart.calls h.memory tr ys scratch
          rest l2 u2 holds names.word names.text names.short
          (subst (λ n. length (dir_removed_line folder) < n) (sym (size2 ∙ array)) ends.reply)
          (ends.order ∙ sym (remaining_list-same (t.get_tr u2).d tr.d knows2.0 knows2.1))
          (subst (λ d. All (AskedFits w scratch d) ys) (sym here) ends.fit)
          (subst (λ d. AskedApart d ys) (sym here) ends.apart)
          (subst (λ d. Writable (h.files.can_write u2) d ys) (sym here)
            (rooms-Unmoved w unread file h.stream h.net h.files h.apart.calls h.memory dir ys s u2
              (λ P h' before.
                (request_next-Keeps w t P [] h' rounds l).keeps s (some l2) u2 before asked)
              writable))
          p2 in
      let there2 =
        (request_next-Keeps w t (λ v. dir_exists w dir v ≡ pos 1) [] (h.apart.dirs dir) rounds
            l).keeps
          s (some l2) u2 there asked in
      let there3 = still (λ v. dir_exists w dir v ≡ pos 1) (h.apart.dirs dir) there2 in
      let u4 = m.renamed dir (complete_dir folder) u3 in
      let finished : on_empty w t scratch l2 u2 ≡ done l3 u4 =
        run
        ∙ ap (λ d. (w.rename d (complete_dir folder) >>= λ _. pure l3) u3) here
        ∙ bind-done (w.rename dir (complete_dir folder)) (λ _. pure l3)
            (m.rename_lem dir (complete_dir folder) u3 there3) in
      (
        l3,
        u3,
        empty-run w t rounds scratch tr l l2 l3 s u2 u4 h.runs asked holds finished said,
        subst (λ d. All (λ y. file u3 (asked_file d y) ≡ some y.contents) ys) here stored,
        size3 ∙ size2 ∙ array,
        (λ name bytes other before.
            kept name bytes (subst (λ d. All (λ y. asked_file d y ≢ name) ys) (sym here) other) (
              (request_next-Keeps w t (λ v. file v name ≡ some bytes) name
                  (h.apart.calls name bytes) rounds l).keeps
                s (some l2) u2 before asked)),
        (λ says speaks.
            (speaks.rename (says u3) dir (complete_dir folder)).keeps u3 (pos 0) u4 refl
              (m.rename_lem dir (complete_dir folder) u3 there3)
            ∙ told3 says speaks
            ∙ rw (told2 says (exchange-Tells w says speaks t)) (
                append_assoc (says s) (asks k)
                  (asked_commands (rels ys) [] ++ remove_dir_command folder))),
        record {
          ahead = p3.ahead;
          buffered = p3.buffered;
          stream_is = rw (m.unread-renamed dir (complete_dir folder) u3) p3.stream_is;
        },
      )
