-- ===== src/Wire/Status.antt =====
-- STATUS: the state of the logger on the drone, as the main thread of the client sees it.
use study_and_development_of.Base.{
  ◌<◌, ◌≡◌, refl, sym, ◌∙◌, ap, subst, ℤ, pos, Bytes, [], ◌∷◌, ◌++◌, append_assoc, codes, length,
  starts_with, All, false, some, arith,
}
use study_and_development_of.Libc.Scan.{skip_word, scan_d}
use study_and_development_of.World.{done, World, bind-done}
use study_and_development_of.Common.TcpBuffer.{TcpBuffer}
use study_and_development_of.Common.Stream.{IsStream, Pending}
use study_and_development_of.Common.Stream.Lines.{IsText}
use study_and_development_of.Server.Logger.{reply, status}
use study_and_development_of.Server.Logger.Commands.{pgrep, logger_idle, logger_running}
use study_and_development_of.Server.Transfer.Emits.{SendsAll}
use study_and_development_of.Client.Console.{Console}
use study_and_development_of.Client.Main.{
  Threads, Local, scan_status, control, serve_user, main_round,
}
use study_and_development_of.Client.Main.Answers.{control-line}
use study_and_development_of.Wire.Fetch.{append_cancel, done-injective}

-- Whether pgrep has printed a process, as a number and as the server's line.
abbrev pub logger_flag : Bytes → ℤ
logger_flag [] = pos 0
logger_flag (_ ∷ _) = pos 1

abbrev pub status_line : Bytes → Bytes
status_line [] = codes "STATUS: 0"
status_line (_ ∷ _) = codes "STATUS: 1"

module _ {R : Type 0} (sw : World R) where
  status-reply :
      (name lines : Bytes) (r r1 : R)
      → sw.popen (pgrep sw name) r ≡ done (some lines) r1
      → status sw name r ≡ reply sw (status_line lines ++ b'\n' ∷ []) (pos 0) r1
  status-reply name [] r r1 e =
      (logger_idle sw (b'x' ∷ []) [] [] name r r1 ((λ e. cc), (refl, tt)) (omega arith) e).0
  status-reply name (ch ∷ lines) r r1 e =
      (logger_running sw (b'x' ∷ []) [] [] name ch lines r r1 ((λ e. cc), (refl, tt)) (omega arith)
        e).0

-- The client reads the flag from the line.
scan_status-line :
    (lines : Bytes) (old : ℤ) → scan_status (status_line lines) old ≡ logger_flag lines
unfolding scan_status skip_word scan_d
scan_status-line [] old = refl
scan_status-line (_ ∷ _) old = refl

status_line-facts :
    (lines : Bytes)
    → All IsText (status_line lines)
      × (0 < length (status_line lines))
      × (length (status_line lines) < 10)
      × (starts_with (codes "ERROR") (status_line lines) ≡ false)
unfolding starts_with
status_line-facts [] = (omega arith, omega arith, omega arith, refl)
status_line-facts (_ ∷ _) = (omega arith, omega arith, omega arith, refl)

-- If the server has answered STATUS while pgrep prints certain lines, every send succeeds, and the
-- main thread of the client, whose array has room for ten bytes, finds that answer on its
-- connection after it has sent STATUS, the round goes on with 0 as the state of the logger if
-- there were no lines and 1 if there were some, and with the connection behind the answer.
pub main_round-status :
    {R S : Type 0} (sw : World R) (sent : R → Bytes) (w : World S) (c : Console S) (t : Threads S)
    (unread : S → Bytes)
    → SendsAll sw sent
    → IsStream w unread
    → (name lines answer : Bytes) (r r1 r2 : R) → sw.popen (pgrep sw name) r ≡ done (some lines) r1
    → status sw name r ≡ done (pos 0) r2
    → sent r2 ≡ sent r1 ++ answer
    → (rest : Bytes) (l : Local) (s s1 : S) → 9 < length l.rec
    → w.tcp_send (codes "STATUS\n") s ≡ done (pos 1) s1
    → Pending unread l.control_buffer s1 (answer ++ rest)
    → (b : TcpBuffer) × (array : Bytes) × (u : S) × (main_round w c t l s
        ≡ serve_user w c t
            (record l { control_buffer = b; rec = array; logger_status = logger_flag lines })
            u)
      × Pending unread b u rest
unfolding main_round
main_round-status sw sent w c t unread net stream name lines answer r r1 r2 printed ran out_is rest
      l s s1 room went p =
    let line = status_line lines in
    let facts = status_line-facts lines in
    let same : r2 ≡ net.after (line ++ b'\n' ∷ []) r1 = done-injective (
      sym ran
      ∙ status-reply sw name lines r r1 printed
      ∙ bind-done (sw.tcp_send (line ++ b'\n' ∷ [])) _ (net.text (line ++ b'\n' ∷ []) r1)) in
    let answer_is : answer ≡ line ++ b'\n' ∷ [] =
      append_cancel (sent r1)
        (sym out_is ∙ ap sent same ∙ net.sent-after (line ++ b'\n' ∷ []) r1) in
    let (b, array, u, run, holds, p') =
      control-line w c t unread stream line rest (codes "STATUS\n") l s s1 went facts.0 facts.1
        (omega arith) facts.3
        (subst (Pending unread l.control_buffer s1)
          (ap (λ a. a ++ rest) answer_is ∙ append_assoc line (b'\n' ∷ []) rest) p) in
    (
      b,
      array,
      u,
      bind-done (control w c t (codes "STATUS\n") l) _ run
          ∙ ap
              (λ z.
                serve_user w c t (record l { control_buffer = b; rec = array; logger_status = z })
                  u)
              (ap (λ x. scan_status x l.logger_status) holds
                ∙ scan_status-line lines l.logger_status),
      p',
    )
