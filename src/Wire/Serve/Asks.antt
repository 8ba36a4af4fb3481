-- ===== src/Wire/Serve/Asks.antt =====
-- The remaining files of a directory, which the client asks for by name.
use study_and_development_of.Base.{
  ℕ, suc, ◌+◌, ◌/◌, ◌<◌, ◌≡◌, refl, sym, ◌∙◌, ap, subst, pos, Bytes, List, [], ◌∷◌, ◌++◌,
  append_assoc, append-nil, codes, length, All, arith, equal, starts_with,
}
use study_and_development_of.Libc.RoundTrip.{IsWord}
use study_and_development_of.World.{World}
use study_and_development_of.World.Keeps.{Keeps}
use study_and_development_of.Common.Info.{TrInfo}
use study_and_development_of.Common.Stream.{IsStream, Pending}
use study_and_development_of.Common.Stream.Lines.{IsText}
use study_and_development_of.Server.Scan.{max_path_len}
use study_and_development_of.Server.Transfer.{bufsiz, send_file}
use study_and_development_of.Server.Transfer.Emits.{with_sizes, transfer, SendsAll, Compresses}
use study_and_development_of.Server.Handler.{Child, command, execute, handled, child_loop}
use study_and_development_of.Server.Frame.{Quiet, compress_and_send-Keeps}
use study_and_development_of.Server.Disk.{Duplex}
use study_and_development_of.Server.Disk.Rest.{asked_path, send_file-transfer}
use study_and_development_of.Wire.Text.{All-IsText-append}
use study_and_development_of.Wire.Remaining.{Asked, asked_answers}
use study_and_development_of.Wire.Serve.{Answers, handled_answers, answered_round}

abbrev pub ask_line : Asked → Bytes
ask_line y = codes "SEND_FILE " ++ y.rel

-- The commands with which the client asks for the files.
abbrev pub ask_commands : List Asked → Bytes → Bytes
ask_commands [] rest = rest
ask_commands (y ∷ ys) rest = ask_line y ++ b'\n' ∷ ask_commands ys rest

-- The name is one word, the path in the answer is the server's, and the two lines of the protocol fit
-- the arrays of the server.
pub record AskFits (size : ℕ) (y : Asked) : Type 0 where
  pub word : IsWord y.rel
  pub text : All IsText y.rel
  pub short : length y.rel < max_path_len / 2
  pub path_is : y.path ≡ asked_path y.rel
  pub answer :
      length (
        with_sizes
          (codes "SENDING REQUESTED " ++ asked_path y.rel)
          (pos (length y.contents))
          (pos (length y.out)))
      < bufsiz
  pub cmd : length (ask_line y) < size

-- The server can read and compress the files.
abbrev pub Readable : {S : Type 0} → World S → List Asked → S → Type 0
Readable w ys s = All (λ y. Compresses w (asked_path y.rel) y.contents y.out s) ys

module _ {S : Type 0} (w : World S) (tr0 : TrInfo) where
  execute-send_file :
      (arg : Bytes)
      → execute w tr0 (codes "SEND_FILE " ++ arg) (command (codes "SEND_FILE " ++ arg))
        ≡ handled w tr0 (send_file w (codes "SEND_FILE " ++ arg))
  unfolding execute command equal starts_with
  execute-send_file arg = refl

module _ {S : Type 0} (w : World S) (tr0 : TrInfo) (unread sent : S → Bytes)
    (stream : IsStream w unread) (duplex : Duplex w unread sent) (net : SendsAll w sent)
    (P : S → Type 0) (quiet : Quiet w P)
    (reading : (array : Bytes) → Keeps P (w.tcp_receive array)) where
  send_file-Answers :
      (size : ℕ) (y : Asked)
      → AskFits size y
      → ((s : S) → P s → Compresses w (asked_path y.rel) y.contents y.out s)
      → Answers w tr0 unread sent stream duplex
          (ask_line y)
          (transfer (codes "SENDING REQUESTED " ++ y.path) (length y.contents) y.out)
          P
          P
  send_file-Answers size y h readable =
      handled_answers w tr0 unread sent stream duplex (ask_line y) _ P P (send_file w (ask_line y))
        (execute-send_file w tr0 y.rel)
        λ s holds.
          let header = codes "SENDING REQUESTED " ++ asked_path y.rel in
          let (t, run, packed, went) =
            send_file-transfer w sent net y.rel y.contents y.out s h.word h.short (readable s holds)
              h.answer in
          (
            t,
            run,
            (compress_and_send-Keeps w P quiet (asked_path y.rel) header).keeps s (pos 0) t holds
                packed,
            went
                ∙ ap
                    (λ p.
                      sent s
                      ++ transfer (codes "SENDING REQUESTED " ++ p) (length y.contents) y.out)
                    (sym h.path_is),
            (compress_and_send-Keeps w (λ v. unread v ≡ unread s) (duplex.sending (unread s))
                  (asked_path y.rel) header).keeps
                s (pos 0) t refl packed,
          )

  -- A round for each of the files.
  pub asked_rounds :
      (ys : List Asked) (rounds : ℕ) (rest : Bytes) (c : Child) (s : S)
      → P s
      → ((v : S) → P v → Readable w ys v)
      → All (AskFits (length c.cmd)) ys
      → Pending unread c.b s (ask_commands ys rest)
      → (c' : Child) × (t : S) × (child_loop w tr0 (length ys + rounds) c s
          ≡ child_loop w tr0 rounds c' t)
        × P t
        × (sent t ≡ sent s ++ asked_answers ys [])
        × (length c'.cmd ≡ length c.cmd)
        × Pending unread c'.b t rest
  asked_rounds [] rounds rest c s holds readable fits p =
      let none_left : length {A = Asked} [] + rounds ≡ rounds = omega arith in
      (c, s, ap (λ k. child_loop w tr0 k c s) none_left, holds, sym (append-nil (sent s)), refl, p)
  asked_rounds (y ∷ ys) rounds rest c s holds readable fits p =
      let one_more : length (y ∷ ys) + rounds ≡ suc (length ys + rounds) = omega arith in
      let (c1, s1, run, holds1, went, size, p1) =
        answered_round w tr0 unread sent stream duplex (ask_line y)
          (transfer (codes "SENDING REQUESTED " ++ y.path) (length y.contents) y.out)
          (ask_commands ys rest) P P (length ys + rounds) c s
          (send_file-Answers (length c.cmd) y fits.0 (λ v pv. (readable v pv).0)) reading holds
          (All-IsText-append (codes "SEND_FILE ") y.rel (omega arith) fits.0.text) fits.0.cmd p in
      let (c2, t, runs, holds2, went2, size2, p2) =
        asked_rounds ys rounds rest c1 s1 holds1 (λ v pv. (readable v pv).1)
          (subst (λ k. All (AskFits k) ys) (sym size) fits.1) p1 in
      (
        c2,
        t,
        ap (λ k. child_loop w tr0 k c s) one_more ∙ run ∙ runs,
        holds2,
        went2 ∙ rw went (simp append_assoc refl),
        size2 ∙ size,
        p2,
      )
