-- ===== src/Wire/Serve.antt =====
-- The child of the server at work on the client's commands: what it reads, what it sends, and what
-- becomes of the disk.
pub mod Files
pub mod Asks
pub mod Closing
pub mod Ending
pub mod Directory
use study_and_development_of.Base.{
  ℕ, suc, ◌<◌, ◌≡◌, refl, sym, ◌∙◌, ap, pos, Bool, Bytes, List, [], ◌∷◌, ◌++◌, append_assoc, codes,
  length, All, true, ℤ,
}
use study_and_development_of.World.{World, Prog, done, bind-done}
use study_and_development_of.World.Keeps.{Keeps}
use study_and_development_of.Common.Info.{TrInfo}
use study_and_development_of.Common.TcpBuffer.{tcp_readline}
use study_and_development_of.Common.Stream.{IsStream, Pending}
use study_and_development_of.Common.Stream.Lines.{IsText}
use study_and_development_of.Common.Stream.Reads.{tcp_readline-Keeps}
use study_and_development_of.Server.Handler.{Child, command, execute, handled, round, child_loop}
use study_and_development_of.Server.Handler.Rounds.{executes, round-read}
use study_and_development_of.Server.Disk.{Duplex}

module _ {S : Type 0} (w : World S) (tr0 : TrInfo) (unread sent : S → Bytes)
    (stream : IsStream w unread) (duplex : Duplex w unread sent) where
  -- A handler that returns, with what it sends, where `P` holds before and `Q` after it.
  pub record Answers (line answer : Bytes) (P Q : S → Type 0) : Type 0 where
    pub answers :
        (s : S)
        → P s
        → (t : S) × (execute w tr0 line (command line) s ≡ done true t)
          × Q t
          × (sent t ≡ sent s ++ answer)
          × (unread t ≡ unread s)

  -- The command of the line is the handler `m`, which answers.
  pub handled_answers :
      (line answer : Bytes) (P Q : S → Type 0) (m : Prog S ℤ)
      → execute w tr0 line (command line) ≡ handled w tr0 m
      → ((s : S)
          → P s
          → (t : S) × (m s ≡ done (pos 0) t)
            × Q t
            × (sent t ≡ sent s ++ answer)
            × (unread t ≡ unread s))
      → Answers line answer P Q
  handled_answers line answer P Q m executes runs = record {
    answers = λ s holds.
        let (t, run, after, went, same) = runs s holds in
        (t, ap (λ (f : Prog S Bool). f s) executes ∙ bind-done m _ run, after, went, same);
  }

  -- A round that answers a line: the loop goes on behind it.
  pub answered_round :
      (line answer rest : Bytes) (P Q : S → Type 0) (rounds : ℕ) (c : Child) (s : S)
      → Answers line answer P Q
      → ((array : Bytes) → Keeps P (w.tcp_receive array))
      → P s
      → All IsText line
      → length line < length c.cmd
      → Pending unread c.b s (line ++ b'\n' ∷ rest)
      → (c' : Child) × (t : S) × (child_loop w tr0 (suc rounds) c s ≡ child_loop w tr0 rounds c' t)
        × Q t
        × (sent t ≡ sent s ++ answer)
        × (length c'.cmd ≡ length c.cmd)
        × Pending unread c'.b t rest
  unfolding child_loop
  answered_round line answer rest P Q rounds c s h reading holds text fits p =
      let (b, array, u, read, run, is_line, size, p1) =
        round-read w tr0 unread stream line rest c s text fits p in
      let c' : Child = record { b = b; cmd = array } in
      let at_u = (tcp_readline-Keeps w P reading c.b c.cmd).keeps s _ u holds read in
      let sent_u =
        (tcp_readline-Keeps w (λ v. sent v ≡ sent s) (duplex.receiving (sent s)) c.b c.cmd).keeps s
          _ u refl read in
      let (t, ran, after, went, same) = h.answers u at_u in
      (
        c',
        t,
        bind-done (round w tr0 c) _ (run ∙ bind-done (execute w tr0 line (command line)) _ ran),
        after,
        rw sent_u at went,
        size,
        record { ahead = p1.ahead; buffered = p1.buffered; stream_is = rw same p1.stream_is },
      )
