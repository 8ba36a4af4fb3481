-- ===== src/Server/Handler/Rounds.antt =====
-- What a round of the child process does with the bytes of the connection.
use study_and_development_of.Base.{
  ℕ, suc, ◌<◌, ◌≡◌, refl, ◌∙◌, ap, pos, Bytes, List, [], ◌∷◌, sym, subst, ◌++◌, codes, Bool, true,
  false, some, length, All, c_str, arith, equal, starts_with,
}
use study_and_development_of.World.{done, Prog, World, ◌>>=◌, pure, bind-done}
use study_and_development_of.Common.Info.{TrInfo}
use study_and_development_of.Common.TcpBuffer.{TcpBuffer, tcp_readline}
use study_and_development_of.Common.Stream.{IsStream, Pending}
use study_and_development_of.Common.Stream.Lines.{IsText, tcp_readline-line}
use study_and_development_of.Common.Stream.Limits.{tcp_readline-eof}
use study_and_development_of.Server.Handler.{Child, command, execute, round, child_loop}

module _ {S : Type 0} (w : World S) (tr0 : TrInfo) where
  -- The command `cmd` is executed, and the loop keeps `c`.
  abbrev pub executes : Bytes → Child → Prog S (Bool × Child)
  executes cmd c = execute w tr0 cmd (command cmd) >>= λ active. pure (active, c)

module _ {S : Type 0} (w : World S) (tr0 : TrInfo) (unread : S → Bytes)
    (stream : IsStream w unread) where
  -- Reading the line, and then the round.
  pub round-read :
      (line rest : Bytes) (c : Child) (s : S)
      → All IsText line
      → length line < length c.cmd
      → Pending unread c.b s (line ++ b'\n' ∷ rest)
      → (b : TcpBuffer) × (array : Bytes) × (t : S) × (tcp_readline w c.b c.cmd s
          ≡ done (pos (length line), b, array) t)
        × (round w tr0 c s ≡ executes w tr0 line (record { b = b; cmd = array }) t)
        × (c_str array ≡ line)
        × (length array ≡ length c.cmd)
        × Pending unread b t rest
  unfolding round
  round-read line rest c s text fits p =
      let (b, array, t, read, holds, size, p') =
        tcp_readline-line w unread stream line rest c.b c.cmd s text fits p in
      (
        b,
        array,
        t,
        read,
        bind-done (tcp_readline w c.b c.cmd) _ read
            ∙ ap (λ l. executes w tr0 l (record { b = b; cmd = array }) t) holds,
        holds,
        size,
        p',
      )

  -- If a line of text with no 0xFF byte, shorter than the array of the command, is next on a
  -- connection that delivers its bytes in order, the round executes the line's command, the array
  -- holds the line as a C string and keeps its size, and what is executed starts with the
  -- connection behind the newline.
  pub round-line :
      (line rest : Bytes) (c : Child) (s : S)
      → All IsText line
      → length line < length c.cmd
      → Pending unread c.b s (line ++ b'\n' ∷ rest)
      → (c' : Child) × (t : S) × (round w tr0 c s ≡ executes w tr0 line c' t)
        × (c_str c'.cmd ≡ line)
        × (length c'.cmd ≡ length c.cmd)
        × Pending unread c'.b t rest
  round-line line rest c s text fits p =
      let (b, array, t, read, run, holds, size, p') = round-read line rest c s text fits p in
      (record { b = b; cmd = array }, t, run, holds, size, p')

  -- If the byte 0xFF is next on a connection that delivers its bytes in order, the round executes
  -- the command that the array still holds from the round before, and leaves the array as it is,
  -- with only that byte read.
  pub round-stale :
      (rest : Bytes) (c : Child) (s : S)
      → Pending unread c.b s (255 ∷ rest)
      → (c' : Child) × (t : S) × (round w tr0 c s ≡ executes w tr0 (c_str c.cmd) c' t)
        × (c'.cmd ≡ c.cmd)
        × Pending unread c'.b t rest
  unfolding round
  round-stale rest c s p =
      let (b, t, read, p') = tcp_readline-eof w unread stream rest c.b c.cmd s p in
      (record { b = b; cmd = c.cmd }, t, bind-done (tcp_readline w c.b c.cmd) _ read, refl, p')

-- The lines one after the other, as they stand in the stream.
abbrev pub as_stream : List Bytes → Bytes → Bytes
as_stream [] rest = rest
as_stream (line ∷ lines) rest = line ++ b'\n' ∷ as_stream lines rest

module _ {S : Type 0} (w : World S) (tr0 : TrInfo) (unread : S → Bytes) where
  -- A command that can be read into an array of `size` bytes, does not end the connection, and whose
  -- handler returns from every state and reads nothing from the connection.
  pub record Serves (size : ℕ) (line : Bytes) : Type 0 where
    pub text : All IsText line
    pub fits : length line < size
    pub returns :
        (s : S)
        → (t : S) × (execute w tr0 line (command line) s ≡ done true t) × (unread t ≡ unread s)

module _ {S : Type 0} (w : World S) (tr0 : TrInfo) (unread : S → Bytes)
    (stream : IsStream w unread) where
  -- A round that serves a command leaves the loop active, with the stream behind the line.
  round-Serves :
      (line rest : Bytes) (c : Child) (s : S)
      → Serves w tr0 unread (length c.cmd) line
      → Pending unread c.b s (line ++ b'\n' ∷ rest)
      → (c' : Child) × (t : S) × (round w tr0 c s ≡ done (true, c') t)
        × (length c'.cmd ≡ length c.cmd)
        × Pending unread c'.b t rest
  round-Serves line rest c s h p =
      let (c', t, run, holds, size, p') =
        round-line w tr0 unread stream line rest c s h.text h.fits p in
      let (u, ran, same) = h.returns t in
      (
        c',
        u,
        run ∙ bind-done (execute w tr0 line (command line)) _ ran,
        size,
        record { ahead = p'.ahead; buffered = p'.buffered; stream_is = rw same p'.stream_is },
      )

  round-close :
      (rest : Bytes) (c : Child) (s : S)
      → 5 < length c.cmd
      → Pending unread c.b s (codes "CLOSE\n" ++ rest)
      → (c' : Child) × (t : S) × (round w tr0 c s ≡ done (false, c') t) × Pending unread c'.b t rest
  round-close rest c s fits p =
      let (c', t, run, holds, size, p') =
        round-line w tr0 unread stream (codes "CLOSE") rest c s (omega arith) fits p in
      (c', t, run ∙ close_ends c' t, p')
    where
      close_ends : (c' : Child) (t : S) → executes w tr0 (codes "CLOSE") c' t ≡ done (false, c') t
      close_ends c' t = unfold execute command equal starts_with in refl

  -- If the connection delivers commands that are text, fit the array, do not close, and whose
  -- handlers return from every state and read nothing, and then CLOSE, the loop of the child ends:
  -- a round for each command and one more is enough, and nothing behind CLOSE is read.
  pub child_loop-close :
      (lines : List Bytes) (rest : Bytes) (c : Child) (s : S)
      → 5 < length c.cmd
      → All (Serves w tr0 unread (length c.cmd)) lines
      → Pending unread c.b s (as_stream lines (codes "CLOSE\n" ++ rest))
      → (c' : Child) × (t : S) × (child_loop w tr0 (suc (length lines)) c s ≡ done (some c') t)
        × Pending unread c'.b t rest
  unfolding child_loop
  child_loop-close [] rest c s fits h p =
      let (c', t, run, p') = round-close rest c s fits p in
      (c', t, bind-done (round w tr0 c) _ run, p')
  child_loop-close (line ∷ lines) rest c s fits h p =
      let (c1, s1, run, size, p1) =
        round-Serves line (as_stream lines (codes "CLOSE\n" ++ rest)) c s h.0 p in
      let (c2, t, more, p2) =
        child_loop-close lines rest c1 s1 (omega arith)
          (subst (λ n. All (Serves w tr0 unread n) lines) (sym size) h.1) p1 in
      (c2, t, bind-done (round w tr0 c) _ run ∙ more, p2)
