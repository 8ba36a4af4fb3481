-- ===== src/Client/Main/Rounds.antt =====
-- A lost control connection ends the inner loop.
use study_and_development_of.Base.{
  ℕ, suc, ◌≡◌, refl, ◌∙◌, ℤ, pos, negsuc, is_pos, is_negsuc, Bytes, codes, Bool, true, false, not,
  ◌&&◌, ◌||◌, some, arith,
}
use study_and_development_of.World.{done, World, ◌>>=◌, bind-done}
use study_and_development_of.Common.TcpBuffer.{TcpBuffer, tcp_readline}
use study_and_development_of.Client.Console.{Console}
use study_and_development_of.Client.Main.{
  Threads, Local, write_text, tcp_send_receive_mt, control, main_round, control_loop,
}

module _ {S : Type 0} (w : World S) (c : Console S) (t : Threads S) where
  -- The command cannot be sent, or the read ends at once: by an error, or by an empty line.
  pub data Lost (l : Local) (s u : S) : Type 0 where
    unsent : w.tcp_send (codes "STATUS\n") s ≡ done (pos 0) u → Lost l s u
    unread :
        (sent : ℤ) (s1 : S) (ret : ℤ) (b : TcpBuffer) (rec : Bytes)
        → w.tcp_send (codes "STATUS\n") s ≡ done sent s1
        → is_pos sent 0 ≡ false
        → tcp_readline w l.control_buffer l.rec s1 ≡ done (ret, b, rec) u
        → (is_negsuc ret 0 || is_pos ret 0) ≡ true
        → Lost l s u

  tcp_send_receive_mt-lost :
      (l : Local) (s u : S)
      → Lost l s u
      → (n : ℕ) × (b : TcpBuffer) × (rec : Bytes) × (tcp_send_receive_mt w c t l.control_buffer
            (codes "STATUS\n")
            l.rec
            s
          ≡ done (negsuc n, b, rec) u)
  unfolding tcp_send_receive_mt
  tcp_send_receive_mt-lost l s u (unsent e) =
      (0, _, _, bind-done (w.tcp_send (codes "STATUS\n")) _ e)
  tcp_send_receive_mt-lost l s u (unread sent s1 ret b rec e went read ended) = (
    1,
    b,
    write_text rec (codes "ERROR, UNABLE TO READ\n"),
    bind-done (w.tcp_send (codes "STATUS\n")) _ e
        ∙ rw went (bind-done (tcp_readline w l.control_buffer l.rec) _ read ∙ rw ended refl),
  )

  main_round-lost :
      (l : Local) (s u : S)
      → Lost l s u
      → (b : TcpBuffer) × (rec : Bytes) × (main_round w c t l s
          ≡ done (record l { control_buffer = b; rec = rec; active_connection = false }) u)
  unfolding main_round control
  main_round-lost l s u lost =
      let (n, b, rec, run) = tcp_send_receive_mt-lost l s u lost in
      (
        b,
        rec,
        bind-done (control w c t (codes "STATUS\n") l) _
            (bind-done (tcp_send_receive_mt w c t l.control_buffer (codes "STATUS\n") l.rec) _ run),
      )

  control_loop-open :
      (rounds : ℕ) (l : Local) (s : S)
      → (l.active_connection && not l.end_client) ≡ true
      → control_loop w c t (suc rounds) l s ≡ (main_round w c t l >>= control_loop w c t rounds) s
  unfolding control_loop
  control_loop-open rounds l s h = rw h refl

  -- If STATUS cannot be sent, or its answer is an error or an empty line of the connection, the
  -- inner loop of main ends within two rounds with the connection marked as lost, and the client
  -- goes on: the flag of its end and the state of the logger are as they were.
  pub control_loop-lost :
      (rounds : ℕ) (l : Local) (s u : S)
      → l.active_connection ≡ true
      → l.end_client ≡ false
      → Lost l s u
      → (b : TcpBuffer) × (rec : Bytes) × (control_loop w c t (suc (suc rounds)) l s
          ≡ done (some (record l { control_buffer = b; rec = rec; active_connection = false })) u)
  unfolding control_loop
  control_loop-lost rounds l s u active not_ended lost =
      let (b, rec, run) = main_round-lost l s u lost in
      (
        b,
        rec,
        control_loop-open (suc rounds) l s (both l.active_connection l.end_client active not_ended)
            ∙ bind-done (main_round w c t l) _ run,
      )
    where
      both : (a e : Bool) → a ≡ true → e ≡ false → (a && not e) ≡ true
      both a e h k = ground arith
