-- ===== src/Wire/Session/Thread.antt =====
-- The transmission thread from its connection to its exit.
use study_and_development_of.Base.{ℕ, ◌≡◌, ◌∙◌, ℤ, pos, is_neg, Bytes, codes, some, false}
use study_and_development_of.World.{World, done, exited, ◌>>◌, bind-done}
use study_and_development_of.Common.TcpBuffer.{init_buffer_tcp}
use study_and_development_of.Client.Exchange.{exit_transmission_thread}
use study_and_development_of.Client.Transmission.{
  Shared, Local, transmission_loop, transmission_thread,
}
use study_and_development_of.Client.Transmission.Waits.{Sending}

module _ {S : Type 0} (w : World S) (t : Shared S) (unread : S → Bytes)
    (net : Sending w unread) where
  -- If the thread connects and its loop ends, it sends CLOSE and ends with the status 0.
  pub thread_run :
      (rounds : ℕ) (scratch : Bytes) (l l' : Local) (sk : ℤ) (s u v : S)
      → (t.set_status (pos 1) >> w.connect) s ≡ done sk u
      → is_neg sk ≡ false
      → transmission_loop w t rounds scratch (record l { b = init_buffer_tcp l.b.buffer }) u
        ≡ done (some l') v
      → transmission_thread w t rounds scratch l s ≡ exited (pos 0) (net.after (codes "CLOSE\n") v)
  unfolding transmission_thread exit_transmission_thread
  thread_run rounds scratch l l' sk s u v begins connected run =
      bind-done (t.set_status (pos 1) >> w.connect) _ begins
      ∙ rw connected (
          bind-done
            (transmission_loop w t rounds scratch (record l { b = init_buffer_tcp l.b.buffer })) _
            run
          ∙ bind-done (w.tcp_send (codes "CLOSE\n")) _ (net.text (codes "CLOSE\n") v))
