-- ===== src/Client/Receive/Payload.antt =====
-- The bytes of a file are taken off the stream as they are, NULs and newlines included.
use study_and_development_of.Base.{
  ℕ, ◌+◌, ◌≡◌, refl, sym, ◌∙◌, [], ◌∷◌, ◌++◌, Bytes, pos, length, get_or-drop, arith, true,
}
use study_and_development_of.World.{done, World, bind-done}
use study_and_development_of.Common.TcpBuffer.{TcpBuffer, at_end}
use study_and_development_of.Common.Stream.{Buffered, Delivers, IsStream, Pending}
use study_and_development_of.Common.Stream.Chars.{
  Reads, Buffered-reload, Buffered-step, at_end-cons, at_end-nil, got-cons,
}
use study_and_development_of.Client.Receive.{binary_reloaded, tcp_binary_getchar_bs, receive_bytes}

module _ {S : Type 0} (w : World S) (unread : S → Bytes) (stream : IsStream w unread) where
  binary_reload :
      (b : TcpBuffer) (s : S) (c : ℕ) (rest : Bytes)
      → at_end b ≡ true
      → unread s ≡ c ∷ rest
      → Delivers unread w.tcp_binary_receive s b.buffer
      → Reads unread (tcp_binary_getchar_bs w b) s c rest
  unfolding tcp_binary_getchar_bs
  binary_reload b s c rest empty more d =
      let (gs, got_is, left) = got-cons d.got (unread d.after) d.got_some (sym more ∙ d.taken) in
      record {
        buffer = record { dim = pos (length d.got); i = 1; buffer = d.got ++ d.tail };
        after = d.after;
        result = rw empty (
            bind-done (w.tcp_binary_receive b.buffer) (binary_reloaded w) d.result
            ∙ rw got_is refl);
        pending = record {
          ahead = gs;
          buffered = Buffered-reload d.got c gs d.tail got_is;
          stream_is = left;
        };
      }

  binary_held :
      (b : TcpBuffer) (s : S) (c : ℕ) (cs : Bytes)
      → Buffered b (c ∷ cs)
      → tcp_binary_getchar_bs w b s ≡ done (c, record b { i = b.i + 1 }) s
  unfolding tcp_binary_getchar_bs
  binary_held b s c cs h = rw (at_end-cons b c cs h, get_or-drop b.buffer b.i 0 c h.split)

  -- The next byte of the stream is returned, whatever it is.
  pub tcp_binary_getchar_bs-Reads :
      (b : TcpBuffer) (s : S) (c : ℕ) (rest ahead : Bytes)
      → Buffered b ahead
      → ahead ++ unread s ≡ c ∷ rest
      → Reads unread (tcp_binary_getchar_bs w b) s c rest
  tcp_binary_getchar_bs-Reads b s c rest [] h e =
      binary_reload b s c rest (at_end-nil b h) e (stream.binary s b.buffer (λ none_left. cc))
  tcp_binary_getchar_bs-Reads b s c rest (d ∷ cs) h e = record {
    buffer = record b { i = b.i + 1 };
    after = s;
    result = let same : d ≡ c = ground arith in rw (← same) (binary_held b s d cs h);
    pending = record { ahead = cs; buffered = Buffered-step b d cs h; stream_is = ground arith };
  }

  -- On a connection that delivers its bytes in order, as many bytes as are asked for are taken off
  -- it, and no more, whatever their values and the sizes of the packets.
  pub receive_bytes-payload :
      (payload rest : Bytes) (b : TcpBuffer) (s : S)
      → Pending unread b s (payload ++ rest)
      → (b' : TcpBuffer) × (t : S) × (receive_bytes w (length payload) b s ≡ done (payload, b') t)
        × Pending unread b' t rest
  unfolding receive_bytes
  receive_bytes-payload [] rest b s p = (b, s, refl, p)
  receive_bytes-payload (c ∷ payload) rest b s p =
      let r = tcp_binary_getchar_bs-Reads b s c (payload ++ rest) p.ahead p.buffered p.stream_is in
      let (b', t, e, q) = receive_bytes-payload payload rest r.buffer r.after r.pending in
      (
        b',
        t,
        bind-done (tcp_binary_getchar_bs w b) _ r.result
            ∙ bind-done (receive_bytes w (length payload) r.buffer)
                (λ (cs, b''). λ u. done (c ∷ cs, b'') u) e,
        q,
      )
