-- ===== src/Common/Stream/Chars.antt =====
-- Reading one byte takes the first byte of the stream.
use native.Mathlib.Numerals.{add-one}
use study_and_development_of.Base.{
  ℕ, ◌+◌, ◌≡◌, ◌≢◌, refl, sym, ◌∙◌, ap, [], ◌∷◌, ◌++◌, Bytes, pos, length, get_or-drop, drop-suc,
  arith, true, false,
}
use study_and_development_of.World.{done, Prog, World, bind-done}
use study_and_development_of.Common.TcpBuffer.{TcpBuffer, tcp_getchar_bs, reloaded, at_end}
use study_and_development_of.Common.Stream.{Buffered, Delivers, IsStream, Pending}

module _ {S : Type 0} (unread : S → Bytes) where
  -- The byte `c` has been read, and `rest` is still to be read.
  pub record Reads (p : Prog S (ℕ × TcpBuffer)) (s : S) (c : ℕ) (rest : Bytes) : Type 0 where
    pub buffer : TcpBuffer
    pub after : S
    pub result : p s ≡ done (c, buffer) after
    pub pending : Pending unread buffer after rest

-- A reload leaves the rest of the piece in the buffer.
pub Buffered-reload :
    (d : Bytes) (c : ℕ) (ds tail : Bytes)
    → d ≡ c ∷ ds
    → Buffered (record { dim = pos (length d); i = 1; buffer = d ++ tail }) ds
Buffered-reload d c ds tail e = record {
  tail = tail;
  split = rw e refl;
  dim_is = rw e (ap pos (omega arith));
}

-- Reading a byte that is in the buffer moves the index.
pub Buffered-step :
    (b : TcpBuffer) (c : ℕ) (cs : Bytes)
    → Buffered b (c ∷ cs)
    → Buffered (record b { i = b.i + 1 }) cs
Buffered-step b c cs h = record {
  tail = h.tail;
  split = rw add-one (drop-suc b.buffer b.i c h.split);
  dim_is = h.dim_is ∙ ap pos (omega arith);
}

-- The test of the source: bytes are left in the buffer exactly when some are ahead.
pub at_end-cons : (b : TcpBuffer) (c : ℕ) (cs : Bytes) → Buffered b (c ∷ cs) → at_end b ≡ false
at_end-cons b c cs h = rw h.dim_is (ground arith)

pub at_end-nil : (b : TcpBuffer) → Buffered b [] → at_end b ≡ true
at_end-nil b h = rw h.dim_is (ground arith)

-- What is received begins with the next byte of the stream.
pub got-cons :
    (got later : Bytes) {c : ℕ} {rest : Bytes}
    → got ≢ []
    → c ∷ rest ≡ got ++ later
    → (gs : Bytes) × (got ≡ c ∷ gs) × (gs ++ later ≡ rest)
got-cons [] later ne e = absurd (ne refl)
got-cons (g ∷ gs) later ne e = (gs, ground arith, ground arith)

module _ {S : Type 0} (w : World S) (unread : S → Bytes) (stream : IsStream w unread) where
  reload :
      (b : TcpBuffer) (s : S) (c : ℕ) (rest : Bytes)
      → at_end b ≡ true
      → unread s ≡ c ∷ rest
      → Delivers unread w.tcp_receive s b.buffer
      → Reads unread (tcp_getchar_bs w b) s c rest
  unfolding tcp_getchar_bs
  reload b s c rest empty more d =
      let (gs, got_is, left) = got-cons d.got (unread d.after) d.got_some (sym more ∙ d.taken) in
      record {
        buffer = record { dim = pos (length d.got); i = 1; buffer = d.got ++ d.tail };
        after = d.after;
        result =
            rw empty (bind-done (w.tcp_receive b.buffer) (reloaded w b) d.result ∙ rw got_is refl);
        pending = record {
          ahead = gs;
          buffered = Buffered-reload d.got c gs d.tail got_is;
          stream_is = left;
        };
      }

  held :
      (b : TcpBuffer) (s : S) (c : ℕ) (d : ℕ) (cs : Bytes)
      → c ≢ 0
      → Buffered b (d ∷ cs)
      → d ≡ c
      → tcp_getchar_bs w b s ≡ done (c, record b { i = b.i + 1 }) s
  unfolding tcp_getchar_bs
  held b s c d cs ne h e =
      let here = get_or-drop b.buffer b.i 0 d h.split in
      rw (at_end-cons b d cs h, here, e) (ground arith)

  -- The next byte of the stream is returned, unless it is NUL.
  pub tcp_getchar_bs-Reads :
      (b : TcpBuffer) (s : S) (c : ℕ) (rest : Bytes)
      → c ≢ 0
      → Pending unread b s (c ∷ rest)
      → Reads unread (tcp_getchar_bs w b) s c rest
  unfolding tcp_getchar_bs
  tcp_getchar_bs-Reads b s c rest ne p = by_ahead p.ahead p.buffered p.stream_is
    where
      by_ahead :
          (ahead : Bytes)
          → Buffered b ahead
          → ahead ++ unread s ≡ c ∷ rest
          → Reads unread (tcp_getchar_bs w b) s c rest
      by_ahead [] h e =
          reload b s c rest (at_end-nil b h) e (stream.text s b.buffer (λ none_left. cc))
      by_ahead (d ∷ cs) h e = record {
        buffer = record b { i = b.i + 1 };
        after = s;
        result = held b s c d cs ne h (ground arith);
        pending = record {
          ahead = cs;
          buffered = Buffered-step b d cs h;
          stream_is = ground arith;
        };
      }
