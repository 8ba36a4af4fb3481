-- ===== src/Common/Stream.antt =====
-- The receive buffer refines a stream of bytes: what the buffer holds, then what the socket has not
-- delivered. Reading does not depend on how the bytes are cut into packets.
pub mod Chars
pub mod Lines
pub mod Limits
pub mod Reads
use study_and_development_of.Base.{
  ℕ, suc, ◌+◌, ◌≡◌, ◌≢◌, refl, List, [], ◌∷◌, ◌++◌, Bytes, ℤ, pos, length, drop,
}
use study_and_development_of.World.{Outcome, done, Prog, World}
use study_and_development_of.Common.TcpBuffer.{init_buffer_tcp, TcpBuffer}

-- The buffer holds the bytes `ahead` that have been received and not read yet.
pub record Buffered (b : TcpBuffer) (ahead : Bytes) : Type 0 where
  pub tail : Bytes
  pub split : drop b.i b.buffer ≡ ahead ++ tail
  pub dim_is : b.dim ≡ pos (b.i + length ahead)

-- A receive that delivers: a non-empty piece `got` of the unread bytes is written to the array.
pub record Delivers {S : Type 0} (unread : S → Bytes) (receive : Bytes → Prog S (ℤ × Bytes)) (s : S)
    (array : Bytes) : Type 0 where
  pub got : Bytes
  pub tail : Bytes
  pub after : S
  pub got_some : got ≢ []
  pub taken : unread s ≡ got ++ unread after
  pub result : receive array s ≡ done (pos (length got), got ++ tail) after

-- What the program relies on in a blocking socket: while bytes are still to come, both ways of
-- receiving deliver some of them.
pub record IsStream {S : Type 0} (w : World S) (unread : S → Bytes) : Type 0 where
  pub text : (s : S) (array : Bytes) → unread s ≢ [] → Delivers unread w.tcp_receive s array
  pub binary :
      (s : S) (array : Bytes) → unread s ≢ [] → Delivers unread w.tcp_binary_receive s array

-- The bytes that the program has still to read are `stream`.
pub record Pending {S : Type 0} (unread : S → Bytes) (b : TcpBuffer) (s : S) (stream : Bytes)
    : Type 0 where
  pub ahead : Bytes
  pub buffered : Buffered b ahead
  pub stream_is : ahead ++ unread s ≡ stream

-- A buffer that has been initialised is used up: what is pending is what the connection has.
pub init_buffer_tcp-Pending :
    {S : Type 0} (unread : S → Bytes) (array stream : Bytes) (s : S)
    → unread s ≡ stream
    → Pending unread (init_buffer_tcp array) s stream
unfolding init_buffer_tcp
init_buffer_tcp-Pending unread array stream s h = record {
  ahead = [];
  buffered = record { tail = array; split = refl; dim_is = refl };
  stream_is = h;
}
