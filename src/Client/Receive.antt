-- ===== src/Client/Receive.antt =====
-- Receiving a compressed file, in app/client/client_lib.c.
pub mod Payload
pub mod Stored
use study_and_development_of.Base.{
  ℕ, zero, suc, ◌+◌, ℤ, pos, negsuc, pos_part, is_pos, is_neg, is_negsuc, Bytes, [], ◌∷◌, codes,
  starts_with, c_str, get_or, Bool, not, ◌||◌, ◌&&◌, ltb, if◌then◌else◌,
}
use study_and_development_of.World.{Prog, overflow, ◌>>=◌, pure, World}
use study_and_development_of.Common.TcpBuffer.{TcpBuffer, at_end, is_eof, tcp_readline}
use study_and_development_of.Common.Compression.{to_size, decompressor}
use study_and_development_of.Client.Exchange.{exit_transmission_thread}

module _ {S : Type 0} (w : World S) where
  unfoldable pub binary_reloaded : ℤ × Bytes → Prog S (ℕ × TcpBuffer)
  binary_reloaded (dim, array) =
      if is_eof dim
      then exit_transmission_thread w (negsuc 1)
      else pure (get_or array 0 0, record { dim = dim; i = 1; buffer = array })

  unfoldable pub tcp_binary_getchar_bs : TcpBuffer → Prog S (ℕ × TcpBuffer)
  unfolding binary_reloaded
  tcp_binary_getchar_bs b =
      if at_end b
      then w.tcp_binary_receive b.buffer >>= binary_reloaded
      else pure (get_or b.buffer b.i 0, record b { i = b.i + 1 })

  -- for (i = 0; i < rec_len; i++) rec_buffer[i] = ...
  unfoldable pub receive_bytes : ℕ → TcpBuffer → Prog S (Bytes × TcpBuffer)
  unfolding tcp_binary_getchar_bs
  receive_bytes zero b = pure ([], b)
  receive_bytes (suc n) b = tcp_binary_getchar_bs b >>= λ (ch, b').
      receive_bytes n b' >>= λ (rest, b''). pure (ch ∷ rest, b'')

  -- From the line that ends the transfer on: the value, and `*orig_len` afterwards.
  abbrev pub decompress_received :
      Bytes → Bytes → ℤ → ℤ × TcpBuffer × Bytes → Prog S (ℤ × ℤ × TcpBuffer)
  decompress_received file_path received orig_len (ret, b, rec) =
      if is_negsuc ret 0 || is_pos ret 0
      then exit_transmission_thread w (negsuc 1)
      else if not (starts_with (codes "END") (c_str rec))
      then pure (negsuc 3, orig_len, b)
      else (decompressor w file_path received orig_len >>= λ (ret', len).
          pure (if is_neg ret' then ret' else pos 0, len, b))

  -- `rec` is the array that is not initialised. The result of malloc is not tested: a NULL is
  -- written through as soon as there is a byte to store.
  unfoldable pub receive_and_decompress :
      Bytes → TcpBuffer → Bytes → ℤ → ℤ → Prog S (ℤ × ℤ × TcpBuffer)
  receive_and_decompress rec b file_path rec_len orig_len s =
      if not (w.malloc (to_size rec_len) s) && ltb 0 (pos_part rec_len)
      then overflow
      else (receive_bytes (pos_part rec_len) b >>= λ (received, b').
            tcp_readline w b' rec >>= decompress_received file_path received orig_len)
          s
