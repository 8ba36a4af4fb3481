-- ===== src/Wire/Frame.antt =====
-- What reading, sending and receiving a file leave as they are.
use study_and_development_of.Base.{
  ℕ, zero, suc, ◌≢◌, ℤ, negsuc, Bytes, [], codes, c_str, starts_with, ◌||◌, ◌&&◌, not, ltb,
  pos_part, is_pos, is_negsuc, Option, none, some,
}
use study_and_development_of.World.{World}
use study_and_development_of.World.Keeps.{
  Keeps, pure-Keeps, overflow-Keeps, bind-Keeps, if-Keeps, test-Keeps, continue-done,
}
use study_and_development_of.Common.Stream.Reads.{tcp_readline-Keeps}
use study_and_development_of.Common.TcpBuffer.{TcpBuffer, tcp_readline}
use study_and_development_of.Common.Compression.{
  write_opened, copy_buffer_in_file, store_output, decompressor, to_size,
}
use study_and_development_of.Client.Exchange.{
  exit_transmission_thread, check_reply, tcp_send_receive_tt,
}
use study_and_development_of.Client.Receive.{
  binary_reloaded, tcp_binary_getchar_bs, receive_bytes, decompress_received,
  receive_and_decompress,
}

-- The calls that receive and write, to other names only.
pub record Unwritten {S : Type 0} (w : World S) (P : S → Type 0) (name : Bytes) : Type 0 where
  pub receive : (array : Bytes) → Keeps P (w.tcp_receive array)
  pub binary_receive : (array : Bytes) → Keeps P (w.tcp_binary_receive array)
  pub opens : (other : Bytes) → other ≢ name → Keeps P (w.fopen_write other)
  pub writes : (other bytes : Bytes) → other ≢ name → Keeps P (w.fwrite other bytes)

-- The same, and sending.
pub record Untouched {S : Type 0} (w : World S) (P : S → Type 0) (name : Bytes) : Type 0 where
  pub send : (m : Bytes) → Keeps P (w.tcp_send m)
  pub receive : (array : Bytes) → Keeps P (w.tcp_receive array)
  pub binary_receive : (array : Bytes) → Keeps P (w.tcp_binary_receive array)
  pub opens : (other : Bytes) → other ≢ name → Keeps P (w.fopen_write other)
  pub writes : (other bytes : Bytes) → other ≢ name → Keeps P (w.fwrite other bytes)

-- What no call of these kinds changes is as before.
abbrev pub Unmoved : {S : Type 0} → World S → S → S → Type 1
Unmoved {S} w s u = (P : S → Type 0) → Untouched w P [] → P s → P u

pub unwritten :
    {S : Type 0} {w : World S} {P : S → Type 0} {name : Bytes}
    → Untouched w P name
    → Unwritten w P name
unwritten h = record {
  receive = h.receive;
  binary_receive = h.binary_receive;
  opens = h.opens;
  writes = h.writes;
}

module _ {S : Type 0} (w : World S) (P : S → Type 0) where
  -- It does not return.
  pub exit_transmission_thread-Keeps :
      {A : Type 0} (code : ℤ) → Keeps P (exit_transmission_thread w {A = A} code)
  unfolding exit_transmission_thread
  exit_transmission_thread-Keeps code = record {
    keeps = λ s b u p e.
        let (a, v, sent, left) = continue-done _ (w.tcp_send (codes "CLOSE\n") s) e in cc;
  }

  pub check_reply-Keeps : (r : ℤ × TcpBuffer × Bytes) → Keeps P (check_reply w r)
  check_reply-Keeps (ret, b, rec) =
      if-Keeps P (is_negsuc ret 0 || is_pos ret 0) _ _ (exit_transmission_thread-Keeps (negsuc 1)) (
        if-Keeps P (starts_with (codes "ERROR") (c_str rec)) _ _
          (exit_transmission_thread-Keeps (negsuc 0)) (pure-Keeps P (b, rec)))

module _ {S : Type 0} (w : World S) (P : S → Type 0) (name : Bytes) (h : Untouched w P name) where
  pub tcp_send_receive_tt-Keeps :
      (b : TcpBuffer) (send rec : Bytes) → Keeps P (tcp_send_receive_tt w b send rec)
  unfolding tcp_send_receive_tt
  tcp_send_receive_tt-Keeps b send rec = bind-Keeps P _ _ (h.send send) λ sent.
      if-Keeps P _ _ _ (exit_transmission_thread-Keeps w P _)
        (bind-Keeps P _ _ (tcp_readline-Keeps w P h.receive b rec) (check_reply-Keeps w P))

module _ {S : Type 0} (w : World S) (P : S → Type 0) (name : Bytes) (h : Unwritten w P name) where
  binary_reloaded-Keeps : (r : ℤ × Bytes) → Keeps P (binary_reloaded w r)
  unfolding binary_reloaded
  binary_reloaded-Keeps (dim, array) =
      if-Keeps P _ _ _ (exit_transmission_thread-Keeps w P _) (pure-Keeps P _)

  tcp_binary_getchar_bs-Keeps : (b : TcpBuffer) → Keeps P (tcp_binary_getchar_bs w b)
  unfolding tcp_binary_getchar_bs
  tcp_binary_getchar_bs-Keeps b =
      if-Keeps P _ _ _ (bind-Keeps P _ _ (h.binary_receive b.buffer) binary_reloaded-Keeps)
        (pure-Keeps P _)

  pub receive_bytes-Keeps : (n : ℕ) (b : TcpBuffer) → Keeps P (receive_bytes w n b)
  unfolding receive_bytes
  receive_bytes-Keeps zero b = pure-Keeps P _
  receive_bytes-Keeps (suc n) b =
      bind-Keeps P _ _ (tcp_binary_getchar_bs-Keeps b)
        λ (ch, b'). bind-Keeps P _ _ (receive_bytes-Keeps n b') λ _. pure-Keeps P _

  module _ (other : Bytes) (differs : other ≢ name) where
    write_opened-Keeps : (bytes : Bytes) → Keeps P (write_opened w other bytes)
    unfolding write_opened
    write_opened-Keeps bytes = if-Keeps P _ _ _ (overflow-Keeps P) (
        if-Keeps P _ _ _ (pure-Keeps P _)
          (bind-Keeps P _ _ (h.writes other _ differs) λ _. pure-Keeps P _))

    copy_buffer_in_file-Keeps : (bytes : Bytes) → Keeps P (copy_buffer_in_file w other bytes)
    unfolding copy_buffer_in_file
    copy_buffer_in_file-Keeps bytes =
        bind-Keeps P _ _ (h.opens other differs)
          λ opened. if-Keeps P _ _ _ (write_opened-Keeps bytes) (pure-Keeps P _)

    store_output-Keeps : (len : ℤ) (o : Option Bytes) → Keeps P (store_output w other len o)
    unfolding store_output
    store_output-Keeps len none = pure-Keeps P _
    store_output-Keeps len (some out) =
        bind-Keeps P _ _ (copy_buffer_in_file-Keeps out) λ _. pure-Keeps P _

    decompressor-Keeps : (input : Bytes) (len : ℤ) → Keeps P (decompressor w other input len)
    unfolding decompressor
    decompressor-Keeps input len =
        test-Keeps P (λ s. not (w.malloc (to_size len) s)) _ _ (pure-Keeps P _)
          (store_output-Keeps len _)

    decompress_received-Keeps :
        (received : Bytes) (len : ℤ) (r : ℤ × TcpBuffer × Bytes)
        → Keeps P (decompress_received w other received len r)
    decompress_received-Keeps received len (ret, b, rec) =
        if-Keeps P (is_negsuc ret 0 || is_pos ret 0) _ _
          (exit_transmission_thread-Keeps w P (negsuc 1))
          (if-Keeps P (not (starts_with (codes "END") (c_str rec))) _ _
            (pure-Keeps P (negsuc 3, len, b))
            (bind-Keeps P (decompressor w other received len) _ (decompressor-Keeps received len)
              λ _. pure-Keeps P _))

    pub receive_and_decompress-Keeps :
        (rec : Bytes) (b : TcpBuffer) (rec_len orig_len : ℤ)
        → Keeps P (receive_and_decompress w rec b other rec_len orig_len)
    unfolding receive_and_decompress
    receive_and_decompress-Keeps rec b rec_len orig_len =
        test-Keeps P (λ s. not (w.malloc (to_size rec_len) s) && ltb 0 (pos_part rec_len)) _ _
          (overflow-Keeps P)
          (bind-Keeps P (receive_bytes w (pos_part rec_len) b) _
            (receive_bytes-Keeps (pos_part rec_len) b)
            λ (received, b').
              bind-Keeps P (tcp_readline w b' rec) _ (tcp_readline-Keeps w P h.receive b' rec)
                λ r. decompress_received-Keeps received orig_len r)
