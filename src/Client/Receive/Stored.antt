-- ===== src/Client/Receive/Stored.antt =====
-- A file that arrives whole is stored whole.
use study_and_development_of.Base.{
  ℕ, suc, ◌<◌, ◌%◌, ◌^◌, ◌≡◌, ◌∙◌, [], ◌∷◌, ◌++◌, Bytes, ℤ, pos, length, arith, true, false, Option,
  some, take-length_le, leb, ◌==◌, codes, c_str, starts_with, Bool,
}
use study_and_development_of.World.{done, World, bind-done}
use study_and_development_of.Common.TcpBuffer.{TcpBuffer, tcp_readline}
use study_and_development_of.Common.Compression.{
  to_size, decompressor, copy_buffer_in_file, write_opened,
}
use study_and_development_of.Common.Stream.{IsStream, Pending}
use study_and_development_of.Common.Stream.Lines.{tcp_readline-line}
use study_and_development_of.Client.Receive.{
  receive_bytes, decompress_received, receive_and_decompress,
}
use study_and_development_of.Common.Stream.Reads.{tcp_readline-Keeps}
use study_and_development_of.Wire.Frame.{Untouched, unwritten, receive_bytes-Keeps}
use study_and_development_of.Client.Receive.Payload.{receive_bytes-payload}

-- What the program relies on in the file system when writing goes well: the file then holds the
-- bytes, and the socket is not touched. `file` says what a path holds, and `can_write` that a file of
-- that name can be opened for writing, which reading, sending and writing do not change.
pub record StoresFiles {S : Type 0} (w : World S) (unread : S → Bytes)
    (file : S → Bytes → Option Bytes) : Type 0 where
  pub opened : Bytes → S → S
  pub written : Bytes → Bytes → S → S
  pub can_write : S → Bytes → Bool
  pub room : (name : Bytes) → Untouched w (λ s. can_write s name ≡ true) []
  pub open_lem :
      (name : Bytes) (s : S)
      → can_write s name ≡ true
      → w.fopen_write name s ≡ done true (opened name s)
  pub write_lem :
      (name bytes : Bytes) (s : S) → w.fwrite name bytes s ≡ done true (written name bytes s)
  pub file-opened : (name : Bytes) (s : S) → file (opened name s) name ≡ some []
  pub file-written :
      (name bytes : Bytes) (s : S)
      → file s name ≡ some []
      → file (written name bytes s) name ≡ some bytes
  pub unread-opened : (name : Bytes) (s : S) → unread (opened name s) ≡ unread s
  pub unread-written : (name bytes : Bytes) (s : S) → unread (written name bytes s) ≡ unread s

module _ {S : Type 0} (w : World S) (unread : S → Bytes) (file : S → Bytes → Option Bytes)
    (files : StoresFiles w unread file) where
  write_opened-nonempty :
      (name : Bytes) (c : ℕ) (cs : Bytes) (s : S)
      → length (c ∷ cs) < 2 ^ 31
      → write_opened w name (c ∷ cs) s ≡ done (pos 0) (files.written name (c ∷ cs) s)
  unfolding write_opened
  write_opened-nonempty name c cs s small = rw (in_int (length cs) small) (
      rw (positive (length cs) small, nonzero (length cs))
        (rw (take-length_le (c ∷ cs) (length (c ∷ cs)) (omega arith))
          (bind-done (w.fwrite name (c ∷ cs)) _ (files.write_lem name (c ∷ cs) s))))
    where
      in_int : (n : ℕ) → suc n < 2 ^ 31 → suc n % 2 ^ 32 ≡ suc n
      in_int n h = omega arith

      positive : (n : ℕ) → suc n < 2 ^ 31 → leb (2 ^ 31) (suc n) ≡ false
      positive n h = ground arith

      nonzero : (n : ℕ) → (suc n == 0) ≡ false
      nonzero n = ground arith

  -- CopyBufferInFile succeeds, and the file holds the bytes.
  pub copy_buffer_in_file-stored :
      (name bytes : Bytes) (s : S)
      → length bytes < 2 ^ 31
      → files.can_write s name ≡ true
      → (t : S) × (copy_buffer_in_file w name bytes s ≡ done (pos 0) t)
        × (file t name ≡ some bytes)
        × (unread t ≡ unread s)
  unfolding copy_buffer_in_file write_opened
  copy_buffer_in_file-stored name [] s small room = (
    files.opened name s,
    bind-done (w.fopen_write name) _ (files.open_lem name s room),
    files.file-opened name s,
    files.unread-opened name s,
  )
  copy_buffer_in_file-stored name (c ∷ cs) s small room =
      let t = files.opened name s in
      (
        files.written name (c ∷ cs) t,
        bind-done (w.fopen_write name) _ (files.open_lem name s room)
            ∙ write_opened-nonempty name c cs t small,
        files.file-written name (c ∷ cs) t (files.file-opened name s),
        files.unread-written name (c ∷ cs) t ∙ files.unread-opened name s,
      )

  pub decompressor-stored :
      (name payload contents : Bytes) (orig_len : ℤ) (s : S)
      → w.malloc (to_size orig_len) s ≡ true
      → w.uncompress (to_size orig_len) payload ≡ some contents
      → length contents < 2 ^ 31
      → files.can_write s name ≡ true
      → (t : S) × (decompressor w name payload orig_len s ≡ done (pos 0, pos (length contents)) t)
        × (file t name ≡ some contents)
        × (unread t ≡ unread s)
  unfolding decompressor
  decompressor-stored name payload contents orig_len s memory valid small room =
      let (t, e, stored, kept) = copy_buffer_in_file-stored name contents s small room in
      (t, rw (memory, valid) (bind-done (copy_buffer_in_file w name contents) _ e), stored, kept)

  -- The end of the transfer has been read as "END", and the output is stored.
  decompress_received-end :
      (payload name array : Bytes) (orig_len len : ℤ) (b : TcpBuffer) (s t : S)
      → c_str array ≡ codes "END"
      → decompressor w name payload orig_len s ≡ done (pos 0, len) t
      → decompress_received w name payload orig_len (pos 3, b, array) s ≡ done (pos 0, len, b) t
  unfolding starts_with
  decompress_received-end payload name array orig_len len b s t holds e =
      rw holds (bind-done (decompressor w name payload orig_len) _ e)

  -- If memory is given, the file can be opened for writing, which receiving does not change, and
  -- is then written, the connection delivers a compressed file and the line END, and neither the
  -- compressed nor the original file reaches 2^31 bytes, ReceiveAndDecompress returns 0, the file
  -- of that name holds the uncompressed bytes, the original length is their number, and the
  -- connection goes on behind the line.
  pub receive_and_decompress-stored :
      IsStream w unread
      → (payload rest contents rec name : Bytes) (b : TcpBuffer) (s : S) (orig_len : ℤ)
      → ((n : ℕ) (u : S) → w.malloc n u ≡ true)
      → w.uncompress (to_size orig_len) payload ≡ some contents
      → length contents < 2 ^ 31
      → length payload < 2 ^ 31
      → 3 < length rec
      → files.can_write s name ≡ true
      → Pending unread b s (payload ++ (codes "END" ++ b'\n' ∷ rest))
      → (b' : TcpBuffer) × (t : S) × (receive_and_decompress w rec b name
            (pos (length payload))
            orig_len
            s
          ≡ done (pos 0, pos (length contents), b') t)
        × (file t name ≡ some contents)
        × Pending unread b' t rest
  unfolding receive_and_decompress
  receive_and_decompress-stored stream payload rest contents rec name b s orig_len memory valid
        small counted fits room p =
      let (b1, s1, got, p1) =
        receive_bytes-payload w unread stream payload (codes "END" ++ b'\n' ∷ rest) b s p in
      let (b2, array, s2, read, holds, size, p2) =
        tcp_readline-line w unread stream (codes "END") rest b1 rec s1 (omega arith) fits p1 in
      let (t, stored, has, kept) =
        decompressor-stored name payload contents orig_len s2 (memory (to_size orig_len) s2) valid
          small
          ((tcp_readline-Keeps w (λ v. files.can_write v name ≡ true) (files.room name).receive b1
              rec).keeps
            s1 _ s2
            ((receive_bytes-Keeps w (λ v. files.can_write v name ≡ true) []
                (unwritten (files.room name)) (length payload) b).keeps
              s _ s1 room got)
            read) in
      (
        b2,
        t,
        rw (memory (to_size (pos (length payload))) s) (
            bind-done (receive_bytes w (length payload) b) _ got
            ∙ bind-done (tcp_readline w b1 rec) _ read
            ∙ decompress_received-end payload name array orig_len (pos (length contents)) b2 s2 t
                holds stored),
        has,
        record { ahead = p2.ahead; buffered = p2.buffered; stream_is = rw kept p2.stream_is },
      )
