-- ===== src/Common/Compression.antt =====
-- app/common/compression_lib.c: whole files to and from compressed buffers.
use study_and_development_of.Base.{
  ℕ, suc, ◌-◌, ◌^◌, ◌%◌, ℤ, pos, negsuc, is_neg, Bytes, [], ◌&&◌, not, Option, none, some, length,
  take, ltb, leb, ◌==◌, if◌then◌else◌,
}
use study_and_development_of.World.{Prog, overflow, ◌>>=◌, pure, World}

-- The conversion of a `long` to `size_t`.
abbrev pub to_size : ℤ → ℕ
to_size (pos n) = n % 2 ^ 64
to_size (negsuc n) = 2 ^ 64 - suc (n % 2 ^ 64)

-- The conversion of a `long` to `int`.
abbrev pub low_int : ℕ → ℤ
low_int n = if ltb n (2 ^ 31) then pos n else negsuc (2 ^ 32 - suc n)

abbrev pub to_int : ℤ → ℤ
to_int (pos n) = low_int (n % 2 ^ 32)
to_int (negsuc n) = low_int (2 ^ 32 - suc (n % 2 ^ 32))

-- What compressor leaves in its value and its three output parameters.
pub record Compressed : Type 0 where
  pub ret : ℤ
  pub in_len : ℤ
  pub out : Bytes
  pub out_len : ℕ

module _ {S : Type 0} (w : World S) where
  -- The file has been opened, or not.
  abbrev pub read_opened : Bytes → S → Option Bytes → ℤ × Bytes
  read_opened filename s none = (negsuc 0, [])
  read_opened filename s (some contents) =
      let len = length contents in
      if not (w.malloc len s)
      then (negsuc 1, [])
      else if not (len == 0) && not (w.fread filename s)
      then (negsuc 2, [])
      else (pos len, contents)

  -- The bytes are those of `*buf`.
  unfoldable pub copy_file_in_buffer : Bytes → S → ℤ × Bytes
  copy_file_in_buffer filename s = read_opened filename s (w.fopen_read filename s)

  -- compress has filled a buffer of `bound` bytes, or failed.
  abbrev pub compressed : Compressed → ℤ → ℕ → Option Bytes → Compressed
  compressed old len bound none = record old { ret = negsuc 2; in_len = len; out_len = bound }
  compressed old len bound (some out) = record {
    ret = pos 0;
    in_len = len;
    out = out;
    out_len = length out;
  }

  -- `old` holds what the output parameters hold at the call.
  unfoldable pub compress_copy : Compressed → ℤ × Bytes → S → Compressed
  compress_copy old (len, input) s =
      let bound = w.compress_bound (length input) in
      if is_neg len
      then record old { ret = negsuc 0; in_len = len }
      else if not (w.malloc bound s)
      then record old { ret = negsuc 1; in_len = len; out_len = bound; out = [] }
      else compressed old len bound (w.compress bound input)

  unfoldable pub compressor : Compressed → Bytes → S → Compressed
  unfolding copy_file_in_buffer compress_copy
  compressor old filename s = compress_copy old (copy_file_in_buffer filename s) s

  -- From the opened file on. The length is passed as an `int`: a negative one is the size of a read
  -- far behind the buffer, and fwrite is called only if it is not 0.
  unfoldable pub write_opened : Bytes → Bytes → Prog S ℤ
  write_opened filename buf =
      let len = length buf % 2 ^ 32 in
      if leb (2 ^ 31) len
      then (λ _. overflow)
      else if len == 0
      then pure (pos 0)
      else (w.fwrite filename (take len buf) >>= λ written.
          pure (if written then pos 0 else negsuc 1))

  unfoldable pub copy_buffer_in_file : Bytes → Bytes → Prog S ℤ
  unfolding write_opened
  copy_buffer_in_file filename buf = w.fopen_write filename >>= λ opened.
      if opened then write_opened filename buf else pure (negsuc 0)

  -- uncompress has given the output, or failed.
  unfoldable pub store_output : Bytes → ℤ → Option Bytes → Prog S (ℤ × ℤ)
  unfolding copy_buffer_in_file
  store_output filename out_len none = pure (negsuc 1, out_len)
  store_output filename out_len (some out) = copy_buffer_in_file filename out >>= λ ret.
      pure (if is_neg ret then negsuc 2 else pos 0, pos (length out))

  -- The value, and `*out_len` afterwards.
  unfoldable pub decompressor : Bytes → Bytes → ℤ → Prog S (ℤ × ℤ)
  unfolding store_output
  decompressor filename input out_len s =
      if not (w.malloc (to_size out_len) s)
      then pure (negsuc 0, out_len) s
      else store_output filename out_len (w.uncompress (to_size out_len) input) s
