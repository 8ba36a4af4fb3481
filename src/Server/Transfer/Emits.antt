-- ===== src/Server/Transfer/Emits.antt =====
-- What CompressAndSend puts on the connection.
use study_and_development_of.Base.{
  ℕ, ◌^◌, ◌+◌, ◌<◌, ◌≡◌, refl, ◌∙◌, ap, ℤ, pos, [], ◌∷◌, ◌++◌, append_assoc, Bytes, codes, length,
  length-append, true, arith, some,
}
use study_and_development_of.Libc.Format.{fmt_d, snprintf, snprintf-fits}
use study_and_development_of.World.{done, World, bind-done}
use study_and_development_of.Common.Compression.{
  to_int, Compressed, compressor, copy_file_in_buffer, compress_copy,
}
use study_and_development_of.Server.Transfer.{bufsiz, not_compressed, size_line, compress_and_send}

-- The line of CompressAndSend without its newline, as tcp_readline stores it.
abbrev pub with_sizes : Bytes → ℤ → ℤ → Bytes
with_sizes text source_len comp_len = text ++ (32 ∷ (fmt_d source_len ++ (32 ∷ fmt_d comp_len)))

-- A transfer on the connection: the line, the compressed bytes, and the line that ends it.
abbrev pub transfer : Bytes → ℕ → Bytes → Bytes
transfer text source_len out =
    with_sizes text (pos source_len) (pos (length out)) ++ b'\n' ∷ (out ++ codes "END\n")

-- What the server relies on in a connection that works: every byte goes out, in order. `sent` is what
-- has gone out so far.
pub record SendsAll {S : Type 0} (w : World S) (sent : S → Bytes) : Type 0 where
  pub after : Bytes → S → S
  pub text : (m : Bytes) (s : S) → w.tcp_send m s ≡ done (pos 1) (after m s)
  pub binary :
      (m : Bytes) (s : S) → w.tcp_binary_send m (pos (length m)) s ≡ done (pos 1) (after m s)
  pub sent-after : (m : Bytes) (s : S) → sent (after m s) ≡ sent s ++ m

-- The file can be read and compressed, with enough memory, to fewer bytes than 2^31.
pub record Compresses {S : Type 0} (w : World S) (path contents out : Bytes) (s : S) : Type 0 where
  pub memory : (n : ℕ) → w.malloc n s ≡ true
  pub opens : w.fopen_read path s ≡ some contents
  pub reads : w.fread path s ≡ true
  pub packs : w.compress (w.compress_bound (length contents)) contents ≡ some out
  pub small : length out < 2 ^ 31

to_int-small : (n : ℕ) → n < 2 ^ 31 → to_int (pos n) ≡ pos n
to_int-small n h = ground arith

size_line-with_sizes :
    (text : Bytes) (a b : ℤ) → size_line text a b ≡ with_sizes text a b ++ b'\n' ∷ []
unfolding size_line
size_line-with_sizes text a b = simp append_assoc

module _ {S : Type 0} (w : World S) where
  copy_file_in_buffer-reads :
      (path contents out : Bytes) (s : S)
      → Compresses w path contents out s
      → copy_file_in_buffer w path s ≡ (pos (length contents), contents)
  unfolding copy_file_in_buffer
  copy_file_in_buffer-reads path contents out s h =
      rw h.opens (rw (h.memory (length contents)) (rw h.reads (ground arith)))

  pub compressor-packs :
      (old : Compressed) (path contents out : Bytes) (s : S)
      → Compresses w path contents out s
      → compressor w old path s
        ≡ record { ret = pos 0; in_len = pos (length contents); out = out; out_len = length out }
  unfolding compressor
  compressor-packs old path contents out s h =
      ap (λ r. compress_copy w old r s) (copy_file_in_buffer-reads path contents out s h)
      ∙ rw (h.memory (w.compress_bound (length contents))) (rw h.packs refl)

module _ {S : Type 0} (w : World S) (sent : S → Bytes) (net : SendsAll w sent) where
  text_sent :
      (text : Bytes) (a b : ℤ) (s : S)
      → length (with_sizes text a b) < bufsiz
      → w.tcp_send (snprintf (bufsiz + 1) (size_line text a b)) s
        ≡ done (pos 1) (net.after (with_sizes text a b ++ b'\n' ∷ []) s)
  text_sent text a b s h =
      let line = with_sizes text a b in
      rw size_line-with_sizes (
        rw
          (snprintf-fits (bufsiz + 1) (line ++ b'\n' ∷ [])
            (omega (arith, length-append line (b'\n' ∷ []))))
          (net.text (line ++ b'\n' ∷ []) s))

  -- If every send succeeds, the file can be read and compressed to fewer than 2^31 bytes, as
  -- tcp_binary_send takes their number as an int, and its line with both sizes is shorter than
  -- BUFSIZ, CompressAndSend returns 0, and what goes out is that line, the compressed bytes and
  -- the line END.
  pub compress_and_send-transfer :
      (path text contents out : Bytes) (s : S)
      → Compresses w path contents out s
      → length (with_sizes text (pos (length contents)) (pos (length out))) < bufsiz
      → (t : S) × (compress_and_send w path text s ≡ done (pos 0) t)
        × (sent t ≡ sent s ++ transfer text (length contents) out)
  unfolding compress_and_send
  compress_and_send-transfer path text contents out s h fits =
      let line = with_sizes text (pos (length contents)) (pos (length out)) in
      let s1 = net.after (line ++ b'\n' ∷ []) s in
      let s2 = net.after out s1 in
      let s3 = net.after (codes "END\n") s2 in
      (
        s3,
        rw (compressor-packs w not_compressed path contents out s h) (
            bind-done (w.tcp_send _) _
              (text_sent text (pos (length contents)) (pos (length out)) s fits)
            ∙ bind-done (w.tcp_binary_send out (to_int (pos (length out)))) _ (
                ap (λ n. w.tcp_binary_send out n s1) (to_int-small (length out) h.small)
                ∙ net.binary out s1)
            ∙ bind-done (w.tcp_send (codes "END\n")) _ (net.text (codes "END\n") s2)),
        net.sent-after (codes "END\n") s2
            ∙ rw (net.sent-after out s1)
                (rw (net.sent-after (line ++ b'\n' ∷ []) s) (simp append_assoc)),
      )
