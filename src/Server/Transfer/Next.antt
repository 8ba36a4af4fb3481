-- ===== src/Server/Transfer/Next.antt =====
-- SendNext from the next file to the wire.
use study_and_development_of.Base.{
  ◌+◌, ◌≤◌, ◌<◌, ◌≡◌, refl, ◌∙◌, ℤ, pos, is_neg, is_negsuc, Bytes, ◌∷◌, ◌++◌, length, length-append,
  false, arith,
}
use study_and_development_of.Libc.Format.{fmt_d, snprintf, snprintf-fits}
use study_and_development_of.World.{done, World, bind-done}
use study_and_development_of.Common.Info.{TrInfo}
use study_and_development_of.Server.Logger.{proc_number}
use study_and_development_of.Server.Scan.{max_path_len, find_next_tr}
use study_and_development_of.Server.Transfer.{
  bufsiz, sending, sending_text, data_file, decide_next, compress_and_send, send_decided, send_next,
}
use study_and_development_of.Server.Transfer.Emits.{
  with_sizes, transfer, SendsAll, Compresses, compress_and_send-transfer,
}

text-le-with_sizes : (text : Bytes) (a b : ℤ) → length text ≤ length (with_sizes text a b)
text-le-with_sizes text a b = omega (arith, length-append text (32 ∷ (fmt_d a ++ (32 ∷ fmt_d b))))

module _ {S : Type 0} (w : World S) where
  -- Nothing is wrong, and the decision is to be made.
  pub send_next-decides :
      (tr0 tr : TrInfo) (logger_name dir : Bytes) (ret n : ℤ) (s u : S)
      → find_next_tr w tr0 dir s ≡ (ret, tr)
      → is_negsuc ret 0 ≡ false
      → is_negsuc ret 1 ≡ false
      → proc_number w logger_name s ≡ done n u
      → is_neg n ≡ false
      → send_next w tr0 logger_name dir s ≡ send_decided w dir tr (decide_next n tr) u
  unfolding send_next
  send_next-decides tr0 tr logger_name dir ret n s u found ok ok2 counted known =
      rw (found, ok, ok2) (bind-done (proc_number w logger_name) _ counted ∙ rw known refl)

  module _ (sent : S → Bytes) (net : SendsAll w sent) where
    pub send_next-transfer :
        (tr0 tr : TrInfo) (logger_name dir contents out : Bytes) (ret n : ℤ) (s u : S)
        → find_next_tr w tr0 dir s ≡ (ret, tr)
        → is_negsuc ret 0 ≡ false
        → is_negsuc ret 1 ≡ false
        → proc_number w logger_name s ≡ done n u
        → is_neg n ≡ false
        → decide_next n tr ≡ sending
        → Compresses w
            (snprintf max_path_len (data_file dir tr.d.first tr.d.logger_n tr.f.first))
            contents
            out
            u
        → length (with_sizes (sending_text tr) (pos (length contents)) (pos (length out))) < bufsiz
        → (t : S) × (send_next w tr0 logger_name dir s ≡ done (pos 0) t)
          × (sent t ≡ sent u ++ transfer (sending_text tr) (length contents) out)
    unfolding send_decided
    send_next-transfer tr0 tr logger_name dir contents out ret n s u found ok ok2 counted known send
          readable fits =
        let path = snprintf max_path_len (data_file dir tr.d.first tr.d.logger_n tr.f.first) in
        let (t, run, went) =
          compress_and_send-transfer w sent net path (sending_text tr) contents out u readable
            fits in
        (
          t,
          send_next-decides tr0 tr logger_name dir ret n s u found ok ok2 counted known
              ∙ rw send (
                  rw
                    (snprintf-fits (bufsiz + 1) (sending_text tr) (
                      omega (
                        arith,
                        text-le-with_sizes (sending_text tr) (pos (length contents))
                            (pos (length out)),
                      )))
                    (bind-done (compress_and_send w path (sending_text tr)) _ run)),
          went,
        )
