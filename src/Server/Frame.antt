-- ===== src/Server/Frame.antt =====
-- What the handlers leave as it is, if sending and counting processes do.
use study_and_development_of.Base.{ℤ, pos, negsuc, is_neg, is_negsuc, Bytes, codes, if◌then◌else◌}
use study_and_development_of.World.{World, gets}
use study_and_development_of.World.Keeps.{Keeps, pure-Keeps, gets-Keeps, bind-Keeps, if-Keeps}
use study_and_development_of.Common.Info.{TrInfo}
use study_and_development_of.Common.Compression.{Compressed, compressor}
use study_and_development_of.Server.Logger.{line_count, proc_number, reply}
use study_and_development_of.Server.Scan.{find_next_tr}
use study_and_development_of.Server.Transfer.{
  Decision, no_tr, sending, wait, empty, not_compressed, decide_next, send_compressed,
  compress_and_send, send_decided, send_next,
}

-- The calls of SendNext that change the environment.
pub record Quiet {S : Type 0} (w : World S) (P : S → Type 0) : Type 0 where
  pub send : (m : Bytes) → Keeps P (w.tcp_send m)
  pub binary_send : (m : Bytes) (n : ℤ) → Keeps P (w.tcp_binary_send m n)
  pub popen : (cmd : Bytes) → Keeps P (w.popen cmd)

module _ {S : Type 0} (w : World S) (P : S → Type 0) (h : Quiet w P) where
  pub reply-Keeps : (m : Bytes) (ret : ℤ) → Keeps P (reply w m ret)
  reply-Keeps m ret = bind-Keeps P (w.tcp_send m) _ (h.send m) λ _. pure-Keeps P ret

  pub proc_number-Keeps : (name : Bytes) → Keeps P (proc_number w name)
  unfolding proc_number
  proc_number-Keeps name = bind-Keeps P _ _ (h.popen _) λ res. pure-Keeps P (line_count w res)

  send_compressed-Keeps : (buf : Bytes) (c : Compressed) → Keeps P (send_compressed w buf c)
  unfolding send_compressed
  send_compressed-Keeps buf c = if-Keeps P (is_neg c.ret) _ _ (reply-Keeps _ (negsuc 0)) (
      bind-Keeps P _ _ (h.send _)
        λ _. bind-Keeps P _ _ (h.binary_send c.out _) λ _. reply-Keeps _ (pos 0))

  pub compress_and_send-Keeps : (path buf : Bytes) → Keeps P (compress_and_send w path buf)
  unfolding compress_and_send
  compress_and_send-Keeps path buf =
      bind-Keeps P (gets (compressor w not_compressed path)) (send_compressed w buf)
        (gets-Keeps P (compressor w not_compressed path)) (send_compressed-Keeps buf)

  send_decided-Keeps :
      (dir : Bytes) (tr : TrInfo) (d : Decision) → Keeps P (send_decided w dir tr d)
  unfolding send_decided
  send_decided-Keeps dir tr no_tr = reply-Keeps (codes "NO_TR\n") (pos 0)
  send_decided-Keeps dir tr sending =
      bind-Keeps P (compress_and_send w _ _) _ (compress_and_send-Keeps _ _)
        λ ret. pure-Keeps P (if is_neg ret then negsuc 0 else pos 0)
  send_decided-Keeps dir tr wait = reply-Keeps (codes "WAIT\n") (pos 0)
  send_decided-Keeps dir tr empty = reply-Keeps _ (pos 0)

  pub send_next-Keeps : (tr0 : TrInfo) (name dir : Bytes) → Keeps P (send_next w tr0 name dir)
  unfolding send_next
  send_next-Keeps tr0 name dir =
      bind-Keeps P (gets (find_next_tr w tr0 dir)) _ (gets-Keeps P (find_next_tr w tr0 dir))
        λ (ret, tr).
          if-Keeps P (is_negsuc ret 0) _ _
            (reply-Keeps (codes "ERROR FINDING NEXT DIR\n") (negsuc 0))
            (if-Keeps P (is_negsuc ret 1) _ _
              (reply-Keeps (codes "ERROR FINDING NEXT FILE\n") (negsuc 0))
              (bind-Keeps P (proc_number w name) _ (proc_number-Keeps name) λ n.
                if-Keeps P (is_neg n) _ _
                  (reply-Keeps (codes "ERROR FINDING ACTIVE PROCESSES\n") (negsuc 0))
                  (send_decided-Keeps dir tr (decide_next n tr))))
