-- ===== src/Server/Transfer.antt =====
-- Sending files, in app/server/server_lib.c: SendNext, CompressAndSend and SendFile.
pub mod Emits
pub mod Choice
pub mod Next
use study_and_development_of.Base.{
  ℕ, ◌+◌, ◌/◌, ℤ, pos, negsuc, is_pos, is_neg, is_negsuc, at_least, Bytes, ◌∷◌, [], ◌++◌, codes,
  Bool, ◌&&◌, not, if◌then◌else◌,
}
use study_and_development_of.Libc.Format.{fmt_d, snprintf}
use study_and_development_of.World.{Prog, ◌>>=◌, ◌>>◌, pure, gets, World}
use study_and_development_of.Common.Compression.{to_int, Compressed, compressor}
use study_and_development_of.Server.Logger.{proc_number, reply, scan_argument}
use study_and_development_of.Common.Info.{NextFile, NextDir, TrInfo}
use study_and_development_of.Server.Scan.{max_path_len, tof_dir, find_next_tr}

abbrev pub bufsiz : ℕ
bufsiz = 8192

abbrev pub data_dir : Bytes
data_dir = codes "../../data_generation/generated_data"

-- What the variables that CompressAndSend passes to compressor hold.
abbrev pub not_compressed : Compressed
not_compressed = record { ret = pos 0; in_len = pos 0; out = []; out_len = 0 }

-- "%s %ld %ld\n"
unfoldable pub size_line : Bytes → ℤ → ℤ → Bytes
size_line buf source_len comp_len =
    buf ++ (b' ' ∷ (fmt_d source_len ++ (b' ' ∷ (fmt_d comp_len ++ (b'\n' ∷ [])))))

-- "SENDING %s %d %d %d %d"
unfoldable pub sending_text : TrInfo → Bytes
sending_text tr =
    codes "SENDING "
    ++ (tr.d.first
        ++ (b' '
            ∷ (fmt_d tr.d.logger_n
                ++ (b' '
                    ∷ (fmt_d tr.f.first
                        ++ (b' ' ∷ (fmt_d tr.f.last ++ (b' ' ∷ fmt_d tr.f.count))))))))

-- "EMPTY %s %d\n"
unfoldable pub empty_text : TrInfo → Bytes
empty_text tr = codes "EMPTY " ++ (tr.d.first ++ (b' ' ∷ (fmt_d tr.d.logger_n ++ (b'\n' ∷ []))))

-- "%s/%s/voxl-logger/log%04d/run/mpa/tof/data_%d.pcd"
unfoldable pub data_file : Bytes → Bytes → ℤ → ℤ → Bytes
data_file dir_name timestamp logger_n n =
    tof_dir dir_name timestamp logger_n ++ (codes "/data_" ++ (fmt_d n ++ codes ".pcd"))

-- What SendNext does once it knows the next directory, the next file and the state of the logger.
pub data Decision : Type 0 where
  no_tr sending wait empty : Decision

unfoldable pub decide_next : ℤ → TrInfo → Decision
decide_next logger_state tr =
    let busy = not (is_pos logger_state 0) && is_pos tr.d.count 1 in
    if is_pos tr.d.count 0
    then no_tr
    else if at_least (if busy then 2 else 1) tr.f.count
    then sending
    else if busy
    then wait
    else empty

module _ {S : Type 0} (w : World S) where
  -- The length that tcp_binary_send takes is an `int`.
  unfoldable pub send_compressed : Bytes → Compressed → Prog S ℤ
  send_compressed buf c =
      if is_neg c.ret
      then reply w (codes "ERROR compressing buffer\n") (negsuc 0)
      else (w.tcp_send (snprintf (bufsiz + 1) (size_line buf c.in_len (pos c.out_len)))
          >> (w.tcp_binary_send c.out (to_int (pos c.out_len)) >> reply w (codes "END\n") (pos 0)))

  unfoldable pub compress_and_send : Bytes → Bytes → Prog S ℤ
  unfolding send_compressed
  compress_and_send file_path buf =
      gets (compressor w not_compressed file_path) >>= send_compressed buf

  unfoldable pub send_decided : Bytes → TrInfo → Decision → Prog S ℤ
  unfolding compress_and_send
  send_decided dir_name tr no_tr = reply w (codes "NO_TR\n") (pos 0)
  send_decided dir_name tr sending =
      compress_and_send
        (snprintf max_path_len (data_file dir_name tr.d.first tr.d.logger_n tr.f.first))
        (snprintf (bufsiz + 1) (sending_text tr))
      >>= λ ret. pure (if is_neg ret then negsuc 0 else pos 0)
  send_decided dir_name tr wait = reply w (codes "WAIT\n") (pos 0)
  send_decided dir_name tr empty = reply w (snprintf (bufsiz + 1) (empty_text tr)) (pos 0)

  -- `tr0` is what the uninitialised structure holds.
  unfoldable pub send_next : TrInfo → Bytes → Bytes → Prog S ℤ
  unfolding send_decided
  send_next tr0 logger_name dir_name = gets (find_next_tr w tr0 dir_name) >>= λ (ret, tr).
      if is_negsuc ret 0
      then reply w (codes "ERROR FINDING NEXT DIR\n") (negsuc 0)
      else if is_negsuc ret 1
      then reply w (codes "ERROR FINDING NEXT FILE\n") (negsuc 0)
      else (proc_number w logger_name >>= λ logger_state.
          if is_neg logger_state
          then reply w (codes "ERROR FINDING ACTIVE PROCESSES\n") (negsuc 0)
          else send_decided dir_name tr (decide_next logger_state tr))

  unfoldable pub send_file : Bytes → Prog S ℤ
  unfolding scan_argument compress_and_send
  send_file cmd = scan_argument w (max_path_len / 2) cmd >>= λ rel_path.
      let file_path = snprintf max_path_len (data_dir ++ (b'/' ∷ rel_path)) in
      compress_and_send file_path (snprintf (bufsiz + 1) (codes "SENDING REQUESTED " ++ file_path))
      >>= λ ret. pure (if is_neg ret then negsuc 0 else pos 0)
