-- ===== src/Client/Request.antt =====
-- Requesting single files by name, in app/client/client_lib.c.
use study_and_development_of.Base.{
  ℕ, ℤ, pos, negsuc, is_pos, is_neg, Bytes, [], ◌∷◌, ◌++◌, codes, starts_with, c_str, Option, none,
  some, length, ltb, if◌then◌else◌,
}
use study_and_development_of.Libc.Format.{fmt_04d, snprintf}
use study_and_development_of.Libc.Scan.{scan_word, skip_word, skip_until, scan_d, assigned}
use study_and_development_of.World.{Prog, overflow, ◌>>=◌, pure, World}
use study_and_development_of.Common.Info.{NextDir}
use study_and_development_of.Common.Paths.{make_path}
use study_and_development_of.Common.TcpBuffer.{TcpBuffer}
use study_and_development_of.Client.Exchange.{tcp_send_receive_tt}
use study_and_development_of.Client.Receive.{receive_and_decompress}

abbrev pub max_path_len : ℕ
max_path_len = 256

abbrev pub max_rel_path_len : ℕ
max_rel_path_len = 128

abbrev pub max_cmd_len : ℕ
max_cmd_len = 128

-- The other of the two directories log0000 and log0001.
unfoldable pub other_data_n : ℤ → ℤ
other_data_n n = if is_pos n 0 then pos 1 else pos 0

-- "%s/voxl-logger/log%04d"
unfoldable pub local_log_dir : Bytes → ℤ → Bytes
local_log_dir dir n = dir ++ (codes "/voxl-logger/log" ++ fmt_04d n)

-- The two conversions of sscanf(buf, "%*s %*s %*s %ld %ld", &orig_len, &rec_len).
unfoldable pub scan_sizes : Bytes → Option ℤ × Option ℤ
scan_sizes buf =
    let (orig_len, s) = scan_d (skip_word (skip_word (skip_word (some buf)))) in
    (orig_len, (scan_d s).0)

-- The files that are requested at the end, in their order: data.csv and info.json of the PCD data,
-- then those of the other data.
unfoldable pub remaining_files : NextDir → Bytes × Bytes × Bytes × Bytes
unfolding local_log_dir other_data_n
remaining_files d =
    let log = local_log_dir d.first d.logger_n in
    let other = local_log_dir d.first (other_data_n d.logger_n) in
    (
      snprintf max_rel_path_len (log ++ codes "/run/mpa/tof/data.csv"),
      snprintf max_rel_path_len (log ++ codes "/info.json"),
      snprintf max_rel_path_len (other ++ codes "/run/mpa/vvpx4_body_wrt_local/data.csv"),
      snprintf max_rel_path_len (other ++ codes "/info.json"),
    )

module _ {S : Type 0} (w : World S) where
  -- sprintf into an array of `size` bytes.
  abbrev pub sprintf : ℕ → Bytes → Prog S Bytes
  sprintf size s = if ltb (length s) size then pure s else (λ _. overflow)

  -- The part of the path behind its first directory, slash included.
  abbrev pub sub_path : Bytes → Prog S Bytes
  sub_path rel_path = elim ((scan_word (skip_until b'/' (some rel_path))).0) [
    | none ↦ pure w.junk_text
    | some temp ↦ sprintf max_rel_path_len temp
  ]

  -- `rec` stands for the arrays that are not initialised.
  abbrev pub receive_requested :
      Bytes → Bytes → Bytes → TcpBuffer → Option ℤ × Option ℤ → Prog S (ℤ × TcpBuffer)
  receive_requested rec rel_path data_dir b (orig_len, rec_len) = sub_path rel_path >>= λ temp.
      sprintf max_path_len (data_dir ++ (b'/' ∷ temp)) >>= λ file_path.
      receive_and_decompress w rec b file_path (assigned rec_len w.junk_int)
        (assigned orig_len w.junk_int)
      >>= λ (ret, len, b'). pure (ret, b')

  -- The answer to SEND_FILE.
  abbrev pub on_answer : Bytes → Bytes → Bytes → TcpBuffer × Bytes → Prog S (ℤ × TcpBuffer)
  on_answer rec rel_path data_dir (b, buf) =
      if starts_with (codes "SENDING REQUESTED") (c_str buf)
      then receive_requested rec rel_path data_dir b (scan_sizes (c_str buf))
      else pure (negsuc 4, b)

  unfoldable pub request_file : Bytes → TcpBuffer → Bytes → Bytes → Prog S (ℤ × TcpBuffer)
  request_file rec b rel_path data_dir =
      sprintf max_cmd_len (codes "SEND_FILE " ++ (rel_path ++ (b'\n' ∷ []))) >>= λ cmd.
      tcp_send_receive_tt w b cmd rec >>= on_answer rec rel_path data_dir

  -- One request of RequestAllReaminingFiles: any value but 0 ends the function with -1.
  abbrev pub request_then :
      Bytes
      → Bytes
      → Bytes
      → (TcpBuffer → Prog S (ℤ × TcpBuffer))
      → TcpBuffer
      → Prog S (ℤ × TcpBuffer)
  request_then rec dir file_name next b = request_file rec b file_name dir >>= λ (ret, b').
      if is_pos ret 0 then next b' else pure (negsuc 0, b')

  -- `d` is the copy of t->tr.d that the function takes under the lock.
  unfoldable pub request_all_remaining_files :
      Bytes → TcpBuffer → NextDir → Bytes → Prog S (ℤ × TcpBuffer)
  unfolding request_file remaining_files
  request_all_remaining_files rec b d dir =
      let (pcd_data, pcd_info, other_data, other_info) = remaining_files d in
      request_then rec dir pcd_data
        (request_then rec dir pcd_info (
          request_then rec dir other_data
            (request_then rec dir other_info (λ b'. pure (pos 0, b')))))
        b

  -- One call of MakePath in CreateTransmissionDir.
  abbrev pub make_then : Bytes → Prog S ℤ → Prog S ℤ
  make_then path next = make_path w max_path_len (snprintf max_path_len path) >>= λ ret.
      if is_neg ret then pure (negsuc 0) else next

  unfoldable pub create_transmission_dir : Bytes → ℤ → Prog S ℤ
  unfolding local_log_dir other_data_n make_path
  create_transmission_dir dir_name logger_n =
      let log = local_log_dir dir_name logger_n in
      let log2 = local_log_dir dir_name (other_data_n logger_n) in
      make_then (log ++ codes "/run/mpa/tof") (
        make_then (log ++ codes "/data") (
          make_then (log ++ codes "/etc/modalai") (
            make_then (log2 ++ codes "/run/mpa/vvpx4_body_wrt_local") (
              make_then (log2 ++ codes "/data")
                (make_then (log2 ++ codes "/etc/modalai") (pure (pos 0)))))))
