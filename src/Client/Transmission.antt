-- ===== src/Client/Transmission.antt =====
-- transmission_thread of app/client/client_lib.c.
pub mod Waits
use study_and_development_of.Base.{
  ℕ, zero, suc, ℤ, pos, negsuc, is_pos, is_neg, Bytes, [], ◌∷◌, ◌++◌, codes, starts_with, c_str,
  Bool, not, ◌&&◌, Option, none, some, if◌then◌else◌,
}
use study_and_development_of.Libc.Format.{fmt_d, snprintf}
use study_and_development_of.Libc.Scan.{scan_word, skip_word, scan_d, assigned}
use study_and_development_of.World.{Prog, ◌>>=◌, ◌>>◌, pure, gets, World}
use study_and_development_of.Common.Info.{timestamp_len, TrInfo}
use study_and_development_of.Common.Paths.{dir_exists}
use study_and_development_of.Common.TcpBuffer.{TcpBuffer, init_buffer_tcp}
use study_and_development_of.Client.Exchange.{exit_transmission_thread, tcp_send_receive_tt}
use study_and_development_of.Client.Receive.{receive_and_decompress}
use study_and_development_of.Client.Request.{
  max_path_len, max_rel_path_len, max_cmd_len, local_log_dir, sprintf, request_all_remaining_files,
  create_transmission_dir,
}

abbrev pub data_dir : Bytes
data_dir = codes "rec_data"

-- The fields of `thread_data` that the thread shares with the main thread: t->running, t->status, and
-- t->tr, which is read and written under the lock. To this thread they belong to its environment.
pub record Shared (S : Type 0) : Type 0 where
  pub running : S → Bool
  pub set_status : ℤ → Prog S (Unit {0})
  pub get_tr : S → TrInfo
  pub set_tr : TrInfo → Prog S (Unit {0})

-- The local variables of the thread that one round leaves to the next.
pub record Local : Type 0 where
  pub b : TcpBuffer
  pub rec : Bytes
  pub transmission_dir : Bytes
  pub folder : Bytes
  pub tr : TrInfo
  pub orig_len : ℤ
  pub rec_len : ℤ

-- sscanf(rec, "%*s %s %d %d %d %d %ld %ld", ...)
pub record SendingArgs : Type 0 where
  pub first : Option Bytes
  pub tr : TrInfo
  pub orig_len : Option ℤ
  pub rec_len : Option ℤ

-- Variables that are not converted keep what they hold in `tr`.
unfoldable pub scan_sending : TrInfo → Bytes → SendingArgs
scan_sending tr rec =
    let (ts, s1) = scan_word (skip_word (some rec)) in
    let (n, s2) = scan_d s1 in
    let (first, s3) = scan_d s2 in
    let (last, s4) = scan_d s3 in
    let (count, s5) = scan_d s4 in
    let (orig_len, s6) = scan_d s5 in
    let (rec_len, s7) = scan_d s6 in
    record {
      first = ts;
      tr = record {
        f = record {
          first = assigned first tr.f.first;
          last = assigned last tr.f.last;
          count = assigned count tr.f.count;
        };
        d = record (tr.d) { first = assigned ts tr.d.first; logger_n = assigned n tr.d.logger_n };
      };
      orig_len = orig_len;
      rec_len = rec_len;
    }

-- "%s/voxl-logger/log%04d/run/mpa/tof/data_%d.pcd"
unfoldable pub local_data_file : Bytes → ℤ → ℤ → Bytes
unfolding local_log_dir
local_data_file dir logger_n n =
    local_log_dir dir logger_n ++ (codes "/run/mpa/tof/data_" ++ (fmt_d n ++ codes ".pcd"))

-- "REMOVE_FILE %s %d %d\n"
unfoldable pub remove_file_command : TrInfo → Bytes
remove_file_command tr =
    codes "REMOVE_FILE "
    ++ (tr.d.first ++ (b' ' ∷ (fmt_d tr.d.logger_n ++ (b' ' ∷ (fmt_d tr.f.first ++ (b'\n' ∷ []))))))

module _ {S : Type 0} (w : World S) (t : Shared S) where
  -- A word that sscanf stores in an array of `size` bytes that holds `old`.
  abbrev pub stored_word : ℕ → Option Bytes → Bytes → Prog S Bytes
  stored_word size none old = pure old
  stored_word size (some word) old = sprintf w size word

  unfoldable pub exchange : Bytes → Local → Prog S Local
  unfolding tcp_send_receive_tt
  exchange send l =
      tcp_send_receive_tt w l.b send l.rec >>= λ (b, rec). pure (record l { b = b; rec = rec })

  -- Ask for the next file until the answer is not WAIT, or the thread is told to stop. `none` means
  -- that the rounds given were too few.
  unfoldable pub request_next : ℕ → Local → Prog S (Option Local)
  unfolding exchange
  request_next zero l = pure none
  request_next (suc rounds) l = exchange (codes "SEND_NEXT\n") l >>= λ l'.
      gets t.running >>= λ running.
      let again = request_next rounds l' in
      if starts_with (codes "WAIT") (c_str l'.rec) && running then again else pure (some l')

  -- After the file has been written: have the server remove it.
  abbrev pub confirm : TrInfo → ℤ → Local → Prog S Local
  confirm tr ret l =
      if is_neg ret
      then exit_transmission_thread w (negsuc 0)
      else if is_pos ret 0
      then (sprintf w max_cmd_len (remove_file_command tr) >>= λ cmd. exchange cmd l)
      else pure l

  -- The branch of SENDING.
  unfoldable pub receive_sending : Bytes → Local → Prog S Local
  receive_sending scratch l =
      let args = scan_sending l.tr (c_str l.rec) in
      stored_word timestamp_len args.first l.tr.d.first >>= λ _. t.set_tr args.tr >>= λ _.
      let dir =
        snprintf max_rel_path_len (data_dir ++ (b'/' ∷ (args.tr.d.first ++ codes "-active"))) in
      gets (dir_exists w dir) >>= λ there.
      (if is_pos there 0 then create_transmission_dir w dir args.tr.d.logger_n else pure (pos 0))
      >>= λ _.
          let file_name =
            snprintf max_path_len (local_data_file dir args.tr.d.logger_n args.tr.f.first) in
          let rec_len = assigned args.rec_len l.rec_len in
          receive_and_decompress w scratch l.b file_name rec_len (assigned args.orig_len l.orig_len)
          >>= λ (ret, len, b). confirm args.tr ret (record l {
            b = b;
            transmission_dir = dir;
            tr = args.tr;
            orig_len = len;
            rec_len = rec_len;
          })

  -- The branch of EMPTY: the remaining files, then the directory on both sides.
  unfoldable pub finish_dir : Bytes → Local → Prog S Local
  unfolding request_all_remaining_files exchange
  finish_dir scratch l =
      stored_word timestamp_len (scan_word (skip_word (some (c_str l.rec)))).0 l.folder
      >>= λ folder. gets t.get_tr >>= λ tr.
          request_all_remaining_files w scratch l.b tr.d l.transmission_dir >>= λ (ret, b).
          if is_neg ret
          then exit_transmission_thread w (negsuc 0)
          else (exchange
                (snprintf max_rel_path_len (codes "REMOVE_DIR " ++ (folder ++ (b'\n' ∷ []))))
                (record l { b = b; folder = folder })
              >>= λ l'.
                  w.rename l'.transmission_dir
                    (snprintf max_rel_path_len (data_dir ++ (b'/' ∷ folder)))
                  >>= λ _. pure l')

  unfoldable pub on_sending : Bytes → Local → Prog S Local
  unfolding receive_sending
  on_sending scratch l =
      if starts_with (codes "SENDING") (c_str l.rec) then receive_sending scratch l else pure l

  unfoldable pub on_empty : Bytes → Local → Prog S Local
  unfolding finish_dir
  on_empty scratch l =
      if starts_with (codes "EMPTY") (c_str l.rec) then finish_dir scratch l else pure l

  -- The do loop. The rounds bound both loops; `none` means that they were too few.
  unfoldable pub transmission_loop : ℕ → Bytes → Local → Prog S (Option Local)
  unfolding request_next on_sending on_empty
  transmission_loop zero scratch l = pure none
  transmission_loop (suc rounds) scratch l = request_next rounds l >>= λ asked. elim asked [
    | none ↦ pure none
    | some l1 ↦ on_sending scratch l1 >>= λ l2. on_empty scratch l2 >>= λ l3.
        gets t.running >>= λ running.
        let again = transmission_loop rounds scratch l3 in
        if not (starts_with (codes "NO_TR") (c_str l3.rec)) && running
        then again
        else pure (some l3)
  ]

  -- `l` holds what the local variables hold at the start.
  unfoldable pub transmission_thread : ℕ → Bytes → Local → Prog S (Option (Unit {0}))
  unfolding transmission_loop exit_transmission_thread
  transmission_thread rounds scratch l = (t.set_status (pos 1) >> w.connect) >>= λ sk.
      if is_neg sk
      then exit_transmission_thread w (negsuc 0)
      else (transmission_loop rounds scratch (record l { b = init_buffer_tcp l.b.buffer })
          >>= λ end. elim end [ none ↦ pure none | some _ ↦ exit_transmission_thread w (pos 0) ])
