-- ===== src/Tests/Cycles.antt =====
-- A cycle of a transmission at concrete inputs: SEND_NEXT, the file, REMOVE_FILE.
use study_and_development_of.Base.{
  ◌+◌, ◌<◌, ◌≡◌, refl, pos, Bytes, [], ◌∷◌, ◌++◌, codes, length, some, true, arith, starts_with,
  equal, if◌then◌else◌,
}
use study_and_development_of.Libc.Format.{snprintf, fmt_d}
use study_and_development_of.Libc.Scan.{scan_d, skip_until, literal}
use study_and_development_of.World.{World, done, entries}
use study_and_development_of.Common.Info.{TrInfo}
use study_and_development_of.Common.Stream.{Pending}
use study_and_development_of.Common.Paths.{dir_exists}
use study_and_development_of.Server.Logger.{reply, proc_number, line_count}
use study_and_development_of.Server.Scan.{
  max_path_len, find_next_tr, with_next_file, find_lidar_data_info, find_first_dir, scan_dirs,
  dir_loop, dir_step, string_to_time, find_next_file, scan_files, file_loop, file_step,
  extract_file_number, tof_dir, log_dir,
}
use study_and_development_of.Server.Transfer.{
  bufsiz, data_file, decide_next, sending_text, send_next,
}
use study_and_development_of.Server.Transfer.Emits.{with_sizes, transfer, Compresses}
use study_and_development_of.Server.Transfer.Next.{send_next-transfer}
use study_and_development_of.Server.Remove.{remove_file, removed_text}
use study_and_development_of.Client.Transmission.{
  Shared, Local, remove_file_command, exchange, request_next, on_sending,
}
use study_and_development_of.Wire.Sending.{local_file}
use study_and_development_of.Wire.Cycle.{NameFits, Sends, send_next-fetch}
use study_and_development_of.Wire.Removal.{remove_file-sent_file}
use study_and_development_of.Tests.Demo.{
  Env, demo, unread, sent, file, idle, emit, fresh, fresh-Pending, demo-IsStream, demo-SendsAll,
  demo-StoresFiles, always, no_space-IsWord, zeros, length-zeros, demo-Unpacks,
}

abbrev stamp : Bytes
stamp = codes "20230405-101112"

abbrev next : TrInfo
next = record {
  f = record { first = pos 7; last = pos 7; count = pos 1 };
  d = record { first = stamp; last = stamp; count = pos 1; logger_n = pos 0 };
}

abbrev nothing : TrInfo
nothing = record {
  f = record { first = pos 0; last = pos 0; count = pos 0 };
  d = record { first = []; last = []; count = pos 0; logger_n = pos 0 };
}

abbrev contents : Bytes
contents = codes "x y z\n"

-- One directory with one file, and no logger.
abbrev serving : Env
serving = record idle {
  files = λ name. some contents;
  dirs = λ path.
      if equal path (codes "data") then entries (stamp ∷ []) else entries (codes "data_7.pcd" ∷ []);
}

next-found : find_next_tr demo nothing (codes "data") serving ≡ (pos 0, next)
unfolding find_next_tr with_next_file find_lidar_data_info find_first_dir scan_dirs dir_loop
    dir_step string_to_time find_next_file scan_files file_loop file_step extract_file_number
    tof_dir log_dir dir_exists starts_with equal scan_d skip_until literal snprintf
next-found = refl

next-counted : proc_number demo (codes "voxl-logger") serving ≡ done (pos 0) serving
unfolding proc_number line_count
next-counted = refl

next-line_fits : length (with_sizes (sending_text next) (pos 6) (pos 6)) < bufsiz
unfolding sending_text fmt_d
next-line_fits = omega arith

next-cmd_fits : length (remove_file_command next) < 128
unfolding remove_file_command fmt_d
next-cmd_fits = omega arith

next-readable :
    Compresses demo
      (snprintf max_path_len (data_file (codes "data") stamp (pos 0) (pos 7)))
      contents
      contents
      serving
next-readable = record {
  memory = λ n. refl;
  opens = refl;
  reads = refl;
  packs = refl;
  small = omega arith;
}

next-Sends :
    Sends demo nothing next (codes "voxl-logger") (codes "data") contents contents serving serving
next-Sends = record {
  ret = pos 0;
  n = pos 0;
  found = next-found;
  has_dir = refl;
  has_file = refl;
  counted = next-counted;
  known = refl;
  decides = unfold decide_next in refl;
  readable = next-readable;
}

abbrev answer : Bytes
answer = transfer (sending_text next) 6 contents

stamp-NameFits : NameFits next
stamp-NameFits = record {
  word = no_space-IsWord b'2' (codes "0230405-101112") refl;
  text = omega arith;
  short = omega arith;
  cmd = next-cmd_fits;
}

-- SendNext has run.
next-sent :
    (t : Env) × (send_next demo nothing (codes "voxl-logger") (codes "data") serving
      ≡ done (pos 0) t)
    × (sent t ≡ sent serving ++ answer)
next-sent =
    send_next-transfer demo sent demo-SendsAll nothing next (codes "voxl-logger") (codes "data")
      contents contents (pos 0) (pos 0) serving serving next-found refl refl next-counted refl
      (unfold decide_next in refl) next-readable next-line_fits

-- The client, whose directories are all there.
abbrev ground_world : World Env
ground_world = record demo { opendir = λ path s. entries [] }

abbrev shared : Shared Env
shared = record {
  running = λ s. true;
  set_status = λ z s. done tt s;
  get_tr = λ s. nothing;
  set_tr = λ tr s. done tt s;
}

abbrev start_local : Local
start_local = record {
  b = fresh [];
  rec = zeros (bufsiz + 1);
  transmission_dir = [];
  folder = [];
  tr = nothing;
  orig_len = pos 0;
  rec_len = pos 0;
}

abbrev answered : Env
answered = record idle { unread = answer ++ codes "X" }

abbrev asked : Env
asked = emit (codes "SEND_NEXT\n") answered

send_next-fetch_example :
    (l1 : Local) × (u1 : Env) × (l2 : Local) × (u2 : Env) × (request_next ground_world shared 1
        start_local answered
      ≡ done (some l1) u1)
    × (on_sending ground_world shared (zeros (bufsiz + 1)) l1 u1
        ≡ exchange ground_world shared (remove_file_command next) l2 u2)
    × (file u2 (local_file next) ≡ some contents)
    × Pending unread l2.b u2 (codes "X")
send_next-fetch_example =
    send_next-fetch demo sent ground_world shared unread file demo-SendsAll
      (record { text = demo-IsStream.text; binary = demo-IsStream.binary })
      (record {
        opened = demo-StoresFiles.opened;
        written = demo-StoresFiles.written;
        can_write = λ s name. true;
        room = λ name. always ground_world;
        open_lem = λ name s free. refl;
        write_lem = demo-StoresFiles.write_lem;
        file-opened = demo-StoresFiles.file-opened;
        file-written = demo-StoresFiles.file-written;
        unread-opened = demo-StoresFiles.unread-opened;
        unread-written = demo-StoresFiles.unread-written;
      })
      (record { set = λ tr s. s; set_lem = λ tr s. refl; unread-set = λ tr s. refl }) (λ n u. refl)
      demo-Unpacks nothing next (codes "voxl-logger") (codes "data") contents contents answer
      serving serving next-sent.0 next-Sends stamp-NameFits (omega arith) (omega arith)
      next-line_fits next-sent.1 next-sent.2 0 (zeros (bufsiz + 1)) (codes "X") start_local answered
      asked (length-zeros (bufsiz + 1)) (length-zeros (bufsiz + 1)) (λ v. unfold dir_exists in refl)
      (λ v. refl) refl (fresh-Pending [] asked)

remove_file-sent_file_example :
    (line : Bytes) × (remove_file_command next ≡ line ++ (b'\n' ∷ []))
    × (remove_file demo line (codes "data") idle
        ≡ reply demo (removed_text (pos 7) stamp) (pos 0) (record idle {
          commands = snprintf max_path_len (data_file (codes "data") stamp (pos 0) (pos 7)) ∷ [];
        }))
remove_file-sent_file_example =
    remove_file-sent_file demo next (codes "data") idle
      (record idle {
        commands = snprintf max_path_len (data_file (codes "data") stamp (pos 0) (pos 7)) ∷ [];
      })
      (no_space-IsWord b'2' (codes "0230405-101112") refl) (omega arith) refl
