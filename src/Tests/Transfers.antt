-- ===== src/Tests/Transfers.antt =====
-- A whole transfer, and its messages, at concrete inputs.
use study_and_development_of.Base.{
  ◌+◌, ◌<◌, ◌≡◌, refl, pos, Bytes, [], ◌∷◌, ◌++◌, codes, length, some, arith, equal,
}
use study_and_development_of.World.{done}
use study_and_development_of.Libc.RoundTrip.{IsWord}
use study_and_development_of.Libc.Scan.{scan_word, skip_until}
use study_and_development_of.Common.Info.{TrInfo}
use study_and_development_of.Common.TcpBuffer.{TcpBuffer}
use study_and_development_of.Common.Stream.{Pending}
use study_and_development_of.Server.Transfer.{bufsiz, sending_text, compress_and_send}
use study_and_development_of.Server.Transfer.Emits.{
  with_sizes, transfer, Compresses, compress_and_send-transfer,
}
use study_and_development_of.Server.Remove.{scan_remove_file}
use study_and_development_of.Client.Receive.{receive_and_decompress}
use study_and_development_of.Client.Receive.Stored.{receive_and_decompress-stored}
use study_and_development_of.Client.Request.{scan_sizes, request_file}
use study_and_development_of.Client.Transmission.{scan_sending, remove_file_command}
use study_and_development_of.Wire.Messages.{
  scan_sending-sending_text, scan_remove_file-remove_file_command, scan_sizes-requested,
}
use study_and_development_of.Wire.Fetch.{RequestFits, answer_line, request_file-fetch}
use study_and_development_of.DataGen.Copy.{copy_file}
use study_and_development_of.DataGen.Copy.Copies.{copy_file-copies}
use study_and_development_of.Tests.Demo.{
  Env, demo, unread, sent, file, idle, emit, fresh, fresh-Pending, demo-IsStream, demo-SendsAll,
  demo-StoresFiles, demo-Appends, no_space-IsWord, zeros, length-zeros, demo-Unpacks,
}

abbrev stamp : Bytes
stamp = codes "20230405-101112"

abbrev info : TrInfo
info = record {
  f = record { first = pos 7; last = pos 12; count = pos 2 };
  d = record { first = stamp; last = []; count = pos 1; logger_n = pos 1 };
}

stamp-IsWord : IsWord stamp
stamp-IsWord = no_space-IsWord b'2' (codes "0230405-101112") refl

scan_sending-sending_text_example :
    scan_sending info (with_sizes (sending_text info) (pos 900) (pos 80))
    ≡ record { first = some stamp; tr = info; orig_len = some (pos 900); rec_len = some (pos 80) }
scan_sending-sending_text_example =
    scan_sending-sending_text info info (pos 900) (pos 80) stamp-IsWord

scan_remove_file-remove_file_command_example :
    (line : Bytes) × (remove_file_command info ≡ line ++ (b'\n' ∷ []))
    × (scan_remove_file line
        ≡ record { timestamp = some stamp; logger_n = some (pos 1); file_number = some (pos 7) })
scan_remove_file-remove_file_command_example =
    scan_remove_file-remove_file_command info stamp-IsWord

scan_sizes-requested_example :
    scan_sizes (with_sizes (codes "SENDING REQUESTED " ++ codes "in") (pos 5) (pos 5))
    ≡ (some (pos 5), some (pos 5))
scan_sizes-requested_example =
    scan_sizes-requested (codes "in") (pos 5) (pos 5) (no_space-IsWord b'i' (codes "n") refl)

copy_file-copies_example :
    (t : Env) × (copy_file demo (codes "in") (codes "out") idle ≡ done (pos 0) t)
    × (file t (codes "out") ≡ some (codes "a,b\nc"))
copy_file-copies_example =
    copy_file-copies demo file demo-Appends (codes "in") (codes "out") (codes "a,b\nc") idle
      (unfold equal in refl) (unfold equal in refl) (omega arith)

in-Compresses : Compresses demo (codes "in") (codes "a,b\nc") (codes "a,b\nc") idle
in-Compresses = record {
  memory = λ n. refl;
  opens = unfold equal in refl;
  reads = refl;
  packs = refl;
  small = omega arith;
}

compress_and_send-transfer_example :
    (t : Env) × (compress_and_send demo (codes "in") (codes "SENDING") idle ≡ done (pos 0) t)
    × (sent t ≡ [] ++ transfer (codes "SENDING") 5 (codes "a,b\nc"))
unfolding study_and_development_of.Libc.Format.fmt_d
compress_and_send-transfer_example =
    compress_and_send-transfer demo sent demo-SendsAll (codes "in") (codes "SENDING")
      (codes "a,b\nc") (codes "a,b\nc") idle in-Compresses (omega arith)

abbrev arriving : Env
arriving = record idle { unread = codes "a,b\ncEND\nX" }

receive_and_decompress-stored_example :
    (b' : TcpBuffer) × (t : Env) × (receive_and_decompress demo
        (zeros 8)
        (fresh [])
        (codes "out")
        (pos 5)
        (pos 5)
        arriving
      ≡ done (pos 0, pos 5, b') t)
    × (file t (codes "out") ≡ some (codes "a,b\nc"))
    × Pending unread b' t (codes "X")
receive_and_decompress-stored_example =
    receive_and_decompress-stored demo unread file demo-StoresFiles demo-IsStream (codes "a,b\nc")
      (codes "X") (codes "a,b\nc") (zeros 8) (codes "out") (fresh []) arriving (pos 5) (λ n s. refl)
      refl (omega arith) (omega arith) (omega arith) refl (fresh-Pending [] arriving)

-- The server has sent "in", and the client finds the answer when it asks for "data/in".
abbrev answer : Bytes
answer = transfer (codes "SENDING REQUESTED in") 5 (codes "a,b\nc")

abbrev answering : Env
answering = record idle { unread = answer ++ codes "X" }

in-IsWord : IsWord (codes "in")
in-IsWord = no_space-IsWord b'i' (codes "n") refl

in-line_fits : length (answer_line (codes "in") 5 (codes "a,b\nc")) < bufsiz
unfolding study_and_development_of.Libc.Format.fmt_d
in-line_fits = omega arith

in-sent :
    (t : Env) × (compress_and_send demo (codes "in") (codes "SENDING REQUESTED in") idle
      ≡ done (pos 0) t)
    × (sent t ≡ sent idle ++ answer)
in-sent =
    compress_and_send-transfer demo sent demo-SendsAll (codes "in") (codes "SENDING REQUESTED in")
      (codes "a,b\nc") (codes "a,b\nc") idle in-Compresses in-line_fits

in-RequestFits : RequestFits (codes "data/in") (codes "local") (codes "/in")
in-RequestFits = record {
  cmd = omega arith;
  temp_is = unfold scan_word skip_until in refl;
  temp_fits = omega arith;
  file_path = omega arith;
}

request_file-fetch_example :
    (b' : TcpBuffer) × (t : Env) × (request_file demo
        (zeros (bufsiz + 1))
        (fresh [])
        (codes "data/in")
        (codes "local")
        answering
      ≡ done (pos 0, b') t)
    × (file t (codes "local//in") ≡ some (codes "a,b\nc"))
    × Pending unread b' t (codes "X")
request_file-fetch_example =
    request_file-fetch demo sent demo unread file demo-SendsAll demo-IsStream demo-StoresFiles
      (λ n u. refl) demo-Unpacks (codes "in") (codes "a,b\nc") (codes "a,b\nc") answer idle
      in-sent.0 in-Compresses (omega arith) (omega arith) in-sent.1 in-sent.2 (codes "data/in")
      (codes "local") (codes "/in") (codes "X") (zeros (bufsiz + 1)) (fresh []) answering
      (emit (codes "SEND_FILE data/in\n") answering) in-RequestFits in-IsWord (omega arith)
      (length-zeros (bufsiz + 1)) in-line_fits refl refl
      (fresh-Pending [] (emit (codes "SEND_FILE data/in\n") answering))
