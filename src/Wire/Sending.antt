-- ===== src/Wire/Sending.antt =====
-- The client's side of a SENDING answer: the file is stored, and then REMOVE_FILE is sent for it.
use study_and_development_of.Base.{
  ℕ, ◌^◌, ◌<◌, ◌≡◌, ◌∙◌, pos, Bytes, ◌∷◌, ◌++◌, codes, Option, some, c_str, length, true,
}
use study_and_development_of.Libc.Format.{snprintf}
use study_and_development_of.Libc.RoundTrip.{IsWord}
use study_and_development_of.World.{done, World, bind-done}
use study_and_development_of.Common.Info.{timestamp_len, TrInfo}
use study_and_development_of.Common.Paths.{dir_exists}
use study_and_development_of.Common.TcpBuffer.{TcpBuffer}
use study_and_development_of.Common.Compression.{to_size}
use study_and_development_of.Common.Stream.{IsStream, Pending}
use study_and_development_of.Server.Transfer.{sending_text}
use study_and_development_of.Server.Transfer.Emits.{with_sizes}
use study_and_development_of.Client.Receive.{receive_and_decompress}
use study_and_development_of.Client.Receive.Stored.{StoresFiles, receive_and_decompress-stored}
use study_and_development_of.Client.Request.{max_path_len, max_rel_path_len, max_cmd_len, sprintf}
use study_and_development_of.Client.Transmission.{
  data_dir, Shared, Local, local_data_file, remove_file_command, stored_word, exchange, confirm,
  receive_sending,
}
use study_and_development_of.Wire.Messages.{scan_sending-sending_text}
use study_and_development_of.Wire.Fetch.{sprintf-fits}

-- The directory of the client for what is being received.
abbrev pub active_dir : TrInfo → Bytes
active_dir tr = snprintf max_rel_path_len (data_dir ++ (b'/' ∷ (tr.d.first ++ codes "-active")))

abbrev pub local_file : TrInfo → Bytes
local_file tr = snprintf max_path_len (local_data_file (active_dir tr) tr.d.logger_n tr.f.first)

-- What the thread knows after a SENDING line for `tr`.
abbrev pub received : TrInfo → TrInfo → TrInfo
received old tr = record {
  f = tr.f;
  d = record (old.d) { first = tr.d.first; logger_n = tr.d.logger_n };
}

abbrev pub after_sending : TrInfo → Bytes → Bytes → TcpBuffer → Local → Local
after_sending tr contents out b l = record l {
  b = b;
  transmission_dir = active_dir tr;
  tr = received l.tr tr;
  orig_len = pos (length contents);
  rec_len = pos (length out);
}

-- The lock works: what is shared is set, and the socket is not touched.
pub record SetsShared {S : Type 0} (t : Shared S) (unread : S → Bytes) : Type 0 where
  pub set : TrInfo → S → S
  pub set_lem : (tr : TrInfo) (s : S) → t.set_tr tr s ≡ done tt (set tr s)
  pub unread-set : (tr : TrInfo) (s : S) → unread (set tr s) ≡ unread s

module _ {S : Type 0} (w : World S) (t : Shared S) where
  confirm-removes :
      (tr : TrInfo) (l : Local) (u : S)
      → length (remove_file_command tr) < max_cmd_len
      → confirm w t tr (pos 0) l u ≡ exchange w t (remove_file_command tr) l u
  confirm-removes tr l u h =
      bind-done (sprintf w max_cmd_len (remove_file_command tr)) _
        (sprintf-fits w max_cmd_len (remove_file_command tr) u h)

  module _ (unread : S → Bytes) (file : S → Bytes → Option Bytes) (stream : IsStream w unread)
      (files : StoresFiles w unread file) (shared : SetsShared t unread)
      (memory : (n : ℕ) (u : S) → w.malloc n u ≡ true) where
    -- The run of the branch, with what it leaves in the local variables.
    pub receive_sending-run :
        (tr : TrInfo) (scratch contents out rest : Bytes) (l : Local) (s : S)
        → IsWord tr.d.first
        → length tr.d.first < timestamp_len
        → length (remove_file_command tr) < max_cmd_len
        → 3 < length scratch
        → length contents < 2 ^ 31
        → length out < 2 ^ 31
        → w.uncompress (to_size (pos (length contents))) out ≡ some contents
        → c_str l.rec ≡ with_sizes (sending_text tr) (pos (length contents)) (pos (length out))
        → dir_exists w (active_dir tr) (shared.set (received l.tr tr) s) ≡ pos 1
        → files.can_write (shared.set (received l.tr tr) s) (local_file tr) ≡ true
        → Pending unread l.b s (out ++ (codes "END" ++ b'\n' ∷ rest))
        → (b' : TcpBuffer) × (u : S) × (receive_sending w t scratch l s
            ≡ exchange w t (remove_file_command tr) (after_sending tr contents out b' l) u)
          × (receive_and_decompress w scratch l.b
                (local_file tr)
                (pos (length out))
                (pos (length contents))
                (shared.set (received l.tr tr) s)
              ≡ done (pos 0, pos (length contents), b') u)
          × (file u (local_file tr) ≡ some contents)
          × Pending unread b' u rest
    unfolding receive_sending remove_file_command
    receive_sending-run tr scratch contents out rest l s word short cmd room small counted packed
          holds there writable p =
        let tr' = received l.tr tr in
        let s1 = shared.set tr' s in
        let p1 : Pending unread l.b s1 (out ++ (codes "END" ++ b'\n' ∷ rest)) = record {
          ahead = p.ahead;
          buffered = p.buffered;
          stream_is = rw (shared.unread-set tr' s) p.stream_is;
        } in
        let (b', u, got, stored, p2) =
          receive_and_decompress-stored w unread file files stream out rest contents scratch
            (local_file tr) l.b s1 (pos (length contents)) memory packed small counted room writable
            p1 in
        let l' = after_sending tr contents out b' l in
        (
          b',
          u,
          rw holds (
              rw (scan_sending-sending_text l.tr tr (pos (length contents)) (pos (length out)) word)
                (bind-done (stored_word w t timestamp_len (some tr.d.first) l.tr.d.first) _
                    (sprintf-fits w timestamp_len tr.d.first s short)
                  ∙ bind-done (t.set_tr tr') _ (shared.set_lem tr' s)
                  ∙ rw there (
                      bind-done
                        (receive_and_decompress w scratch l.b (local_file tr) (pos (length out))
                          (pos (length contents)))
                        _ got
                      ∙ confirm-removes tr' l' u cmd))),
          got,
          stored,
          p2,
        )

    -- The answer in `rec` is a SENDING line of the server for `tr`, the transfer of the file is on the
    -- connection, in packets of any size, and neither form of the file reaches 2^31 bytes; the
    -- directory for it is there, memory is given and the names fit. Then the thread stores the file
    -- under its local name, and goes on with the exchange of the REMOVE_FILE command for it, with the
    -- connection behind the transfer.
    pub receive_sending-stored :
        (tr : TrInfo) (scratch contents out rest : Bytes) (l : Local) (s : S)
        → IsWord tr.d.first
        → length tr.d.first < timestamp_len
        → length (remove_file_command tr) < max_cmd_len
        → 3 < length scratch
        → length contents < 2 ^ 31
        → length out < 2 ^ 31
        → w.uncompress (to_size (pos (length contents))) out ≡ some contents
        → c_str l.rec ≡ with_sizes (sending_text tr) (pos (length contents)) (pos (length out))
        → dir_exists w (active_dir tr) (shared.set (received l.tr tr) s) ≡ pos 1
        → files.can_write (shared.set (received l.tr tr) s) (local_file tr) ≡ true
        → Pending unread l.b s (out ++ (codes "END" ++ b'\n' ∷ rest))
        → (l' : Local) × (u : S) × (receive_sending w t scratch l s
            ≡ exchange w t (remove_file_command tr) l' u)
          × (file u (local_file tr) ≡ some contents)
          × Pending unread l'.b u rest
    receive_sending-stored tr scratch contents out rest l s word short cmd room small counted packed
          holds there writable p =
        let (b', u, run, got, stored, p') =
          receive_sending-run tr scratch contents out rest l s word short cmd room small counted
            packed holds there writable p in
        (after_sending tr contents out b' l, u, run, stored, p')
