-- ===== src/Wire/Cycle.antt =====
-- One file of a transmission: SEND_NEXT, the server's SendNext, and the client's file.
use study_and_development_of.Base.{
  ℕ, suc, ◌+◌, ◌^◌, ◌<◌, ◌≡◌, refl, sym, ◌∙◌, ap, subst, ℤ, pos, is_neg, is_negsuc, Bytes, ◌∷◌,
  ◌++◌, append_assoc, codes, Option, some, c_str, starts_with, length, All, true, false, arith,
}
use study_and_development_of.Libc.Format.{fmt_d, snprintf}
use study_and_development_of.Libc.RoundTrip.{IsWord}
use study_and_development_of.World.{done, World, bind-done}
use study_and_development_of.Common.Info.{timestamp_len, TrInfo}
use study_and_development_of.Common.Paths.{dir_exists}
use study_and_development_of.Common.TcpBuffer.{TcpBuffer}
use study_and_development_of.Common.Compression.{to_size}
use study_and_development_of.Common.Stream.{IsStream, Pending}
use study_and_development_of.Common.Stream.Lines.{IsText}
use study_and_development_of.Server.Logger.{proc_number}
use study_and_development_of.Server.Scan.{max_path_len, find_next_tr}
use study_and_development_of.Server.Transfer.{
  bufsiz, sending, sending_text, data_file, decide_next, send_next,
}
use study_and_development_of.Server.Transfer.Emits.{with_sizes, transfer, SendsAll, Compresses}
use study_and_development_of.Server.Transfer.Next.{send_next-transfer}
use study_and_development_of.Client.Exchange.{tcp_send_receive_tt}
use study_and_development_of.Client.Exchange.Replies.{tcp_send_receive_tt-line}
use study_and_development_of.Client.Receive.Stored.{StoresFiles}
use study_and_development_of.Client.Request.{max_cmd_len}
use study_and_development_of.Client.Transmission.{
  Shared, Local, remove_file_command, exchange, request_next, receive_sending, on_sending,
}
use study_and_development_of.Wire.Text.{All-IsText-append, fmt_d-IsText}
use study_and_development_of.Wire.Fetch.{
  with_sizes-IsText, append_cancel, done-injective, Unpacks, to_size-small,
}
use study_and_development_of.Wire.Sending.{
  active_dir, local_file, SetsShared, receive_sending-stored,
}

-- The names of `tr` fit the arrays of the client and of the protocol.
pub record NameFits (tr : TrInfo) : Type 0 where
  pub word : IsWord tr.d.first
  pub text : All IsText tr.d.first
  pub short : length tr.d.first < timestamp_len
  pub cmd : length (remove_file_command tr) < max_cmd_len

spaced : (a : ℤ) (rest : Bytes) → All IsText rest → All IsText (32 ∷ (fmt_d a ++ rest))
spaced a rest h = (omega arith, All-IsText-append (fmt_d a) rest (fmt_d-IsText a) h)

pub sending_text-IsText : (tr : TrInfo) → All IsText tr.d.first → All IsText (sending_text tr)
unfolding sending_text
sending_text-IsText tr h = All-IsText-append (codes "SENDING ") _ (omega arith) (
    All-IsText-append tr.d.first _ h (
      spaced tr.d.logger_n _
        (spaced tr.f.first _ (spaced tr.f.last _ (omega arith, fmt_d-IsText tr.f.count)))))

-- What a SENDING line is not.
pub sending-error :
    (tr : TrInfo) (a b : ℤ) → starts_with (codes "ERROR") (with_sizes (sending_text tr) a b) ≡ false
unfolding sending_text starts_with
sending-error tr a b = refl

pub sending-wait :
    (tr : TrInfo) (a b : ℤ) → starts_with (codes "WAIT") (with_sizes (sending_text tr) a b) ≡ false
unfolding sending_text starts_with
sending-wait tr a b = refl

pub sending-begins :
    (tr : TrInfo) (a b : ℤ)
    → starts_with (codes "SENDING") (with_sizes (sending_text tr) a b) ≡ true
unfolding sending_text starts_with
sending-begins tr a b = refl

pub sending-nonempty : (tr : TrInfo) (a b : ℤ) → 0 < length (with_sizes (sending_text tr) a b)
unfolding sending_text
sending-nonempty tr a b = omega arith

module _ {S : Type 0} (w : World S) (t : Shared S) where
  exchange-done :
      (cmd array : Bytes) (b : TcpBuffer) (l : Local) (s u : S)
      → tcp_send_receive_tt w l.b cmd l.rec s ≡ done (b, array) u
      → exchange w t cmd l s ≡ done (record l { b = b; rec = array }) u
  unfolding exchange
  exchange-done cmd array b l s u asked = bind-done (tcp_send_receive_tt w l.b cmd l.rec) _ asked

  -- An answer that is not WAIT ends the requests.
  request_next-answer :
      (rounds : ℕ) (line array : Bytes) (b : TcpBuffer) (l : Local) (s u : S)
      → tcp_send_receive_tt w l.b (codes "SEND_NEXT\n") l.rec s ≡ done (b, array) u
      → c_str array ≡ line
      → starts_with (codes "WAIT") line ≡ false
      → request_next w t (suc rounds) l s ≡ done (some (record l { b = b; rec = array })) u
  unfolding request_next exchange
  request_next-answer rounds line array b l s u asked holds other =
      bind-done (exchange w t (codes "SEND_NEXT\n") l) _
        (exchange-done (codes "SEND_NEXT\n") array b l s u asked)
      ∙ rw (holds, other) refl

  pub on_sending-line :
      (line scratch : Bytes) (l : Local) (s : S)
      → c_str l.rec ≡ line
      → starts_with (codes "SENDING") line ≡ true
      → on_sending w t scratch l s ≡ receive_sending w t scratch l s
  unfolding on_sending
  on_sending-line line scratch l s holds h = rw holds (rw h refl)

  module _ (unread : S → Bytes) (file : S → Bytes → Option Bytes) (stream : IsStream w unread)
      (files : StoresFiles w unread file) (shared : SetsShared t unread)
      (memory : (n : ℕ) (u : S) → w.malloc n u ≡ true) where
    -- The client's half of a cycle.
    cycle-stored :
        (tr : TrInfo) (rounds : ℕ) (scratch contents out rest : Bytes) (l : Local) (s s1 : S)
        → NameFits tr
        → 3 < length scratch
        → length contents < 2 ^ 31
        → length out < 2 ^ 31
        → length (with_sizes (sending_text tr) (pos (length contents)) (pos (length out)))
          < length l.rec
        → w.uncompress (to_size (pos (length contents))) out ≡ some contents
        → ((v : S) → dir_exists w (active_dir tr) v ≡ pos 1)
        → ((v : S) → files.can_write v (local_file tr) ≡ true)
        → w.tcp_send (codes "SEND_NEXT\n") s ≡ done (pos 1) s1
        → Pending unread l.b s1 (transfer (sending_text tr) (length contents) out ++ rest)
        → (l1 : Local) × (u1 : S) × (l2 : Local) × (u2 : S) × (request_next w t (suc rounds) l s
            ≡ done (some l1) u1)
          × (on_sending w t scratch l1 u1 ≡ exchange w t (remove_file_command tr) l2 u2)
          × (file u2 (local_file tr) ≡ some contents)
          × Pending unread l2.b u2 rest
    cycle-stored tr rounds scratch contents out rest l s s1 fits room small counted array_room
          packed there writable went p =
        let a = pos (length contents) in
        let z = pos (length out) in
        let line = with_sizes (sending_text tr) a z in
        let (b1, array, u1, asked, holds, size, p1) =
          tcp_send_receive_tt-line w unread stream line (out ++ (codes "END" ++ b'\n' ∷ rest))
            (codes "SEND_NEXT\n") l.rec l.b s s1 went
            (with_sizes-IsText (sending_text tr) a z (sending_text-IsText tr fits.text))
            (sending-nonempty tr a z) array_room (sending-error tr a z)
            (subst (Pending unread l.b s1) (simp append_assoc) p) in
        let l1 : Local = record l { b = b1; rec = array } in
        let (l2, u2, run, stored, p2) =
          receive_sending-stored w t unread file stream files shared memory tr scratch contents out
            rest l1 u1 fits.word fits.short fits.cmd room small counted packed holds (there _)
            (writable _) p1 in
        (
          l1,
          u1,
          l2,
          u2,
          request_next-answer rounds line array b1 l s u1 asked holds (sending-wait tr a z),
          on_sending-line line scratch l1 u1 holds (sending-begins tr a z) ∙ run,
          stored,
          p2,
        )

-- What the server has found: the next file, a logger whose state is known, and the decision to send.
pub record Sends {R : Type 0} (sw : World R) (tr0 tr : TrInfo)
    (logger_name dir contents out : Bytes) (r u : R) : Type 0 where
  pub ret : ℤ
  pub n : ℤ
  pub found : find_next_tr sw tr0 dir r ≡ (ret, tr)
  pub has_dir : is_negsuc ret 0 ≡ false
  pub has_file : is_negsuc ret 1 ≡ false
  pub counted : proc_number sw logger_name r ≡ done n u
  pub known : is_neg n ≡ false
  pub decides : decide_next n tr ≡ sending
  pub readable :
      Compresses sw
        (snprintf max_path_len (data_file dir tr.d.first tr.d.logger_n tr.f.first))
        contents
        out
        u

-- The server has run SendNext and decided to send a file, with less than 2^31 bytes before and
-- after compression, and zlib gives back what it was given; the client has memory, in every state
-- its local directory is there and the file can be written, and the names fit its arrays. If the
-- client finds what this put on the connection after it has sent SEND_NEXT, in packets of any size
-- and with any bytes behind it, its first request ends the waiting, and the branch of SENDING
-- stores the bytes of the server's file under the local name and goes on with the exchange of the
-- REMOVE_FILE command for it, behind the answer.
pub send_next-fetch :
    {R S : Type 0} (sw : World R) (sent : R → Bytes) (w : World S) (t : Shared S)
    (unread : S → Bytes) (file : S → Bytes → Option Bytes)
    → SendsAll sw sent
    → IsStream w unread
    → (files : StoresFiles w unread file) → SetsShared t unread
    → ((n : ℕ) (u : S) → w.malloc n u ≡ true)
    → Unpacks sw w
    → (tr0 tr : TrInfo) (logger_name dir contents out answer : Bytes) (r u r1 : R)
    → Sends sw tr0 tr logger_name dir contents out r u
    → NameFits tr
    → length contents < 2 ^ 31
    → length out < 2 ^ 31
    → length (with_sizes (sending_text tr) (pos (length contents)) (pos (length out))) < bufsiz
    → send_next sw tr0 logger_name dir r ≡ done (pos 0) r1
    → sent r1 ≡ sent u ++ answer
    → (rounds : ℕ) (scratch rest : Bytes) (l : Local) (s s1 : S) → length scratch ≡ bufsiz + 1
    → length l.rec ≡ bufsiz + 1
    → ((v : S) → dir_exists w (active_dir tr) v ≡ pos 1)
    → ((v : S) → files.can_write v (local_file tr) ≡ true)
    → w.tcp_send (codes "SEND_NEXT\n") s ≡ done (pos 1) s1
    → Pending unread l.b s1 (answer ++ rest)
    → (l1 : Local) × (u1 : S) × (l2 : Local) × (u2 : S) × (request_next w t (suc rounds) l s
        ≡ done (some l1) u1)
      × (on_sending w t scratch l1 u1 ≡ exchange w t (remove_file_command tr) l2 u2)
      × (file u2 (local_file tr) ≡ some contents)
      × Pending unread l2.b u2 rest
send_next-fetch sw sent w t unread file net stream files shared memory zlib tr0 tr logger_name dir
      contents out answer r u r1 h fits small counted line ran out_is rounds scratch rest l s s1
      room array there writable went p =
    let (r2, run, emitted) =
      send_next-transfer sw sent net tr0 tr logger_name dir contents out h.ret h.n r u h.found
        h.has_dir h.has_file h.counted h.known h.decides h.readable line in
    let same : r1 ≡ r2 = done-injective (sym ran ∙ run) in
    let answer_is : answer ≡ transfer (sending_text tr) (length contents) out =
      append_cancel (sent u) (sym out_is ∙ ap sent same ∙ emitted) in
    cycle-stored w t unread file stream files shared memory tr rounds scratch contents out rest l s
      s1 fits (omega arith) small counted (omega arith)
      (rw (to_size-small (length contents) (omega arith))
        (zlib (sw.compress_bound (length contents)) contents out (omega arith) h.readable.packs))
      there writable went (subst (λ a. Pending unread l.b s1 (a ++ rest)) answer_is p)
