-- ===== src/Wire/Fetch.antt =====
-- One file from the drone to the ground: what CompressAndSend sends, RequestFile stores.
use study_and_development_of.Base.{
  ℕ, ◌+◌, ◌^◌, ◌<◌, ◌≡◌, refl, sym, ◌∙◌, ap, subst, ℤ, pos, Bytes, [], ◌∷◌, ◌++◌, append_assoc,
  codes, starts_with, length, All, arith, true, Option, some, lt→ltb,
}
use study_and_development_of.Libc.Format.{fmt_d}
use study_and_development_of.Libc.Scan.{scan_word, skip_until}
use study_and_development_of.Libc.RoundTrip.{IsWord}
use study_and_development_of.World.{done, World, bind-done}
use study_and_development_of.Common.TcpBuffer.{TcpBuffer}
use study_and_development_of.Common.Compression.{to_size}
use study_and_development_of.Common.Stream.{IsStream, Pending}
use study_and_development_of.Common.Stream.Lines.{IsText}
use study_and_development_of.Server.Transfer.{bufsiz, compress_and_send}
use study_and_development_of.Server.Transfer.Emits.{
  with_sizes, transfer, SendsAll, Compresses, compress_and_send-transfer,
}
use study_and_development_of.Client.Exchange.{tcp_send_receive_tt}
use study_and_development_of.Client.Exchange.Replies.{tcp_send_receive_tt-line}
use study_and_development_of.Client.Receive.{receive_and_decompress}
use study_and_development_of.Client.Receive.Stored.{StoresFiles, receive_and_decompress-stored}
use study_and_development_of.Client.Request.{
  max_path_len, max_rel_path_len, max_cmd_len, sprintf, sub_path, receive_requested, on_answer,
  request_file,
}
use study_and_development_of.Wire.Messages.{scan_sizes-requested}
use study_and_development_of.Wire.Frame.{tcp_send_receive_tt-Keeps}
use study_and_development_of.Wire.Text.{All-IsText-append, fmt_d-IsText}

pub append_cancel : (xs : Bytes) {ys zs : Bytes} → xs ++ ys ≡ xs ++ zs → ys ≡ zs
append_cancel [] e = e
append_cancel (x ∷ xs) e = append_cancel xs (ground arith)

pub with_sizes-IsText :
    (text : Bytes) (a b : ℤ) → All IsText text → All IsText (with_sizes text a b)
with_sizes-IsText text a b h =
    All-IsText-append text _ h
      (omega arith, All-IsText-append (fmt_d a) _ (fmt_d-IsText a) (omega arith, fmt_d-IsText b))

-- The answer to SEND_FILE.
abbrev pub answer_line : Bytes → ℕ → Bytes → Bytes
answer_line path n out = with_sizes (codes "SENDING REQUESTED " ++ path) (pos n) (pos (length out))

-- The names that a request makes fit the client's arrays.
pub record RequestFits (rel dir temp : Bytes) : Type 0 where
  pub cmd : length (codes "SEND_FILE " ++ (rel ++ (b'\n' ∷ []))) < max_cmd_len
  pub temp_is : (scan_word (skip_until b'/' (some rel))).0 ≡ some temp
  pub temp_fits : length temp < max_rel_path_len
  pub file_path : length (dir ++ (b'/' ∷ temp)) < max_path_len

module _ {S : Type 0} (w : World S) where
  pub sprintf-fits :
      (size : ℕ) (s : Bytes) (u : S) → length s < size → sprintf w size s u ≡ done s u
  sprintf-fits size s u h = rw (lt→ltb (length s) size h) refl

  sub_path-fits :
      (rel dir temp : Bytes) (u : S) → RequestFits rel dir temp → sub_path w rel u ≡ done temp u
  sub_path-fits rel dir temp u h =
      rw (h.temp_is, sub_path) (sprintf-fits max_rel_path_len temp u h.temp_fits)

module _ {S : Type 0} (w : World S) (unread : S → Bytes) (file : S → Bytes → Option Bytes)
    (stream : IsStream w unread) (files : StoresFiles w unread file)
    (memory : (n : ℕ) (u : S) → w.malloc n u ≡ true) where
  -- From the sizes on: the bytes are received, uncompressed and stored under the local name.
  receive_requested-stored :
      (rel dir temp contents out rest rec : Bytes) (b : TcpBuffer) (s : S)
      → RequestFits rel dir temp
      → 3 < length rec
      → w.uncompress (to_size (pos (length contents))) out ≡ some contents
      → length contents < 2 ^ 31
      → length out < 2 ^ 31
      → files.can_write s (dir ++ (b'/' ∷ temp)) ≡ true
      → Pending unread b s (out ++ (codes "END" ++ b'\n' ∷ rest))
      → (b' : TcpBuffer) × (t : S) × (receive_requested w rec rel dir b
            (some (pos (length contents)), some (pos (length out)))
            s
          ≡ done (pos 0, b') t)
        × (file t (dir ++ (b'/' ∷ temp)) ≡ some contents)
        × Pending unread b' t rest
  receive_requested-stored rel dir temp contents out rest rec b s fits room packed small counted
        writable p =
      let name = dir ++ (b'/' ∷ temp) in
      let (b', t, got, stored, p') =
        receive_and_decompress-stored w unread file files stream out rest contents rec name b s
          (pos (length contents)) memory packed small counted room writable p in
      (
        b',
        t,
        bind-done (sub_path w rel) _ (sub_path-fits w rel dir temp s fits)
            ∙ bind-done (sprintf w max_path_len name) _
                (sprintf-fits w max_path_len name s fits.file_path)
            ∙ bind-done
                (receive_and_decompress w rec b name (pos (length out)) (pos (length contents))) _
                got,
        stored,
        p',
      )

  -- The answer to the command is on the connection.
  pub request_file-stored :
      (rel dir temp path contents out rest rec : Bytes) (b : TcpBuffer) (s s1 : S)
      → RequestFits rel dir temp
      → IsWord path
      → All IsText path
      → length (answer_line path (length contents) out) < length rec
      → w.uncompress (to_size (pos (length contents))) out ≡ some contents
      → length contents < 2 ^ 31
      → length out < 2 ^ 31
      → files.can_write s (dir ++ (b'/' ∷ temp)) ≡ true
      → w.tcp_send (codes "SEND_FILE " ++ (rel ++ (b'\n' ∷ []))) s ≡ done (pos 1) s1
      → Pending unread b s1
          (transfer (codes "SENDING REQUESTED " ++ path) (length contents) out ++ rest)
      → (b' : TcpBuffer) × (t : S) × (request_file w rec b rel dir s ≡ done (pos 0, b') t)
        × (file t (dir ++ (b'/' ∷ temp)) ≡ some contents)
        × Pending unread b' t rest
  unfolding request_file starts_with
  request_file-stored rel dir temp path contents out rest rec b s s1 fits word text room packed
        small counted writable went p =
      let header = codes "SENDING REQUESTED " ++ path in
      let line = answer_line path (length contents) out in
      let cmd = codes "SEND_FILE " ++ (rel ++ (b'\n' ∷ [])) in
      let (b1, array, s2, asked, holds, size, p1) =
        tcp_send_receive_tt-line w unread stream line (out ++ (codes "END" ++ b'\n' ∷ rest)) cmd rec
          b s s1 went
          (with_sizes-IsText header (pos (length contents)) (pos (length out))
            (All-IsText-append (codes "SENDING REQUESTED ") path (omega arith) text))
          (omega arith) room refl (subst (Pending unread b s1) (simp append_assoc) p) in
      let (b2, t, got, stored, p2) =
        receive_requested-stored rel dir temp contents out rest rec b1 s2 fits (omega arith) packed
          small counted
          ((tcp_send_receive_tt-Keeps w (λ v. files.can_write v (dir ++ (b'/' ∷ temp)) ≡ true) []
              (files.room (dir ++ (b'/' ∷ temp))) b cmd rec).keeps
            s _ s2 writable asked)
          p1 in
      (
        b2,
        t,
        bind-done (sprintf w max_cmd_len cmd) _ (sprintf-fits w max_cmd_len cmd s fits.cmd)
            ∙ bind-done (tcp_send_receive_tt w b cmd rec) (on_answer w rec rel dir) asked
            ∙ rw holds (
                rw (scan_sizes-requested path (pos (length contents)) (pos (length out)) word) got),
        stored,
        p2,
      )

-- What the two sides rely on in zlib: with a buffer of the original size, uncompress gives back what
-- compress was given.
abbrev pub Unpacks : {R S : Type 0} → World R → World S → Type 0
Unpacks sw w =
    (bound : ℕ) (x y : Bytes)
    → length x < 2 ^ 64
    → sw.compress bound x ≡ some y
    → w.uncompress (length x) y ≡ some x

pub to_size-small : (n : ℕ) → n < 2 ^ 64 → to_size (pos n) ≡ n
to_size-small n h = omega arith

pub done-injective : {S A : Type 0} {a b : A} {s t : S} → done a s ≡ done b t → s ≡ t
done-injective e = cc

-- The server has sent a file by CompressAndSend as the answer to SEND_FILE, with less than 2^31
-- bytes before and after compression, and zlib gives back what it was given; the client has
-- memory, the file can be written when the request is made, which sending and receiving do not
-- change, and the names fit its arrays. If the client finds that answer on the connection after it
-- has sent SEND_FILE, in packets of any size and with any bytes behind it, RequestFile returns 0,
-- the file under the local name holds the bytes of the server's file, and the connection goes on
-- behind the answer.
pub request_file-fetch :
    {R S : Type 0} (sw : World R) (sent : R → Bytes) (w : World S) (unread : S → Bytes)
    (file : S → Bytes → Option Bytes)
    → SendsAll sw sent
    → IsStream w unread
    → (files : StoresFiles w unread file) → ((n : ℕ) (u : S) → w.malloc n u ≡ true)
    → Unpacks sw w
    → (path contents out answer : Bytes) (r r1 : R) → Compresses sw path contents out r
    → length contents < 2 ^ 31
    → length out < 2 ^ 31
    → compress_and_send sw path (codes "SENDING REQUESTED " ++ path) r ≡ done (pos 0) r1
    → sent r1 ≡ sent r ++ answer
    → (rel dir temp rest rec : Bytes) (b : TcpBuffer) (s s1 : S) → RequestFits rel dir temp
    → IsWord path
    → All IsText path
    → length rec ≡ bufsiz + 1
    → length (answer_line path (length contents) out) < bufsiz
    → files.can_write s (dir ++ (b'/' ∷ temp)) ≡ true
    → w.tcp_send (codes "SEND_FILE " ++ (rel ++ (b'\n' ∷ []))) s ≡ done (pos 1) s1
    → Pending unread b s1 (answer ++ rest)
    → (b' : TcpBuffer) × (t : S) × (request_file w rec b rel dir s ≡ done (pos 0, b') t)
      × (file t (dir ++ (b'/' ∷ temp)) ≡ some contents)
      × Pending unread b' t rest
request_file-fetch sw sent w unread file net stream files memory zlib path contents out answer r r1
      readable small counted ran out_is rel dir temp rest rec b s s1 fits word text array line
      writable went p =
    let (r2, run, emitted) =
      compress_and_send-transfer sw sent net path (codes "SENDING REQUESTED " ++ path) contents out
        r readable line in
    let same : r1 ≡ r2 = done-injective (sym ran ∙ run) in
    let answer_is : answer ≡ transfer (codes "SENDING REQUESTED " ++ path) (length contents) out =
      append_cancel (sent r) (sym out_is ∙ ap sent same ∙ emitted) in
    request_file-stored w unread file stream files memory rel dir temp path contents out rest rec b
      s s1 fits word text (omega arith)
      (rw (to_size-small (length contents) (omega arith))
        (zlib (sw.compress_bound (length contents)) contents out (omega arith) readable.packs))
      small counted writable went (subst (λ a. Pending unread b s1 (a ++ rest)) answer_is p)
