-- ===== src/Wire/Remaining.antt =====
-- RequestAllReaminingFiles: the requests for the last files of a directory, one after another.
pub mod Stored
use study_and_development_of.Base.{
  ℕ, ◌^◌, ◌<◌, ◌≡◌, ◌≢◌, refl, sym, ◌∙◌, ap, subst, ℤ, pos, negsuc, Bytes, List, [], ◌∷◌, ◌++◌,
  append_assoc, append-nil, codes, starts_with, c_str, length, Option, some, All, true, lt→ltb,
}
use study_and_development_of.Libc.Scan.{assigned}
use study_and_development_of.Libc.RoundTrip.{IsWord}
use study_and_development_of.World.{Prog, World, done, pure, ◌>>=◌, bind-done}
use study_and_development_of.World.Keeps.{
  Keeps, pure-Keeps, known-Keeps, bind-Keeps, if-Keeps, continue-done,
}
use study_and_development_of.Common.Info.{NextDir}
use study_and_development_of.Common.TcpBuffer.{TcpBuffer}
use study_and_development_of.Common.Compression.{to_size}
use study_and_development_of.Common.Stream.{IsStream, Pending}
use study_and_development_of.Common.Stream.Lines.{IsText}
use study_and_development_of.Server.Transfer.Emits.{transfer}
use study_and_development_of.Client.Exchange.{tcp_send_receive_tt}
use study_and_development_of.Client.Receive.{receive_and_decompress}
use study_and_development_of.Client.Receive.Stored.{StoresFiles}
use study_and_development_of.Client.Request.{
  max_path_len, max_rel_path_len, max_cmd_len, sprintf, sub_path, receive_requested, on_answer,
  request_file, request_then, scan_sizes, remaining_files, request_all_remaining_files,
}
use study_and_development_of.Client.Transmission.Waits.{Sending}
use study_and_development_of.Wire.Fetch.{answer_line, RequestFits, request_file-stored}
use study_and_development_of.Wire.Said.{Says, tcp_send_receive_tt-said}
use study_and_development_of.Wire.Frame.{
  Unwritten, Untouched, unwritten, tcp_send_receive_tt-Keeps, receive_and_decompress-Keeps,
}

-- A file that is asked for by the name `rel`: its local name below the directory, the path in the
-- answer, its bytes and their compressed form.
pub record Asked : Type 0 where
  pub rel : Bytes
  pub temp : Bytes
  pub path : Bytes
  pub contents : Bytes
  pub out : Bytes

abbrev pub asked_file : Bytes → Asked → Bytes
asked_file dir x = dir ++ (b'/' ∷ x.temp)

abbrev pub asked_answers : List Asked → Bytes → Bytes
asked_answers [] rest = rest
asked_answers (x ∷ xs) rest =
    transfer (codes "SENDING REQUESTED " ++ x.path) (length x.contents) x.out
    ++ asked_answers xs rest

abbrev pub rels : List Asked → List Bytes
rels [] = []
rels (x ∷ xs) = x.rel ∷ rels xs

-- The names of the remaining files, in the order of the requests.
abbrev pub remaining_list : NextDir → List Bytes
remaining_list d =
    let (pcd_data, pcd_info, other_data, other_info) = remaining_files d in
    pcd_data ∷ pcd_info ∷ other_data ∷ other_info ∷ []

-- What the client can receive as an answer to the request.
pub record AskedFits {S : Type 0} (w : World S) (rec dir : Bytes) (x : Asked) : Type 0 where
  pub names : RequestFits x.rel dir x.temp
  pub word : IsWord x.path
  pub text : All IsText x.path
  pub line : length (answer_line x.path (length x.contents) x.out) < length rec
  pub packed : w.uncompress (to_size (pos (length x.contents))) x.out ≡ some x.contents
  pub contents_small : length x.contents < 2 ^ 31
  pub out_small : length x.out < 2 ^ 31

-- The files have different local names.
abbrev pub AskedApart : Bytes → List Asked → Type 0
AskedApart dir [] = Unit
AskedApart dir (x ∷ xs) = All (λ y. asked_file dir y ≢ asked_file dir x) xs × AskedApart dir xs

-- The commands that ask for the files.
abbrev pub asked_commands : List Bytes → Bytes → Bytes
asked_commands [] rest = rest
asked_commands (rel ∷ rels) rest =
    (codes "SEND_FILE " ++ (rel ++ (b'\n' ∷ []))) ++ asked_commands rels rest

pub nonempty : (dir temp : Bytes) → dir ++ (b'/' ∷ temp) ≢ []
nonempty [] temp e = cc
nonempty (c ∷ dir) temp e = cc

module _ {S : Type 0} (w : World S) where
  sprintf-pure : (size : ℕ) (s : Bytes) → length s < size → sprintf w size s ≡ pure s
  sprintf-pure size s h = rw (lt→ltb (length s) size h) refl

  sub_path-pure : (rel dir temp : Bytes) → RequestFits rel dir temp → sub_path w rel ≡ pure temp
  sub_path-pure rel dir temp h =
      rw (h.temp_is, sub_path) (sprintf-pure max_rel_path_len temp h.temp_fits)

  -- The requests in their order.
  abbrev ask_all : Bytes → Bytes → List Bytes → TcpBuffer → Prog S (ℤ × TcpBuffer)
  ask_all rec dir [] b = pure (pos 0, b)
  ask_all rec dir (rel ∷ rels) b = request_then w rec dir rel (ask_all rec dir rels) b

  request_all-ask_all :
      (rec : Bytes) (b : TcpBuffer) (d : NextDir) (dir : Bytes)
      → request_all_remaining_files w rec b d dir ≡ ask_all rec dir (remaining_list d) b
  unfolding request_all_remaining_files remaining_files
  request_all-ask_all rec b d dir = refl

  -- What receive_requested does with the name of the file, and with the path below the directory.
  abbrev receive_as : Bytes → TcpBuffer → Option ℤ × Option ℤ → Bytes → Prog S (ℤ × TcpBuffer)
  receive_as rec b (a, z) file_path =
      receive_and_decompress w rec b file_path (assigned z w.junk_int) (assigned a w.junk_int)
      >>= λ (ret, len, b'). pure (ret, b')

  abbrev receive_below :
      Bytes → Bytes → TcpBuffer → Option ℤ × Option ℤ → Bytes → Prog S (ℤ × TcpBuffer)
  receive_below rec dir b sizes temp =
      sprintf w max_path_len (dir ++ (b'/' ∷ temp)) >>= receive_as rec b sizes

  module _ (P : S → Type 0) (name : Bytes) (h : Unwritten w P name) where
    receive_requested-Keeps :
        (rec rel dir temp : Bytes) (b : TcpBuffer) (sizes : Option ℤ × Option ℤ)
        → RequestFits rel dir temp
        → dir ++ (b'/' ∷ temp) ≢ name
        → Keeps P (receive_requested w rec rel dir b sizes)
    receive_requested-Keeps rec rel dir temp b (a, z) fits differs =
        let name' = dir ++ (b'/' ∷ temp) in
        rw (sub_path-pure rel dir temp fits) (
          known-Keeps P temp (receive_below rec dir b (a, z)) (
            rw (sprintf-pure max_path_len name' fits.file_path) (
              known-Keeps P name' (receive_as rec b (a, z)) (
                bind-Keeps P
                  (receive_and_decompress w rec b name' (assigned z w.junk_int)
                    (assigned a w.junk_int))
                  _ (receive_and_decompress-Keeps w P name h name' differs rec b _ _)
                  λ (ret, len, b'). pure-Keeps P (ret, b')))))

  -- A request says its command.
  request_file-said :
      (rec rel dir temp : Bytes) (b : TcpBuffer) (s u : S) {r : ℤ × TcpBuffer}
      → RequestFits rel dir temp
      → request_file w rec b rel dir s ≡ done r u
      → Says w s u (codes "SEND_FILE " ++ (rel ++ (b'\n' ∷ [])))
  unfolding request_file
  request_file-said rec rel dir temp b s u fits e said speaks =
      let cmd = codes "SEND_FILE " ++ (rel ++ (b'\n' ∷ [])) in
      let P : S → Type 0 = λ v. said v ≡ said s ++ cmd in
      let name' = dir ++ (b'/' ∷ temp) in
      let run : (tcp_send_receive_tt w b cmd rec >>= on_answer w rec rel dir) s ≡ done _ u =
        sym (
          ap
            (λ (m : Prog S Bytes).
              (m >>= λ c. tcp_send_receive_tt w b c rec >>= on_answer w rec rel dir) s)
            (sprintf-pure max_cmd_len cmd fits.cmd))
        ∙ e in
      let ((b', buf), v, asked, others) = continue-done _ (tcp_send_receive_tt w b cmd rec s) run in
      (if-Keeps P (starts_with (codes "SENDING REQUESTED") (c_str buf)) _ _
          (receive_requested-Keeps P (codes "") (speaks.quiet (said s ++ cmd) (codes "")) rec rel
            dir temp b' (scan_sizes (c_str buf)) fits (nonempty dir temp))
          (pure-Keeps P (negsuc 4, b'))).keeps
        v _ u (tcp_send_receive_tt-said w said speaks b cmd rec s v asked) others

  module _ (P : S → Type 0) (name : Bytes) (h : Untouched w P name) where
    request_file-Keeps :
        (rec rel dir temp : Bytes) (b : TcpBuffer)
        → RequestFits rel dir temp
        → dir ++ (b'/' ∷ temp) ≢ name
        → Keeps P (request_file w rec b rel dir)
    unfolding request_file
    request_file-Keeps rec rel dir temp b fits differs =
        let cmd = codes "SEND_FILE " ++ (rel ++ (b'\n' ∷ [])) in
        rw (sprintf-pure max_cmd_len cmd fits.cmd) (
          known-Keeps P cmd (λ c. tcp_send_receive_tt w b c rec >>= on_answer w rec rel dir)
            (bind-Keeps P (tcp_send_receive_tt w b cmd rec) (on_answer w rec rel dir)
              (tcp_send_receive_tt-Keeps w P name h b cmd rec)
              λ (b', buf).
                if-Keeps P (starts_with (codes "SENDING REQUESTED") (c_str buf)) _ _
                  (receive_requested-Keeps P name (unwritten h) rec rel dir temp b'
                    (scan_sizes (c_str buf)) fits differs)
                  (pure-Keeps P (negsuc 4, b'))))
