-- ===== src/Wire/Serve/Files.antt =====
-- The files of a directory, from the disk of the drone to the connection.
use study_and_development_of.Base.{
  ℕ, zero, suc, ◌+◌, ◌*◌, ◌<◌, ◌≡◌, refl, sym, ◌∙◌, ap, subst, ℤ, pos, Bytes, List, [], ◌∷◌, ◌++◌,
  append_assoc, append-nil, codes, length, All, arith, equal, starts_with,
}
use study_and_development_of.Libc.Format.{fmt_d}
use study_and_development_of.World.{World, bind-done}
use study_and_development_of.Common.Info.{TrInfo}
use study_and_development_of.Common.Stream.{IsStream, Pending}
use study_and_development_of.Common.Stream.Lines.{IsText}
use study_and_development_of.Server.Scan.Numbers.{Ascends}
use study_and_development_of.Server.Transfer.{bufsiz, data_dir, sending_text, send_next}
use study_and_development_of.Server.Transfer.Emits.{with_sizes, transfer, SendsAll}
use study_and_development_of.Server.Remove.{removed_text, remove_file}
use study_and_development_of.Server.Handler.{
  logger_name, Child, command, execute, handled, child_loop,
}
use study_and_development_of.Server.Disk.{file_tr, Disk, Duplex, Named}
use study_and_development_of.Server.Disk.Steps.{send_next-lowest}
use study_and_development_of.Client.Transmission.{remove_file_command}
use study_and_development_of.Client.Transmission.Waits.{waits}
use study_and_development_of.Wire.Messages.{
  remove_file_line, remove_file_command-line, scan_remove_file-line,
}
use study_and_development_of.Wire.Text.{All-IsText-append, fmt_d-IsText}
use study_and_development_of.Wire.Removal.{remove_file-scanned}
use study_and_development_of.Wire.Session.{Item, session_answers}
use study_and_development_of.Wire.Serve.{Answers, handled_answers, answered_round}

module _ (d : Bytes) (n : ℤ) (contents out : ℕ → Bytes) where
  -- What the client is sent of the files, and the commands with which it asks for them.
  abbrev pub item : ℕ → List ℕ → Item
  item i is = record { delays = 0; tr = file_tr d n i is; contents = contents i; out = out i }

  abbrev pub items : List ℕ → List Item
  items [] = []
  items (i ∷ is) = item i is ∷ items is

  abbrev pub file_commands : List ℕ → Bytes → Bytes
  file_commands [] rest = rest
  file_commands (i ∷ is) rest =
      codes "SEND_NEXT\n" ++ (remove_file_command (file_tr d n i is) ++ file_commands is rest)

-- The two lines of the protocol for the item fit the arrays of the server.
pub record LinesFit (size : ℕ) (x : Item) : Type 0 where
  pub answer :
      length (with_sizes (sending_text x.tr) (pos (length x.contents)) (pos (length x.out)))
      < bufsiz
  pub cmd : length (remove_file_line x.tr) < size

-- The numbers ascend.
abbrev pub Ordered : List ℕ → Type 0
Ordered [] = Unit
Ordered (i ∷ is) = Ascends i is × Ordered is

remove_file_line-IsText : (tr : TrInfo) → All IsText tr.d.first → All IsText (remove_file_line tr)
remove_file_line-IsText tr h = All-IsText-append (codes "REMOVE_FILE ") _ (omega arith) (
    All-IsText-append tr.d.first _ h (
      omega arith,
      All-IsText-append (fmt_d tr.d.logger_n) _ (fmt_d-IsText tr.d.logger_n)
          (omega arith, fmt_d-IsText tr.f.first),
    ))

module _ {S : Type 0} (w : World S) (tr0 : TrInfo) where
  pub execute-send_next :
      execute w tr0 (codes "SEND_NEXT") (command (codes "SEND_NEXT"))
      ≡ handled w tr0 (send_next w tr0 logger_name data_dir)
  unfolding execute command equal starts_with
  execute-send_next = refl

  execute-remove_file :
      (arg : Bytes)
      → execute w tr0 (codes "REMOVE_FILE " ++ arg) (command (codes "REMOVE_FILE " ++ arg))
        ≡ handled w tr0 (remove_file w (codes "REMOVE_FILE " ++ arg) data_dir)
  unfolding execute command equal starts_with
  execute-remove_file arg = refl

waits-append : (k : ℕ) (a b : Bytes) → waits k a ++ b ≡ waits k (a ++ b)
unfolding waits
waits-append zero a b = refl
waits-append (suc k) a b = ap (λ c. codes "WAIT\n" ++ c) (waits-append k a b)

-- The answers for the items, in front of what follows them.
pub session_answers-append :
    (xs : List Item) (rest : Bytes) → session_answers xs [] ++ rest ≡ session_answers xs rest
session_answers-append [] rest = refl
session_answers-append (x ∷ xs) rest =
    let ih = session_answers-append xs rest in rw waits-append (simp (append_assoc, ih) refl)

module _ {S : Type 0} (w : World S) (tr0 : TrInfo) (unread sent : S → Bytes)
    (stream : IsStream w unread) (duplex : Duplex w unread sent) (d : Bytes) (n : ℤ)
    (contents out : ℕ → Bytes) (net : SendsAll w sent)
    (disk : Disk w unread sent logger_name data_dir d n contents out) (names : Named w d) where
  send_next-Answers :
      (i : ℕ) (is : List ℕ)
      → Ascends i is
      → length (
          with_sizes
            (sending_text (file_tr d n i is))
            (pos (length (contents i)))
            (pos (length (out i))))
        < bufsiz
      → Answers w tr0 unread sent stream duplex
          (codes "SEND_NEXT")
          (transfer (sending_text (file_tr d n i is)) (length (contents i)) (out i))
          (disk.Stock (i ∷ is))
          (disk.Stock (i ∷ is))
  send_next-Answers i is up fits =
      handled_answers w tr0 unread sent stream duplex (codes "SEND_NEXT") _ (disk.Stock (i ∷ is))
        (disk.Stock (i ∷ is)) (send_next w tr0 logger_name data_dir) (execute-send_next w tr0)
        λ s stock.
          send_next-lowest w unread sent logger_name data_dir d n contents out disk net duplex names
            tr0 i is s stock up fits

  remove_file-Answers :
      (i : ℕ) (is : List ℕ)
      → Answers w tr0 unread sent stream duplex
          (remove_file_line (file_tr d n i is))
          (removed_text (pos i) d)
          (disk.Stock (i ∷ is))
          (disk.Stock is)
  remove_file-Answers i is =
      let tr = file_tr d n i is in
      let line = remove_file_line tr in
      let text = removed_text (pos i) d in
      handled_answers w tr0 unread sent stream duplex line text (disk.Stock (i ∷ is))
        (disk.Stock is) (remove_file w line data_dir) (execute-remove_file w tr0 _)
        λ s stock.
          let (t, removed, stock', went, same) = disk.removes i is s stock in
          (
            net.after text t,
            remove_file-scanned w line data_dir tr s t names.short
                  (scan_remove_file-line tr names.word) removed
                ∙ bind-done (w.tcp_send text) _ (net.text text t),
            ((disk.quiet is).send text).keeps t (pos 1) (net.after text t) stock' (net.text text t),
            net.sent-after text t ∙ ap (λ b. b ++ text) went,
            ((duplex.sending (unread s)).send text).keeps t (pos 1) (net.after text t) same
                (net.text text t),
          )

  -- The two rounds for a file.
  file_rounds :
      (i : ℕ) (is : List ℕ) (rounds : ℕ) (rest : Bytes) (c : Child) (s : S)
      → disk.Stock (i ∷ is) s
      → Ascends i is
      → LinesFit (length c.cmd) (item d n contents out i is)
      → 9 < length c.cmd
      → Pending unread c.b s
          (codes "SEND_NEXT\n" ++ (remove_file_command (file_tr d n i is) ++ rest))
      → (c' : Child) × (t : S) × (child_loop w tr0 (suc (suc rounds)) c s
          ≡ child_loop w tr0 rounds c' t)
        × disk.Stock is t
        × (sent t ≡ sent s ++ session_answers (item d n contents out i is ∷ []) [])
        × (length c'.cmd ≡ length c.cmd)
        × Pending unread c'.b t rest
  unfolding waits
  file_rounds i is rounds rest c s stock up fits room p =
      let tr = file_tr d n i is in
      let sent_file = transfer (sending_text tr) (length (contents i)) (out i) in
      let line = remove_file_line tr in
      let (c1, s1, run1, stock1, went1, size1, p1) =
        answered_round w tr0 unread sent stream duplex (codes "SEND_NEXT") sent_file
          (remove_file_command tr ++ rest) (disk.Stock (i ∷ is)) (disk.Stock (i ∷ is)) (suc rounds)
          c s (send_next-Answers i is up fits.answer) (disk.receive (i ∷ is)) stock (omega arith)
          room p in
      let (c2, s2, run2, stock2, went2, size2, p2) =
        answered_round w tr0 unread sent stream duplex line (removed_text (pos i) d) rest
          (disk.Stock (i ∷ is)) (disk.Stock is) rounds c1 s1 (remove_file-Answers i is)
          (disk.receive (i ∷ is)) stock1 (remove_file_line-IsText tr names.text)
          (subst (λ k. length line < k) (sym size1) fits.cmd)
          (subst (Pending unread c1.b s1)
            (rw (remove_file_command-line tr) (append_assoc line (b'\n' ∷ []) rest)) p1) in
      (
        c2,
        s2,
        run1 ∙ run2,
        stock2,
        went2 ∙ rw went1 (simp (append_assoc, append-nil) refl),
        size2 ∙ size1,
        p2,
      )

  -- All the files, two rounds for each.
  pub child_loop-files :
      (is : List ℕ) (rounds : ℕ) (rest : Bytes) (c : Child) (s : S)
      → disk.Stock is s
      → Ordered is
      → All (LinesFit (length c.cmd)) (items d n contents out is)
      → 9 < length c.cmd
      → Pending unread c.b s (file_commands d n contents out is rest)
      → (c' : Child) × (t : S) × (child_loop w tr0 (2 * length is + rounds) c s
          ≡ child_loop w tr0 rounds c' t)
        × disk.Stock [] t
        × (sent t ≡ sent s ++ session_answers (items d n contents out is) [])
        × (length c'.cmd ≡ length c.cmd)
        × Pending unread c'.b t rest
  child_loop-files [] rounds rest c s stock up fits room p =
      let none_left : 2 * length {A = ℕ} [] + rounds ≡ rounds = omega arith in
      (c, s, ap (λ k. child_loop w tr0 k c s) none_left, stock, sym (append-nil (sent s)), refl, p)
  child_loop-files (i ∷ is) rounds rest c s stock up fits room p =
      let two_more : 2 * length (i ∷ is) + rounds ≡ suc (suc (2 * length is + rounds)) =
        omega arith in
      let x = item d n contents out i is in
      let (c1, s1, run, stock1, went, size, p1) =
        file_rounds i is (2 * length is + rounds) (file_commands d n contents out is rest) c s stock
          up.0 fits.0 room p in
      let (c2, s2, runs, stock2, went2, size2, p2) =
        child_loop-files is rounds rest c1 s1 stock1 up.1
          (subst (λ k. All (LinesFit k) (items d n contents out is)) (sym size) fits.1)
          (subst (λ k. 9 < k) (sym size) room) p1 in
      (
        c2,
        s2,
        ap (λ k. child_loop w tr0 k c s) two_more ∙ run ∙ runs,
        stock2,
        went2
            ∙ rw went (
                append_assoc (sent s) (session_answers (x ∷ []) [])
                  (session_answers (items d n contents out is) [])
                ∙ ap (λ a. sent s ++ a)
                    (session_answers-append (x ∷ [])
                      (session_answers (items d n contents out is) []))),
        size2 ∙ size,
        p2,
      )
