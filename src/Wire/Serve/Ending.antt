-- ===== src/Wire/Serve/Ending.antt =====
-- The end of a directory: EMPTY, the remaining files, REMOVE_DIR, NO_TR and CLOSE.
use study_and_development_of.Base.{
  ℕ, suc, ◌+◌, ◌<◌, ◌≡◌, refl, sym, ◌∙◌, ap, subst, ℤ, Bytes, List, [], ◌∷◌, ◌++◌, append_assoc,
  codes, length, length-append, All, some, arith,
}
use study_and_development_of.Libc.Format.{snprintf, snprintf-fits}
use study_and_development_of.World.{World, done}
use study_and_development_of.Common.Info.{timestamp_len, TrInfo}
use study_and_development_of.Common.Stream.{IsStream, Pending}
use study_and_development_of.Server.Transfer.{bufsiz, data_dir, empty_text}
use study_and_development_of.Server.Transfer.Emits.{transfer, SendsAll}
use study_and_development_of.Server.Handler.{logger_name, Child, child_loop}
use study_and_development_of.Server.Disk.{file_tr, Disk, Duplex, Named, Leftovers}
use study_and_development_of.Server.Disk.Rest.{asked_path, dir_removed}
use study_and_development_of.Client.Request.{max_rel_path_len}
use study_and_development_of.Wire.Text.{All-IsText-append}
use study_and_development_of.Wire.Remaining.{Asked, asked_answers}
use study_and_development_of.Wire.Finish.{dir_removed_line}
use study_and_development_of.Client.Transmission.Waits.{waits}
use study_and_development_of.Wire.Session.Ending.{ending_answers}
use study_and_development_of.Wire.Serve.{answered_round}
use study_and_development_of.Wire.Serve.Asks.{ask_commands, AskFits, Readable, asked_rounds}
use study_and_development_of.Wire.Serve.Closing.{
  remove_line, closing_round, empty-Answers, remove_dir-Answers, no_tr-Answers,
}
use study_and_development_of.Wire.Finish.{empty_line-text}

-- The commands of the client behind those for the files.
abbrev pub ending_commands : Bytes → List Asked → Bytes → Bytes
ending_commands d ys rest =
    codes "SEND_NEXT\n"
    ++ ask_commands ys (
        snprintf max_rel_path_len (codes "REMOVE_DIR " ++ (d ++ b'\n' ∷ []))
        ++ (codes "SEND_NEXT\n" ++ (codes "CLOSE\n" ++ rest)))

remove_command-line :
    (d : Bytes)
    → length d < timestamp_len
    → snprintf max_rel_path_len (codes "REMOVE_DIR " ++ (d ++ b'\n' ∷ []))
      ≡ remove_line d ++ b'\n' ∷ []
remove_command-line d short =
    snprintf-fits max_rel_path_len (codes "REMOVE_DIR " ++ (d ++ b'\n' ∷ []))
      (omega (arith, length-append d (b'\n' ∷ [])))
    ∙ sym (append_assoc (codes "REMOVE_DIR ") d (b'\n' ∷ []))

asked_answers-append :
    (ys : List Asked) (rest : Bytes) → asked_answers ys [] ++ rest ≡ asked_answers ys rest
asked_answers-append [] rest = refl
asked_answers-append (y ∷ ys) rest =
    append_assoc (transfer (codes "SENDING REQUESTED " ++ y.path) (length y.contents) y.out)
      (asked_answers ys []) rest
    ∙ ap (λ b. transfer (codes "SENDING REQUESTED " ++ y.path) (length y.contents) y.out ++ b)
        (asked_answers-append ys rest)

-- What the rounds send, one after the other.
ending_answers-parts :
    (d : Bytes) (n : ℤ) (ys : List Asked) (before : Bytes)
    → (before ++ (empty_text (file_tr d n 0 []) ++ asked_answers ys []))
        ++ (dir_removed d ++ codes "NO_TR\n")
      ≡ before ++ ending_answers 0 (file_tr d n 0 []) ys (codes "NO_TR\n")
unfolding waits
ending_answers-parts d n ys before =
    rw
      (
        empty_line-text (file_tr d n 0 []),
        sym (asked_answers-append ys (dir_removed_line d ++ b'\n' ∷ codes "NO_TR\n")),
      )
      (simp append_assoc refl)

module _ {S : Type 0} (w : World S) (tr0 : TrInfo) (unread sent : S → Bytes)
    (stream : IsStream w unread) (duplex : Duplex w unread sent) (d : Bytes) (n : ℤ)
    (contents out : ℕ → Bytes) (net : SendsAll w sent)
    (disk : Disk w unread sent logger_name data_dir d n contents out) (names : Named w d)
    (left : Leftovers w unread sent logger_name data_dir (asked_path d) (disk.Stock [])) where
  -- The rounds behind the remaining files.
  closing_rounds :
      (rest : Bytes) (c : Child) (s : S)
      → disk.Stock [] s
      → length (remove_line d) < length c.cmd
      → 9 < length c.cmd
      → Pending unread c.b s
          (remove_line d ++ b'\n' ∷ (codes "SEND_NEXT\n" ++ (codes "CLOSE\n" ++ rest)))
      → (c' : Child) × (t : S) × (child_loop w tr0 3 c s ≡ done (some c') t)
        × left.Gone t
        × (sent t ≡ sent s ++ (dir_removed d ++ codes "NO_TR\n"))
        × Pending unread c'.b t rest
  closing_rounds rest c s stock reply room p =
      let (c3, s3, run3, gone3, went3, size3, p3) =
        answered_round w tr0 unread sent stream duplex (remove_line d) (dir_removed d)
          (codes "SEND_NEXT\n" ++ (codes "CLOSE\n" ++ rest)) (disk.Stock []) left.Gone 2 c s
          (remove_dir-Answers w tr0 unread sent stream duplex d n contents out net disk names left)
          (disk.receive []) stock
          (All-IsText-append (codes "REMOVE_DIR ") d (omega arith) names.text) reply p in
      let (c4, s4, run4, gone4, went4, size4, p4) =
        answered_round w tr0 unread sent stream duplex (codes "SEND_NEXT") (codes "NO_TR\n")
          (codes "CLOSE\n" ++ rest) left.Gone left.Gone 1 c3 s3
          (no_tr-Answers w tr0 unread sent stream duplex d n contents out net disk names left)
          left.receive gone3 (omega arith) (subst (λ k. 9 < k) (sym size3) room) p3 in
      let (c5, s5, run5, gone5, went5, p5) =
        closing_round w tr0 unread sent stream duplex left.Gone 0 rest c4 s4 left.receive gone4
          (omega (arith, size3, size4, room)) p4 in
      (
        c5,
        s5,
        run3 ∙ run4 ∙ run5,
        gone5,
        went5 ∙ went4 ∙ rw went3 (append_assoc (sent s) (dir_removed d) (codes "NO_TR\n")),
        p5,
      )

  -- The rounds of EMPTY and of the remaining files.
  asking_rounds :
      (ys : List Asked) (rest : Bytes) (c : Child) (s : S)
      → disk.Stock [] s
      → ((v : S) → disk.Stock [] v → Readable w ys v)
      → length (empty_text (file_tr d n 0 [])) < bufsiz
      → All (AskFits (length c.cmd)) ys
      → 9 < length c.cmd
      → Pending unread c.b s (codes "SEND_NEXT\n" ++ ask_commands ys rest)
      → (c' : Child) × (t : S) × (child_loop w tr0 (suc (length ys + 3)) c s
          ≡ child_loop w tr0 3 c' t)
        × disk.Stock [] t
        × (sent t ≡ sent s ++ (empty_text (file_tr d n 0 []) ++ asked_answers ys []))
        × (length c'.cmd ≡ length c.cmd)
        × Pending unread c'.b t rest
  asking_rounds ys rest c s stock readable fits asks room p =
      let text = empty_text (file_tr d n 0 []) in
      let (c1, s1, run1, stock1, went1, size1, p1) =
        answered_round w tr0 unread sent stream duplex (codes "SEND_NEXT") text
          (ask_commands ys rest) (disk.Stock []) (disk.Stock []) (length ys + 3) c s
          (empty-Answers w tr0 unread sent stream duplex d n contents out net disk names left fits)
          (disk.receive []) stock (omega arith) room p in
      let (c2, s2, run2, stock2, went2, size2, p2) =
        asked_rounds w tr0 unread sent stream duplex net (disk.Stock []) (disk.quiet [])
          (disk.receive []) ys 3 rest c1 s1 stock1 readable
          (subst (λ k. All (AskFits k) ys) (sym size1) asks) p1 in
      (
        c2,
        s2,
        run1 ∙ run2,
        stock2,
        went2 ∙ rw went1 (append_assoc (sent s) text (asked_answers ys [])),
        size2 ∙ size1,
        p2,
      )

  -- The rounds behind the files.
  pub ending_rounds :
      (ys : List Asked) (rest : Bytes) (c : Child) (s : S)
      → disk.Stock [] s
      → ((v : S) → disk.Stock [] v → Readable w ys v)
      → length (empty_text (file_tr d n 0 [])) < bufsiz
      → All (AskFits (length c.cmd)) ys
      → length (remove_line d) < length c.cmd
      → 9 < length c.cmd
      → Pending unread c.b s (ending_commands d ys rest)
      → (c' : Child) × (t : S) × (child_loop w tr0 (suc (length ys + 3)) c s ≡ done (some c') t)
        × left.Gone t
        × (sent t ≡ sent s ++ ending_answers 0 (file_tr d n 0 []) ys (codes "NO_TR\n"))
        × Pending unread c'.b t rest
  ending_rounds ys rest c s stock readable fits asks reply room p =
      let text = empty_text (file_tr d n 0 []) in
      let closing = codes "SEND_NEXT\n" ++ (codes "CLOSE\n" ++ rest) in
      let (c1, s1, run1, stock1, went1, size1, p1) =
        asking_rounds ys (remove_line d ++ b'\n' ∷ closing) c s stock readable fits asks room (
          subst (λ x. Pending unread c.b s (codes "SEND_NEXT\n" ++ ask_commands ys x))
            (rw (remove_command-line d names.short)
              (append_assoc (remove_line d) (b'\n' ∷ []) closing))
            p) in
      let (c2, s2, run2, gone2, went2, p2) =
        closing_rounds rest c1 s1 stock1 (subst (λ k. length (remove_line d) < k) (sym size1) reply)
          (subst (λ k. 9 < k) (sym size1) room) p1 in
      (c2, s2, run1 ∙ run2, gone2, went2 ∙ rw went1 (ending_answers-parts d n ys (sent s)), p2)
