-- ===== src/Server/Disk/Steps.antt =====
-- SendNext and RemoveFile on the disk.
use mathlib.Core.List.Perm
use study_and_development_of.Base.{
  ℕ, ◌+◌, ◌<◌, ◌≡◌, refl, ◌∙◌, ap, ℤ, pos, Bytes, List, [], ◌∷◌, ◌++◌, length, arith,
}
use study_and_development_of.Libc.Format.{snprintf-fits}
use study_and_development_of.World.{World, done, bind-done}
use study_and_development_of.Common.Info.{NextFile, TrInfo}
use study_and_development_of.Server.Logger.Commands.{proc_number-idle}
use study_and_development_of.Server.Scan.Numbers.{Ascends}
use study_and_development_of.Server.Scan.Next.{next_tr, find_next_tr-files, find_next_tr-none}
use study_and_development_of.Server.Transfer.{
  bufsiz, sending, empty, empty_text, sending_text, decide_next, send_decided, send_next,
}
use study_and_development_of.Server.Transfer.Emits.{with_sizes, transfer, SendsAll}
use study_and_development_of.Server.Transfer.Next.{send_next-decides, send_next-transfer}
use study_and_development_of.Server.Frame.{send_next-Keeps}
use study_and_development_of.Server.Disk.{file_tr, Disk, Duplex, Named}

decide_next-sending :
    (d : Bytes) (n : ℤ) (i : ℕ) (is : List ℕ) → decide_next (pos 0) (file_tr d n i is) ≡ sending
unfolding decide_next
decide_next-sending d n i is = ground arith

decide_next-empty :
    (d : Bytes) (n : ℤ) (f : NextFile)
    → decide_next (pos 0) (next_tr d n (record f { count = pos 0 })) ≡ empty
unfolding decide_next
decide_next-empty d n f = refl

module _ {S : Type 0} (w : World S) (unread sent : S → Bytes) (logger_name dir_name d : Bytes)
    (n : ℤ) (contents out : ℕ → Bytes)
    (disk : Disk w unread sent logger_name dir_name d n contents out) (net : SendsAll w sent)
    (duplex : Duplex w unread sent) (names : Named w d) where
  -- SendNext with files on the disk: the lowest goes out.
  pub send_next-lowest :
      (tr0 : TrInfo) (i : ℕ) (is : List ℕ) (s : S)
      → disk.Stock (i ∷ is) s
      → Ascends i is
      → length (
          with_sizes
            (sending_text (file_tr d n i is))
            (pos (length (contents i)))
            (pos (length (out i))))
        < bufsiz
      → (t : S) × (send_next w tr0 logger_name dir_name s ≡ done (pos 0) t)
        × disk.Stock (i ∷ is) t
        × (sent t
            ≡ sent s ++ transfer (sending_text (file_tr d n i is)) (length (contents i)) (out i))
        × (unread t ≡ unread s)
  send_next-lowest tr0 i is s stock up fits =
      let (tops, top, one) = disk.tops (i ∷ is) s stock in
      let (xs, opened, same) = disk.files (i ∷ is) s stock in
      let (u, polled, stock1, sent1, unread1) = disk.idle (i ∷ is) s stock in
      let (t, run, went) =
        send_next-transfer w sent net tr0 (file_tr d n i is) logger_name dir_name (contents i)
          (out i) w.junk_int (pos 0) s u
          (find_next_tr-files w tr0 dir_name d n s tops xs i is top one names.counts names.short
            (disk.lies (i ∷ is) s stock) opened same up (disk.ints (i ∷ is) s stock))
          names.no_dir names.no_file (proc_number-idle w logger_name s u polled) refl
          (decide_next-sending d n i is) (disk.readable i is u stock1) fits in
      (
        t,
        run,
        (send_next-Keeps w (disk.Stock (i ∷ is)) (disk.quiet (i ∷ is)) tr0 logger_name
              dir_name).keeps
            s (pos 0) t stock run,
        went
            ∙ ap
                (λ b. b ++ transfer (sending_text (file_tr d n i is)) (length (contents i)) (out i))
                sent1,
        (send_next-Keeps w (λ v. unread v ≡ unread s) (duplex.sending (unread s)) tr0 logger_name
              dir_name).keeps
            s (pos 0) t refl run,
      )

  -- SendNext with no files on the disk: EMPTY.
  pub send_next-empty :
      (tr0 : TrInfo) (s : S)
      → disk.Stock [] s
      → length (empty_text (file_tr d n 0 [])) < bufsiz
      → (t : S) × (send_next w tr0 logger_name dir_name s ≡ done (pos 0) t)
        × disk.Stock [] t
        × (sent t ≡ sent s ++ empty_text (file_tr d n 0 []))
        × (unread t ≡ unread s)
  unfolding send_decided empty_text
  send_next-empty tr0 s stock fits =
      let (tops, top, one) = disk.tops [] s stock in
      let (xs, opened, same) = disk.files [] s stock in
      let (u, polled, stock1, sent1, unread1) = disk.idle [] s stock in
      let f = record (tr0.f) { count = pos 0 } in
      let text = empty_text (file_tr d n 0 []) in
      let run : send_next w tr0 logger_name dir_name s ≡ done (pos 0) (net.after text u) =
        send_next-decides w tr0 (next_tr d n f) logger_name dir_name w.junk_int (pos 0) s u
          (find_next_tr-none w tr0 dir_name d n s tops xs top one names.counts names.short
            (disk.lies [] s stock) opened (Perm.eq-nil same))
          names.no_dir names.no_file (proc_number-idle w logger_name s u polled) refl
        ∙ rw (decide_next-empty d n tr0.f) (
            rw (snprintf-fits (bufsiz + 1) text (omega arith))
              (bind-done (w.tcp_send text) _ (net.text text u))) in
      (
        net.after text u,
        run,
        (send_next-Keeps w (disk.Stock []) (disk.quiet []) tr0 logger_name dir_name).keeps s (pos 0)
            (net.after text u) stock run,
        net.sent-after text u ∙ ap (λ b. b ++ text) sent1,
        (send_next-Keeps w (λ v. unread v ≡ unread s) (duplex.sending (unread s)) tr0 logger_name
              dir_name).keeps
            s (pos 0) (net.after text u) refl run,
      )
