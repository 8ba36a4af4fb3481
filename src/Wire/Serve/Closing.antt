-- ===== src/Wire/Serve/Closing.antt =====
-- What the server answers when the files are gone: EMPTY, REMOVE_DIR, NO_TR and CLOSE.
use study_and_development_of.Base.{
  ℕ, suc, ◌<◌, ◌≡◌, refl, ◌∙◌, ap, ℤ, pos, Bytes, [], ◌++◌, codes, length, some, false, arith,
  equal, starts_with,
}
use study_and_development_of.World.{World, done, bind-done}
use study_and_development_of.World.Keeps.{Keeps}
use study_and_development_of.Common.Info.{TrInfo}
use study_and_development_of.Common.Stream.{IsStream, Pending}
use study_and_development_of.Common.Stream.Reads.{tcp_readline-Keeps}
use study_and_development_of.Server.Transfer.{bufsiz, data_dir, empty_text, send_next}
use study_and_development_of.Server.Transfer.Emits.{SendsAll}
use study_and_development_of.Server.Remove.{remove_dir}
use study_and_development_of.Server.Handler.{
  logger_name, Child, command, execute, handled, round, child_loop,
}
use study_and_development_of.Server.Handler.Rounds.{executes, round-read}
use study_and_development_of.Server.Disk.{file_tr, Disk, Duplex, Named, Leftovers}
use study_and_development_of.Server.Disk.Steps.{send_next-empty}
use study_and_development_of.Server.Disk.Rest.{
  asked_path, dir_removed, remove_dir-removed, send_next-gone,
}
use study_and_development_of.Wire.Serve.{Answers, handled_answers}
use study_and_development_of.Wire.Serve.Files.{execute-send_next}

abbrev pub remove_line : Bytes → Bytes
remove_line d = codes "REMOVE_DIR " ++ d

module _ {S : Type 0} (w : World S) (tr0 : TrInfo) where
  execute-remove_dir :
      (arg : Bytes)
      → execute w tr0 (codes "REMOVE_DIR " ++ arg) (command (codes "REMOVE_DIR " ++ arg))
        ≡ handled w tr0 (remove_dir w (codes "REMOVE_DIR " ++ arg) data_dir)
  unfolding execute command equal starts_with
  execute-remove_dir arg = refl

  executes-close : (c : Child) (s : S) → executes w tr0 (codes "CLOSE") c s ≡ done (false, c) s
  unfolding execute command equal starts_with
  executes-close c s = refl

module _ {S : Type 0} (w : World S) (tr0 : TrInfo) (unread sent : S → Bytes)
    (stream : IsStream w unread) (duplex : Duplex w unread sent) where
  -- The round of CLOSE, which sends nothing.
  pub closing_round :
      (P : S → Type 0) (rounds : ℕ) (rest : Bytes) (c : Child) (s : S)
      → ((array : Bytes) → Keeps P (w.tcp_receive array))
      → P s
      → 5 < length c.cmd
      → Pending unread c.b s (codes "CLOSE\n" ++ rest)
      → (c' : Child) × (t : S) × (child_loop w tr0 (suc rounds) c s ≡ done (some c') t)
        × P t
        × (sent t ≡ sent s)
        × Pending unread c'.b t rest
  unfolding child_loop
  closing_round P rounds rest c s reading holds room p =
      let (b, array, t, read, run, is_line, size, p1) =
        round-read w tr0 unread stream (codes "CLOSE") rest c s (omega arith) room p in
      let c' : Child = record { b = b; cmd = array } in
      (
        c',
        t,
        bind-done (round w tr0 c) _ (run ∙ executes-close w tr0 c' t),
        (tcp_readline-Keeps w P reading c.b c.cmd).keeps s _ t holds read,
        (tcp_readline-Keeps w (λ v. sent v ≡ sent s) (duplex.receiving (sent s)) c.b c.cmd).keeps s
            _ t refl read,
        p1,
      )

module _ {S : Type 0} (w : World S) (tr0 : TrInfo) (unread sent : S → Bytes)
    (stream : IsStream w unread) (duplex : Duplex w unread sent) (d : Bytes) (n : ℤ)
    (contents out : ℕ → Bytes) (net : SendsAll w sent)
    (disk : Disk w unread sent logger_name data_dir d n contents out) (names : Named w d)
    (left : Leftovers w unread sent logger_name data_dir (asked_path d) (disk.Stock [])) where
  pub empty-Answers :
      length (empty_text (file_tr d n 0 [])) < bufsiz
      → Answers w tr0 unread sent stream duplex
          (codes "SEND_NEXT")
          (empty_text (file_tr d n 0 []))
          (disk.Stock [])
          (disk.Stock [])
  empty-Answers fits =
      handled_answers w tr0 unread sent stream duplex (codes "SEND_NEXT") _ (disk.Stock [])
        (disk.Stock []) (send_next w tr0 logger_name data_dir) (execute-send_next w tr0)
        λ s stock.
          send_next-empty w unread sent logger_name data_dir d n contents out disk net duplex names
            tr0 s stock fits

  pub remove_dir-Answers :
      Answers w tr0 unread sent stream duplex
        (remove_line d)
        (dir_removed d)
        (disk.Stock [])
        left.Gone
  remove_dir-Answers =
      let text = dir_removed d in
      handled_answers w tr0 unread sent stream duplex (remove_line d) text (disk.Stock []) left.Gone
        (remove_dir w (remove_line d) data_dir) (execute-remove_dir w tr0 d)
        λ s stock.
          let (t, cleared, gone, went, same) = left.clears s stock in
          (
            net.after text t,
            remove_dir-removed w sent net d s t names.word names.short cleared,
            (left.quiet.send text).keeps t (pos 1) (net.after text t) gone (net.text text t),
            net.sent-after text t ∙ ap (λ b. b ++ text) went,
            ((duplex.sending (unread s)).send text).keeps t (pos 1) (net.after text t) same
                (net.text text t),
          )

  pub no_tr-Answers :
      Answers w tr0 unread sent stream duplex
        (codes "SEND_NEXT")
        (codes "NO_TR\n")
        left.Gone
        left.Gone
  no_tr-Answers =
      handled_answers w tr0 unread sent stream duplex (codes "SEND_NEXT") _ left.Gone left.Gone
        (send_next w tr0 logger_name data_dir) (execute-send_next w tr0)
        λ s gone.
          send_next-gone w sent net unread logger_name (asked_path d) d (disk.Stock []) left names
            duplex tr0 s gone
