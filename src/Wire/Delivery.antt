-- ===== src/Wire/Delivery.antt =====
-- Server and client on one connection: what the child of the server sends of a directory arrives at
-- the transmission thread.
use study_and_development_of.Base.{
  ℕ, suc, ◌+◌, ◌*◌, ◌<◌, ◌≡◌, ◌≢◌, refl, sym, ◌∙◌, ap, subst, ℤ, pos, is_neg, false, Bytes, List,
  [], ◌∷◌, ◌++◌, append_assoc, codes, length, Option, All, some, arith,
}
use study_and_development_of.World.{World, done, exited, ◌>>◌}
use study_and_development_of.World.Keeps.{done-state}
use study_and_development_of.Common.Info.{TrInfo}
use study_and_development_of.Common.TcpBuffer.{init_buffer_tcp}
use study_and_development_of.Common.Stream.{IsStream, init_buffer_tcp-Pending}
use study_and_development_of.Server.Transfer.{data_dir}
use study_and_development_of.Server.Transfer.Emits.{SendsAll}
use study_and_development_of.Server.Handler.{logger_name, Child, server_handler}
use study_and_development_of.Server.Disk.{file_tr, Disk, Duplex, Named, Leftovers}
use study_and_development_of.Server.Disk.Rest.{asked_path}
use study_and_development_of.Client.Transmission.{
  Shared, Local, transmission_loop, transmission_thread,
}
use study_and_development_of.Client.Transmission.Waits.{asks}
use study_and_development_of.Wire.Said.{Speaks}
use study_and_development_of.Wire.Sending.{active_dir}
use study_and_development_of.Wire.Remaining.{Asked, asked_file, asked_commands, rels}
use study_and_development_of.Wire.Finish.{complete_dir, remove_dir_command}
use study_and_development_of.Wire.Session.{
  item_file, session_answers, session_commands, There, Writable, Fits, Distinct, SameDir, Works,
}
use study_and_development_of.Wire.Session.Ending.{ending_answers, ending_requests, Remembers, Ends}
use study_and_development_of.Wire.Session.Last.{finished_run}
use study_and_development_of.Wire.Session.Thread.{thread_run}
use study_and_development_of.Wire.Serve.Files.{item, items, file_commands, LinesFit, Ordered}
use study_and_development_of.Wire.Serve.Asks.{ask_commands, AskFits, Readable}
use study_and_development_of.Wire.Serve.Closing.{remove_line}
use study_and_development_of.Wire.Serve.Ending.{ending_commands}
use study_and_development_of.Wire.Serve.Directory.{child_loop-directory, server_handler-child}

length-items :
    (d : Bytes) (n : ℤ) (contents out : ℕ → Bytes) (is : List ℕ)
    → length (items d n contents out is) ≡ length is
length-items d n contents out [] = refl
length-items d n contents out (i ∷ is) = ap suc (length-items d n contents out is)

-- The files of one directory.
items-SameDir :
    (d : Bytes) (n : ℤ) (contents out : ℕ → Bytes) (i : ℕ) (is js : List ℕ)
    → All (λ y. SameDir (file_tr d n i is) y.tr) (items d n contents out js)
items-SameDir d n contents out i is [] = tt
items-SameDir d n contents out i is (j ∷ js) =
    ((refl, refl), items-SameDir d n contents out i is js)

-- The commands of the client are those that the server reads.
file_commands-same :
    (d : Bytes) (n : ℤ) (contents out : ℕ → Bytes) (is : List ℕ) (rest : Bytes)
    → session_commands (items d n contents out is) [] ++ rest
      ≡ file_commands d n contents out is rest
unfolding asks
file_commands-same d n contents out [] rest = refl
file_commands-same d n contents out (i ∷ is) rest =
    let ih = file_commands-same d n contents out is rest in simp (append_assoc, ih) refl

ask_commands-same :
    (ys : List Asked) (rest : Bytes) → asked_commands (rels ys) [] ++ rest ≡ ask_commands ys rest
ask_commands-same [] rest = refl
ask_commands-same (y ∷ ys) rest = let ih = ask_commands-same ys rest in simp (append_assoc, ih) refl

ending_commands-same :
    (tr : TrInfo) (ys : List Asked)
    → (ending_requests 0 tr ys ++ codes "SEND_NEXT\n") ++ codes "CLOSE\n"
      ≡ ending_commands tr.d.first ys []
unfolding asks
ending_commands-same tr ys = simp append_assoc (
    ap (λ b. codes "SEND_NEXT\n" ++ b)
      (ask_commands-same ys
        (remove_dir_command tr.d.first ++ (codes "SEND_NEXT\n" ++ codes "CLOSE\n"))))

append-empty : (a b : Bytes) → a ++ b ≡ [] → (a ≡ []) × (b ≡ [])
append-empty [] b h = (refl, h)
append-empty (x ∷ a) b h = cc

module _ {S : Type 0} (w : World S) (tr0 : TrInfo) (unread sent : S → Bytes)
    (stream : IsStream w unread) (duplex : Duplex w unread sent) (d : Bytes) (n : ℤ)
    (contents out : ℕ → Bytes) (net : SendsAll w sent)
    (disk : Disk w unread sent logger_name data_dir d n contents out) (names : Named w d)
    (left : Leftovers w unread sent logger_name data_dir (asked_path d) (disk.Stock [])) where
  -- A run of the child, with what it has sent.
  served :
      (i : ℕ) (is : List ℕ) (ys : List Asked) (rest array cmd : Bytes) (s t : S)
      → disk.Stock (i ∷ is) s
      → Ordered (i ∷ is)
      → All (LinesFit (length cmd)) (items d n contents out (i ∷ is))
      → ((v : S) → disk.Stock [] v → Readable w ys v)
      → All (AskFits (length cmd)) ys
      → length (remove_line d) < length cmd
      → unread s ≡ file_commands d n contents out (i ∷ is) (ending_commands d ys rest)
      → server_handler w tr0 (2 * length (i ∷ is) + suc (length ys + 3)) (pos 0) array cmd s
        ≡ done (some (pos 0)) t
      → left.Gone t
        × (sent t
            ≡ sent s
              ++ session_answers
                  (items d n contents out (i ∷ is))
                  (ending_answers 0 (file_tr d n i is) ys (codes "NO_TR\n")))
  served i is ys rest array cmd s t stock up fits readable asks reply waiting run =
      let c : Child = record { b = init_buffer_tcp array; cmd = cmd } in
      let commands = file_commands d n contents out (i ∷ is) (ending_commands d ys rest) in
      let rounds = 2 * length (i ∷ is) + suc (length ys + 3) in
      let (c1, t1, run1, gone, went, p1) =
        child_loop-directory w tr0 unread sent stream duplex d n contents out net disk names left i
          is ys rest c s stock up fits readable asks reply
          (init_buffer_tcp-Pending unread array commands s waiting) in
      let same : t1 ≡ t =
        done-state (sym (server_handler-child w tr0 rounds array cmd c1 s t1 run1) ∙ run) in
      (subst left.Gone same gone, ap sent (sym same) ∙ went)

  module _ {C : Type 0} (client : World C) (shared : Shared C) (received : C → Bytes)
      (file : C → Bytes → Option Bytes) (works : Works client shared received file)
      (remembers : Remembers client shared received works.shared) (said : C → Bytes)
      (speaks : Speaks client said)
      (unsaid : (tr : TrInfo) (v : C) → said (works.shared.set tr v) ≡ said v) where
    -- All that the thread says, as the server reads it.
    all_said :
        (i : ℕ) (is : List ℕ) (ys : List Asked)
        → (session_commands (items d n contents out (i ∷ is)) []
              ++ (ending_requests 0 (file_tr d n i is) ys ++ codes "SEND_NEXT\n"))
            ++ codes "CLOSE\n"
          ≡ file_commands d n contents out (i ∷ is) (ending_commands d ys [])
    all_said i is ys =
        let xs = items d n contents out (i ∷ is) in
        append_assoc (session_commands xs [])
          (ending_requests 0 (file_tr d n i is) ys ++ codes "SEND_NEXT\n") (codes "CLOSE\n")
        ∙ ap (λ b. session_commands xs [] ++ b) (ending_commands-same (file_tr d n i is) ys)
        ∙ file_commands-same d n contents out (i ∷ is) (ending_commands d ys [])

    -- The drone and the connection are as for the child of the server that serves a whole
    -- directory, nothing has been sent before, the connection delivers to the child, for which
    -- fork has returned 0, exactly the commands of a client for that directory, and the child has
    -- ended. The environment of the client works, the local directory is there and the files can
    -- be written when the thread has connected, only a rename could change that, and a directory
    -- that is there can be renamed, nobody tells its thread to stop, the thread connects and has
    -- said nothing yet; only sending adds to what it says, and the local names of the files differ
    -- and, with the lines and the sizes, are within the bounds of the client. If what the child
    -- has sent is what the connection of the transmission thread holds, in packets of any size,
    -- then the directory on the drone is gone; the loop of the transmission thread comes, with one
    -- round for each file and one more, to the state in which the local directory has just been
    -- renamed to its final name, before which renaming each file of the drone's directory and each
    -- remaining file was stored under its local name with its contents; with a round more the
    -- thread sends CLOSE and ends with the status 0, with nothing left on its connection; and all
    -- that the thread has sent is, byte for byte, what the child was given: the two runs are the
    -- two ends of one connection.
    pub directory_delivered :
        (i : ℕ) (is : List ℕ) (ys : List Asked) (array cmd : Bytes) (s t : S) (rounds : ℕ)
        (scratch : Bytes) (l : Local) (sk : ℤ) (u0 u1 : C)
        → disk.Stock (i ∷ is) s
        → Ordered (i ∷ is)
        → All (LinesFit (length cmd)) (items d n contents out (i ∷ is))
        → ((v : S) → disk.Stock [] v → Readable w ys v)
        → All (AskFits (length cmd)) ys
        → length (remove_line d) < length cmd
        → unread s ≡ file_commands d n contents out (i ∷ is) (ending_commands d ys [])
        → sent s ≡ []
        → server_handler w tr0 (2 * length (i ∷ is) + suc (length ys + 3)) (pos 0) array cmd s
          ≡ done (some (pos 0)) t
        → 0 < rounds
        → All (Fits client (length l.rec) (suc (suc rounds))) (items d n contents out (i ∷ is))
        → All (There client works.files.can_write u1) (items d n contents out (i ∷ is))
        → Writable (works.files.can_write u1) (active_dir (file_tr d n i is)) ys
        → Distinct (items d n contents out (i ∷ is))
        → Ends client (length l.rec) scratch (file_tr d n i is) ys
        → All
            (λ x. All (λ y. asked_file (active_dir (file_tr d n i is)) y ≢ item_file x) ys)
            (items d n contents out (i ∷ is))
        → 5 < length l.rec
        → 3 < length scratch
        → (shared.set_status (pos 1) >> client.connect) u0 ≡ done sk u1
        → is_neg sk ≡ false
        → received u1 ≡ sent t
        → said u1 ≡ []
        → left.Gone t
          × (l1 : Local) × (u v : C) × (transmission_loop client shared
                (length (i ∷ is) + suc (suc rounds))
                scratch
                (record l { b = init_buffer_tcp l.b.buffer })
                u1
              ≡ transmission_loop client shared
                  (suc rounds)
                  scratch
                  l1
                  (remembers.renamed (active_dir (file_tr d n i is)) (complete_dir d) u))
          × All (λ x. file u (item_file x) ≡ some x.contents) (items d n contents out (i ∷ is))
          × All (λ y. file u (asked_file (active_dir (file_tr d n i is)) y) ≡ some y.contents) ys
          × (transmission_thread client shared (length (i ∷ is) + suc (suc rounds)) scratch l u0
              ≡ exited (pos 0) (works.net.after (codes "CLOSE\n") v))
          × (received v ≡ [])
          × (said (works.net.after (codes "CLOSE\n") v) ≡ unread s)
    directory_delivered i is ys array cmd s t rounds scratch l sk u0 u1 stock up fits readable asks
          reply waiting fresh run more receivable there writable distinct ends apart room small
          begins connected arrives silent =
        let tr = file_tr d n i is in
        let xs = items d n contents out (i ∷ is) in
        let last = ending_answers 0 tr ys (codes "NO_TR\n") in
        let l0 = record l { b = init_buffer_tcp l.b.buffer } in
        let (gone, went) =
          served i is ys [] array cmd s t stock up fits readable asks reply waiting run in
        let all_sent : received u1 ≡ session_answers xs last =
          arrives ∙ went ∙ ap (λ b. b ++ session_answers xs last) fresh in
        let (l1, l2, u, v, ran, stored, endings, over, told, p') =
          finished_run client shared received file works remembers rounds 0
            (item d n contents out i is) (items d n contents out is) ys scratch [] l0 u1 more
            (omega arith) (items-SameDir d n contents out i is is) receivable there writable
            distinct ends apart room small
            (init_buffer_tcp-Pending received l.b.buffer (session_answers xs last) u1 all_sent) in
        let whole =
          ap (λ k. transmission_loop client shared (k + suc (suc rounds)) scratch l0 u1)
            (sym (length-items d n contents out (i ∷ is)))
          ∙ ran in
        (
          gone,
          l1,
          u,
          v,
          whole,
          stored,
          endings,
          thread_run client shared received works.net (length (i ∷ is) + suc (suc rounds)) scratch l
              l2 sk u0 u1 v begins connected (whole ∙ over),
          (append-empty p'.ahead (received v) p'.stream_is).1,
          speaks.send (codes "CLOSE\n") v (pos 1) (works.net.after (codes "CLOSE\n") v)
                (works.net.text (codes "CLOSE\n") v)
              ∙ rw (told said speaks unsaid, silent) (all_said i is ys)
              ∙ sym waiting,
        )
