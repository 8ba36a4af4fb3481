-- ===== src/Wire/Serve/Directory.antt =====
-- A whole directory, from the disk of the drone to the connection.
use study_and_development_of.Base.{
  ℕ, suc, ◌+◌, ◌*◌, ◌<◌, ◌≡◌, sym, ◌∙◌, ap, subst, ℤ, pos, Bytes, List, ◌∷◌, [], ◌++◌, append_assoc,
  codes, length, length-append, All, some, arith, ◌⊎◌, inl, inr,
}
use study_and_development_of.World.{World, done, bind-done}
use study_and_development_of.Libc.Format.{fmt_d}
use study_and_development_of.Common.Info.{timestamp_len, TrInfo}
use study_and_development_of.Common.TcpBuffer.{init_buffer_tcp}
use study_and_development_of.Common.Stream.{IsStream, Pending}
use study_and_development_of.Server.Transfer.{bufsiz, data_dir, empty_text}
use study_and_development_of.Server.Transfer.Emits.{SendsAll}
use study_and_development_of.Server.Handler.{logger_name, Child, child_loop, server_handler}
use study_and_development_of.Server.Disk.{file_tr, Disk, Duplex, Named, Leftovers}
use study_and_development_of.Server.Disk.Rest.{asked_path}
use study_and_development_of.Wire.Remaining.{Asked}
use study_and_development_of.Wire.Session.{session_answers}
use study_and_development_of.Wire.Session.Ending.{ending_answers}
use study_and_development_of.Wire.Serve.Files.{
  items, file_commands, LinesFit, Ordered, session_answers-append, child_loop-files,
}
use study_and_development_of.Wire.Serve.Asks.{AskFits, Readable}
use study_and_development_of.Wire.Serve.Closing.{remove_line}
use study_and_development_of.Wire.Serve.Ending.{ending_commands, ending_rounds}

-- The child that fork leaves, when its loop ends.
pub server_handler-child :
    {S : Type 0} (w : World S) (tr0 : TrInfo) (rounds : ℕ) (array cmd : Bytes) (c : Child) (s t : S)
    → child_loop w tr0 rounds (record { b = init_buffer_tcp array; cmd = cmd }) s ≡ done (some c) t
    → server_handler w tr0 rounds (pos 0) array cmd s ≡ done (some (pos 0)) t
unfolding server_handler
server_handler-child w tr0 rounds array cmd c s t run =
    bind-done (child_loop w tr0 rounds (record { b = init_buffer_tcp array; cmd = cmd })) _ run

-- EMPTY fits the array of the server, since FindLidarDataInfo numbers the logger 0 or 1.
empty_text-fits :
    (d : Bytes) (n : ℤ) (i : ℕ) (is : List ℕ)
    → length d < timestamp_len
    → (n ≡ pos 0) ⊎ (n ≡ pos 1)
    → length (empty_text (file_tr d n i is)) < bufsiz
unfolding empty_text fmt_d
empty_text-fits d n i is short (inl zeroth) =
    rw zeroth (omega (arith, length-append d (codes " 0\n")))
empty_text-fits d n i is short (inr first) =
    rw first (omega (arith, length-append d (codes " 1\n")))

module _ {S : Type 0} (w : World S) (tr0 : TrInfo) (unread sent : S → Bytes)
    (stream : IsStream w unread) (duplex : Duplex w unread sent) (d : Bytes) (n : ℤ)
    (contents out : ℕ → Bytes) (net : SendsAll w sent)
    (disk : Disk w unread sent logger_name data_dir d n contents out) (names : Named w d)
    (left : Leftovers w unread sent logger_name data_dir (asked_path d) (disk.Stock [])) where
  -- The disk of the drone holds one directory, whose name is a word of text that fits its array
  -- and is not hidden, with data files of different numbers below 2^31, listed here in ascending
  -- order and given by readdir in any, in the log directory that FindLidarDataInfo looks for
  -- first; the logger does not run; the value that FindNextTr does not return is not one of its
  -- errors; files can be read, compressed to fewer than 2^31 bytes and removed, and the directory
  -- too; every send succeeds, and sending and receiving leave the disk as it is. If the connection
  -- delivers, in packets of any size, the commands of a client for that directory (SEND_NEXT and
  -- REMOVE_FILE for each file, SEND_NEXT, SEND_FILE for each of the remaining files, REMOVE_DIR,
  -- SEND_NEXT and CLOSE) and any bytes behind them, and the lines fit the arrays of the server,
  -- then the loop of the child ends, with two rounds for each file, one for each remaining file
  -- and four more; what it has sent is, in ascending order, the transfer of each file and the
  -- answer to its REMOVE_FILE, then EMPTY, the transfers of the remaining files, the answer to
  -- REMOVE_DIR and NO_TR; the directory is gone, and nothing behind CLOSE is read.
  pub child_loop-directory :
      (i : ℕ) (is : List ℕ) (ys : List Asked) (rest : Bytes) (c : Child) (s : S)
      → disk.Stock (i ∷ is) s
      → Ordered (i ∷ is)
      → All (LinesFit (length c.cmd)) (items d n contents out (i ∷ is))
      → ((v : S) → disk.Stock [] v → Readable w ys v)
      → All (AskFits (length c.cmd)) ys
      → length (remove_line d) < length c.cmd
      → Pending unread c.b s (file_commands d n contents out (i ∷ is) (ending_commands d ys rest))
      → (c' : Child) × (t : S) × (child_loop w tr0 (2 * length (i ∷ is) + suc (length ys + 3)) c s
          ≡ done (some c') t)
        × left.Gone t
        × (sent t
            ≡ sent s
              ++ session_answers
                  (items d n contents out (i ∷ is))
                  (ending_answers 0 (file_tr d n i is) ys (codes "NO_TR\n")))
        × Pending unread c'.b t rest
  child_loop-directory i is ys rest c s stock up fits readable asks reply p =
      let numbered : (n ≡ pos 0) ⊎ (n ≡ pos 1) = elim (disk.lies (i ∷ is) s stock) [
        | inl zeroth ↦ inl zeroth
        | inr (first, _) ↦ inr first
      ] in
      let ending = empty_text-fits d n 0 [] names.short numbered in
      let room : 9 < length c.cmd = omega (arith, reply, length-append (codes "REMOVE_DIR ") d) in
      let xs = items d n contents out (i ∷ is) in
      let last = ending_answers 0 (file_tr d n i is) ys (codes "NO_TR\n") in
      let (c1, s1, run1, stock1, went1, size1, p1) =
        child_loop-files w tr0 unread sent stream duplex d n contents out net disk names (i ∷ is)
          (suc (length ys + 3)) (ending_commands d ys rest) c s stock up fits room p in
      let (c2, s2, run2, gone2, went2, p2) =
        ending_rounds w tr0 unread sent stream duplex d n contents out net disk names left ys rest
          c1 s1 stock1 readable ending (subst (λ k. All (AskFits k) ys) (sym size1) asks)
          (subst (λ k. length (remove_line d) < k) (sym size1) reply)
          (subst (λ k. 9 < k) (sym size1) room) p1 in
      (
        c2,
        s2,
        run1 ∙ run2,
        gone2,
        went2
            ∙ rw went1 (
                append_assoc (sent s) (session_answers xs []) last
                ∙ ap (λ a. sent s ++ a) (session_answers-append xs last)),
        p2,
      )
