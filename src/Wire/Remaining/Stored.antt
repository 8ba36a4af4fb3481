-- ===== src/Wire/Remaining/Stored.antt =====
-- The requests for the remaining files, answered one after another.
use study_and_development_of.Base.{
  ℕ, ◌≡◌, ◌≢◌, refl, sym, ◌∙◌, ap, subst, ℤ, pos, Bytes, List, [], ◌∷◌, ◌++◌, append_assoc,
  append-nil, codes, Option, some, All, true,
}
use study_and_development_of.World.{Prog, World, done, bind-done}
use study_and_development_of.Common.Info.{NextDir}
use study_and_development_of.Common.TcpBuffer.{TcpBuffer}
use study_and_development_of.Common.Stream.{IsStream, Pending}
use study_and_development_of.Client.Receive.Stored.{StoresFiles}
use study_and_development_of.Client.Request.{request_file, request_all_remaining_files}
use study_and_development_of.Client.Transmission.Waits.{Sending}
use study_and_development_of.Wire.Fetch.{request_file-stored}
use study_and_development_of.Wire.Said.{Says}
use study_and_development_of.Wire.Frame.{Untouched, Unmoved}
use study_and_development_of.Wire.Remaining.{
  Asked, asked_file, asked_answers, rels, remaining_list, asked_commands, AskedFits, AskedApart,
  ask_all, request_all-ask_all, request_file-Keeps, request_file-said, nonempty,
}

module _ {S : Type 0} (w : World S) (unread : S → Bytes) (file : S → Bytes → Option Bytes)
    (stream : IsStream w unread) (net : Sending w unread) (files : StoresFiles w unread file)
    (apart : (name bytes : Bytes) → Untouched w (λ s. file s name ≡ some bytes) name)
    (memory : (n : ℕ) (u : S) → w.malloc n u ≡ true) where
  -- What can be written still can.
  pub rooms-Unmoved :
      (dir : Bytes) (xs : List Asked) (s u : S)
      → Unmoved w s u
      → All (λ x. files.can_write s (asked_file dir x) ≡ true) xs
      → All (λ x. files.can_write u (asked_file dir x) ≡ true) xs
  rooms-Unmoved dir [] s u still room = tt
  rooms-Unmoved dir (x ∷ xs) s u still room = (
    still (λ v. files.can_write v (asked_file dir x) ≡ true) (files.room (asked_file dir x)) room.0,
    rooms-Unmoved dir xs s u still room.1,
  )

  -- The requests are answered in their order: every file is stored, and kept by the requests after it.
  ask_all-stored :
      (xs : List Asked) (rec dir rest : Bytes) (b : TcpBuffer) (s : S)
      → All (AskedFits w rec dir) xs
      → AskedApart dir xs
      → All (λ x. files.can_write s (asked_file dir x) ≡ true) xs
      → Pending unread b s (asked_answers xs rest)
      → (b' : TcpBuffer) × (u : S) × (ask_all w rec dir (rels xs) b s ≡ done (pos 0, b') u)
        × All (λ x. file u (asked_file dir x) ≡ some x.contents) xs
        × ((name bytes : Bytes)
            → All (λ x. asked_file dir x ≢ name) xs
            → file s name ≡ some bytes
            → file u name ≡ some bytes)
        × Says w s u (asked_commands (rels xs) [])
        × Unmoved w s u
        × Pending unread b' u rest
  ask_all-stored [] rec dir rest b s fits differ room p = (
    b,
    s,
    refl,
    tt,
    (λ name bytes other before. before),
    (λ said speaks. sym (append-nil (said s))),
    (λ P h before. before),
    p,
  )
  ask_all-stored (x ∷ xs) rec dir rest b s fits differ room p =
      let f = fits.0 in
      let cmd = codes "SEND_FILE " ++ (x.rel ++ (b'\n' ∷ [])) in
      let p0 : Pending unread b (net.after cmd s) (asked_answers (x ∷ xs) rest) = record {
        ahead = p.ahead;
        buffered = p.buffered;
        stream_is = rw (net.unread-after cmd s) p.stream_is;
      } in
      let (b1, u1, got, stored, p1) =
        request_file-stored w unread file stream files memory x.rel dir x.temp x.path x.contents
          x.out (asked_answers xs rest) rec b s (net.after cmd s) f.names f.word f.text f.line
          f.packed f.contents_small f.out_small room.0 (net.text cmd s)
          (subst (Pending unread b (net.after cmd s)) (simp append_assoc) p0) in
      let first : Unmoved w s u1 = λ P h before.
        (request_file-Keeps w P [] h rec x.rel dir x.temp b f.names (nonempty dir x.temp)).keeps s
          (pos 0, b1) u1 before got in
      let (b', u, run, all_stored, kept, told, still, p') =
        ask_all-stored xs rec dir rest b1 u1 fits.1 differ.1
          (rooms-Unmoved dir xs s u1 first room.1) p1 in
      (
        b',
        u,
        bind-done (request_file w rec b x.rel dir) _ got ∙ run,
        (kept (asked_file dir x) x.contents differ.0 stored, all_stored),
        (λ name bytes other before. kept name bytes other.1 (
            (request_file-Keeps w (λ v. file v name ≡ some bytes) name (apart name bytes) rec x.rel
                dir x.temp b f.names other.0).keeps
              s (pos 0, b1) u1 before got)),
        (λ said speaks.
            told said speaks
            ∙ rw (request_file-said w rec x.rel dir x.temp b s u1 f.names got said speaks)
                (append_assoc (said s) cmd (asked_commands (rels xs) []))),
        (λ P h before. still P h (first P h before)),
        p',
      )

  -- All the remaining files of the directory `d`, in one run.
  pub request_all_remaining_files-stored :
      (d : NextDir) (xs : List Asked) (rec dir rest : Bytes) (b : TcpBuffer) (s : S)
      → rels xs ≡ remaining_list d
      → All (AskedFits w rec dir) xs
      → AskedApart dir xs
      → All (λ x. files.can_write s (asked_file dir x) ≡ true) xs
      → Pending unread b s (asked_answers xs rest)
      → (b' : TcpBuffer) × (u : S) × (request_all_remaining_files w rec b d dir s
          ≡ done (pos 0, b') u)
        × All (λ x. file u (asked_file dir x) ≡ some x.contents) xs
        × ((name bytes : Bytes)
            → All (λ x. asked_file dir x ≢ name) xs
            → file s name ≡ some bytes
            → file u name ≡ some bytes)
        × Says w s u (asked_commands (rels xs) [])
        × Unmoved w s u
        × Pending unread b' u rest
  request_all_remaining_files-stored d xs rec dir rest b s order fits differ room p =
      let (b', u, run, stored, kept, told, still, p') =
        ask_all-stored xs rec dir rest b s fits differ room p in
      (
        b',
        u,
        ap (λ (f : Prog S (ℤ × TcpBuffer)). f s) (request_all-ask_all w rec b d dir)
            ∙ ap (λ (names : List Bytes). ask_all w rec dir names b s) (sym order)
            ∙ run,
        stored,
        kept,
        told,
        still,
        p',
      )
