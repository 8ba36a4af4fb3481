-- ===== src/Wire/Session/One.antt =====
-- One round of transmission_thread: a file that the server sends is stored, and removed there.
use study_and_development_of.Base.{
  ℕ, suc, ◌<◌, ◌≡◌, ◌≢◌, refl, sym, ◌∙◌, ap, subst, ℤ, pos, Bytes, [], ◌∷◌, ◌++◌, append_assoc,
  append-nil, codes, length, Option, some, All, true, false, arith, c_str, starts_with,
}
use study_and_development_of.Libc.Format.{fmt_d, snprintf}
use study_and_development_of.World.{World, done, bind-done}
use study_and_development_of.World.Keeps.{Keeps}
use study_and_development_of.Common.Paths.{dir_exists}
use study_and_development_of.Common.Info.{TrInfo}
use study_and_development_of.Common.TcpBuffer.{TcpBuffer}
use study_and_development_of.Common.Stream.{Pending}
use study_and_development_of.Common.Stream.Lines.{IsText}
use study_and_development_of.Server.Transfer.{sending_text}
use study_and_development_of.Server.Transfer.Emits.{with_sizes}
use study_and_development_of.Server.Remove.{removed_text}
use study_and_development_of.Client.Receive.{receive_and_decompress}
use study_and_development_of.Client.Request.{max_rel_path_len, local_log_dir}
use study_and_development_of.Client.Transmission.{
  data_dir, Shared, Local, local_data_file, remove_file_command, exchange, request_next, on_sending,
  on_empty, transmission_loop,
}
use study_and_development_of.Client.Transmission.Waits.{
  waits, asks, Tells, exchange_reply, request_next-answered,
}
use study_and_development_of.Wire.Text.{All-IsText-append, fmt_d-IsText}
use study_and_development_of.Wire.Fetch.{with_sizes-IsText}
use study_and_development_of.Wire.Frame.{unwritten, receive_and_decompress-Keeps}
use study_and_development_of.Wire.Frame.{Untouched}
use study_and_development_of.Wire.Apart.{exchange-Keeps, request_next-Keeps}
use study_and_development_of.Wire.Said.{SaysApart, exchange-Tells}
use study_and_development_of.Wire.Cycle.{
  sending_text-IsText, sending-error, sending-wait, sending-begins, sending-nonempty,
  on_sending-line,
}
use study_and_development_of.Wire.Sending.{
  active_dir, local_file, received, after_sending, receive_sending-run,
}
use study_and_development_of.Wire.Session.{
  Item, item_file, removed_line, item_answers, item_commands, There, Fits, SameDir, Works,
}

removed_text-line :
    (tr : TrInfo) → removed_text tr.f.first tr.d.first ≡ removed_line tr ++ b'\n' ∷ []
unfolding removed_text
removed_text-line tr = simp append_assoc

removed_line-IsText : (tr : TrInfo) → All IsText tr.d.first → All IsText (removed_line tr)
removed_line-IsText tr h = All-IsText-append (codes "FILE ") _ (omega arith) (
    All-IsText-append (fmt_d tr.f.first) _ (fmt_d-IsText tr.f.first) (
      All-IsText-append (codes ", ") _ (omega arith)
        (All-IsText-append tr.d.first _ h (omega arith))))

removed-error : (tr : TrInfo) → starts_with (codes "ERROR") (removed_line tr) ≡ false
unfolding starts_with
removed-error tr = refl

removed-empty : (tr : TrInfo) → starts_with (codes "EMPTY") (removed_line tr) ≡ false
unfolding starts_with
removed-empty tr = refl

removed-no_tr : (tr : TrInfo) → starts_with (codes "NO_TR") (removed_line tr) ≡ false
unfolding starts_with
removed-no_tr tr = refl

local_file-nonempty : (tr : TrInfo) → local_file tr ≢ []
unfolding local_data_file local_log_dir snprintf
local_file-nonempty tr e = cc

pub active_dir-same : (tr y : TrInfo) → SameDir tr y → active_dir y ≡ active_dir tr
active_dir-same tr y same =
    ap (λ first. snprintf max_rel_path_len (data_dir ++ (b'/' ∷ (first ++ codes "-active")))) same.0

module _ {S : Type 0} (w : World S) (t : Shared S) where
  -- A round whose answers are known.
  round-run :
      (rounds : ℕ) (scratch : Bytes) (tr : TrInfo) (l l1 l3 : Local) (s u1 u3 : S)
      → ((u : S) → t.running u ≡ true)
      → request_next w t rounds l s ≡ done (some l1) u1
      → on_sending w t scratch l1 u1 ≡ done l3 u3
      → c_str l3.rec ≡ removed_line tr
      → transmission_loop w t (suc rounds) scratch l s ≡ transmission_loop w t rounds scratch l3 u3
  unfolding transmission_loop on_empty
  round-run rounds scratch tr l l1 l3 s u1 u3 runs asked sent holds =
      bind-done (request_next w t rounds l) _ asked
      ∙ bind-done (on_sending w t scratch l1) _ sent
      ∙ rw (holds, removed-empty tr) (rw (runs u3, holds, removed-no_tr tr) refl)

-- The answers for an item, with their lines apart.
answers-lines :
    (x : Item) (rest : Bytes)
    → item_answers x rest
      ≡ waits x.delays (
          with_sizes (sending_text x.tr) (pos (length x.contents)) (pos (length x.out))
          ++ b'\n' ∷ (x.out ++ (codes "END" ++ b'\n' ∷ (removed_line x.tr ++ b'\n' ∷ rest))))
answers-lines x rest = rw (removed_text-line x.tr) (simp append_assoc)

module _ {S : Type 0} (w : World S) (t : Shared S) (unread : S → Bytes)
    (file : S → Bytes → Option Bytes) (h : Works w t unread file) where
  -- Receiving the file of an item, with what it leaves of the other files.
  receive-kept :
      (tr : TrInfo) (rec : Bytes) (l : Local) (a z : ℤ) (s u : S) {r : ℤ × ℤ × TcpBuffer}
      → receive_and_decompress w rec l.b (local_file tr) z a (h.shared.set (received l.tr tr) s)
        ≡ done r u
      → (name bytes : Bytes) → local_file tr ≢ name
      → file s name ≡ some bytes
      → file u name ≡ some bytes
  receive-kept tr rec l a z s u got name bytes other holds =
      let P : S → Type 0 = λ v. file v name ≡ some bytes in
      let set_run = h.shared.set_lem (received l.tr tr) s in
      (receive_and_decompress-Keeps w P name (unwritten (h.apart.calls name bytes)) (local_file tr)
          other rec l.b z a).keeps
        (h.shared.set (received l.tr tr) s) _ u
        ((h.apart.lock name bytes (received l.tr tr)).keeps s tt _ holds set_run) got

  exchange-kept :
      (cmd : Bytes) (l l' : Local) (s u : S)
      → exchange w t cmd l s ≡ done l' u
      → (name bytes : Bytes) → file s name ≡ some bytes
      → file u name ≡ some bytes
  exchange-kept cmd l l' s u run name bytes holds =
      (exchange-Keeps w t (λ v. file v name ≡ some bytes) name (h.apart.calls name bytes) cmd
          l).keeps
        s l' u holds run

  -- What holds whenever the thread has shared what it knows of the item holds afterwards, if no call
  -- changes it.
  abbrev pub Follows : Item → S → Type 1
  Follows x u =
      (P : S → Type 0)
      → Untouched w P []
      → ((old : TrInfo) (v : S) → P (h.shared.set (received old x.tr) v))
      → P u

  item-said :
      (x : Item) (scratch : Bytes) (l1 l2 l3 : Local) (s u1 u2 u3 : S) {r : ℤ × ℤ × TcpBuffer}
      → ((said : S → Bytes) → Tells w t said → said u1 ≡ said s ++ asks x.delays)
      → receive_and_decompress w scratch l1.b
          (item_file x)
          (pos (length x.out))
          (pos (length x.contents))
          (h.shared.set (received l1.tr x.tr) u1)
        ≡ done r u2
      → exchange w t (remove_file_command x.tr) l2 u2 ≡ done l3 u3
      → SaysApart w h.shared.set s u3 (item_commands x [])
  item-said x scratch l1 l2 l3 s u1 u2 u3 told got removed said speaks apart =
      let cmd = remove_file_command x.tr in
      let P : S → Type 0 = λ v. said v ≡ said u1 in
      let same : said u2 ≡ said u1 =
        (receive_and_decompress-Keeps w P [] (speaks.quiet (said u1) []) (item_file x)
            (local_file-nonempty x.tr) scratch l1.b (pos (length x.out))
            (pos (length x.contents))).keeps
          (h.shared.set (received l1.tr x.tr) u1) _ u2 (apart (received l1.tr x.tr) u1) got in
      exchange-Tells w said speaks t cmd l2 l3 u2 u3 removed
      ∙ rw (same, told said (exchange-Tells w said speaks t)) (simp (append_assoc, append-nil) refl)

  -- What no call changes, and setting what is shared neither.
  abbrev pub Stands : S → S → Type 1
  Stands s u =
      (P : S → Type 0) → Untouched w P [] → ((tr : TrInfo) → Keeps P (t.set_tr tr)) → P s → P u

  -- One item: the round stores its file, keeps the others, and leaves the rest of the connection.
  pub item_round :
      (size rounds : ℕ) (x : Item) (scratch rest : Bytes) (l : Local) (s : S)
      → Fits w size rounds x
      → There w h.files.can_write s x
      → length l.rec ≡ size
      → 4 < size
      → 3 < length scratch
      → Pending unread l.b s (item_answers x rest)
      → (l' : Local) × (u : S) × (transmission_loop w t (suc rounds) scratch l s
          ≡ transmission_loop w t rounds scratch l' u)
        × (length l'.rec ≡ size)
        × (l'.transmission_dir ≡ active_dir x.tr)
        × Follows x u
        × (file u (item_file x) ≡ some x.contents)
        × ((name bytes : Bytes)
            → item_file x ≢ name
            → file s name ≡ some bytes
            → file u name ≡ some bytes)
        × SaysApart w h.shared.set s u (item_commands x [])
        × Stands s u
        × Pending unread l'.b u rest
  item_round size rounds x scratch rest l s fits there array room small p =
      let a = pos (length x.contents) in
      let z = pos (length x.out) in
      let line = with_sizes (sending_text x.tr) a z in
      let cmd = remove_file_command x.tr in
      let (l1, u1, asked, holds, size1, same, told, p1) =
        request_next-answered w t unread h.stream h.net rounds x.delays line
          (x.out ++ (codes "END" ++ b'\n' ∷ (removed_line x.tr ++ b'\n' ∷ rest))) l s fits.waiting
          h.runs
          (with_sizes-IsText (sending_text x.tr) a z (sending_text-IsText x.tr fits.names.text))
          (sending-nonempty x.tr a z) (subst (λ n. length line < n) (sym array) fits.line)
          (subst (λ n. 4 < n) (sym array) room) (sending-error x.tr a z) (sending-wait x.tr a z)
          (subst (Pending unread l.b s) (answers-lines x rest) p) in
      let (b2, u2, run, got, stored, p2) =
        receive_sending-run w t unread file h.stream h.files h.shared h.memory x.tr scratch
          x.contents x.out (removed_line x.tr ++ b'\n' ∷ rest) l1 u1 fits.names.word
          fits.names.short fits.names.cmd small fits.contents_small fits.out_small fits.packed holds
          ((h.apart.lock_dirs (active_dir x.tr) (received l1.tr x.tr)).keeps u1 tt _
            ((request_next-Keeps w t (λ v. dir_exists w (active_dir x.tr) v ≡ pos 1) []
                (h.apart.dirs (active_dir x.tr)) rounds l).keeps
              s (some l1) u1 there.0 asked)
            (h.shared.set_lem (received l1.tr x.tr) u1))
          ((h.room_lock (item_file x) (received l1.tr x.tr)).keeps u1 tt _
            ((request_next-Keeps w t (λ v. h.files.can_write v (item_file x) ≡ true) []
                (h.files.room (item_file x)) rounds l).keeps
              s (some l1) u1 there.1 asked)
            (h.shared.set_lem (received l1.tr x.tr) u1))
          p1 in
      let l2 = after_sending x.tr x.contents x.out b2 l1 in
      let array2 : length l2.rec ≡ size = size1 ∙ array in
      let (b3, array3, u3, removed, holds3, size3, p3) =
        exchange_reply w t unread h.stream h.net cmd (removed_line x.tr) rest l2 u2
          (removed_line-IsText x.tr fits.names.text) (omega arith)
          (subst (λ n. length (removed_line x.tr) < n) (sym array2) fits.reply) (removed-error x.tr)
          p2 in
      let l3 : Local = record l2 { b = b3; rec = array3 } in
      (
        l3,
        u3,
        round-run w t rounds scratch x.tr l l1 l3 s u1 u3 h.runs asked
            (on_sending-line w t line scratch l1 u1 holds (sending-begins x.tr a z) ∙ run ∙ removed)
            holds3,
        size3 ∙ array2,
        refl,
        (λ P h' at_set.
            (exchange-Keeps w t P [] h' cmd l2).keeps u2 l3 u3
              ((receive_and_decompress-Keeps w P [] (unwritten h') (item_file x)
                  (local_file-nonempty x.tr) scratch l1.b z a).keeps
                (h.shared.set (received l1.tr x.tr) u1) _ u2 (at_set l1.tr u1) got)
              removed),
        exchange-kept cmd l2 l3 u2 u3 removed (item_file x) x.contents stored,
        (λ name bytes other before. exchange-kept cmd l2 l3 u2 u3 removed name bytes (
            receive-kept x.tr scratch l1 a z u1 u2 got name bytes other (
              (request_next-Keeps w t (λ v. file v name ≡ some bytes) name
                  (h.apart.calls name bytes) rounds l).keeps
                s (some l1) u1 before asked))),
        item-said x scratch l1 l2 l3 s u1 u2 u3 told got removed,
        (λ P h' set before.
            (exchange-Keeps w t P [] h' cmd l2).keeps u2 l3 u3
              ((receive_and_decompress-Keeps w P [] (unwritten h') (item_file x)
                  (local_file-nonempty x.tr) scratch l1.b z a).keeps
                (h.shared.set (received l1.tr x.tr) u1) _ u2
                ((set (received l1.tr x.tr)).keeps u1 tt _
                  ((request_next-Keeps w t P [] h' rounds l).keeps s (some l1) u1 before asked)
                  (h.shared.set_lem (received l1.tr x.tr) u1))
                got)
              removed),
        p3,
      )
