-- ===== src/Client/Transmission/Waits.antt =====
-- The client waits for the next file: WAIT is answered by another SEND_NEXT.
use study_and_development_of.Base.{
  ℕ, zero, suc, ◌<◌, ◌≡◌, refl, ◌∙◌, pos, Bytes, ◌∷◌, ◌++◌, append_assoc, codes, some, c_str,
  starts_with, length, All, true, false, arith,
}
use study_and_development_of.World.{done, World, bind-done}
use study_and_development_of.Common.TcpBuffer.{TcpBuffer}
use study_and_development_of.Common.Stream.{IsStream, Pending}
use study_and_development_of.Common.Stream.Lines.{IsText}
use study_and_development_of.Client.Exchange.{tcp_send_receive_tt}
use study_and_development_of.Client.Exchange.Replies.{tcp_send_receive_tt-line}
use study_and_development_of.Client.Transmission.{Shared, Local, exchange, request_next}

-- What the thread relies on in sending: it succeeds, and takes nothing off what is to be received.
pub record Sending {S : Type 0} (w : World S) (unread : S → Bytes) : Type 0 where
  pub after : Bytes → S → S
  pub text : (m : Bytes) (s : S) → w.tcp_send m s ≡ done (pos 1) (after m s)
  pub unread-after : (m : Bytes) (s : S) → unread (after m s) ≡ unread s

-- As many WAIT lines, and then the rest.
unfoldable pub waits : ℕ → Bytes → Bytes
waits zero rest = rest
waits (suc k) rest = codes "WAIT\n" ++ waits k rest

-- One request for each WAIT, and one more.
unfoldable pub asks : ℕ → Bytes
asks zero = codes "SEND_NEXT\n"
asks (suc k) = codes "SEND_NEXT\n" ++ asks k

module _ {S : Type 0} (w : World S) (t : Shared S) where
  -- An exchange adds its command to what has been said.
  abbrev pub Tells : (S → Bytes) → Type 0
  Tells said =
      (cmd : Bytes) (l l' : Local) (v v' : S)
      → exchange w t cmd l v ≡ done l' v'
      → said v' ≡ said v ++ cmd

module _ {S : Type 0} (w : World S) (t : Shared S) (unread : S → Bytes) (stream : IsStream w unread)
    (net : Sending w unread) where
  -- The reply is in the array, the other variables are as they were.
  pub exchange_reply :
      (cmd line rest : Bytes) (l : Local) (s : S)
      → All IsText line
      → 0 < length line
      → length line < length l.rec
      → starts_with (codes "ERROR") line ≡ false
      → Pending unread l.b s (line ++ b'\n' ∷ rest)
      → (b : TcpBuffer) × (array : Bytes) × (u : S) × (exchange w t cmd l s
          ≡ done (record l { b = b; rec = array }) u)
        × (c_str array ≡ line)
        × (length array ≡ length l.rec)
        × Pending unread b u rest
  unfolding exchange
  exchange_reply cmd line rest l s text some_byte fits fine p =
      let p1 : Pending unread l.b (net.after cmd s) (line ++ b'\n' ∷ rest) = record {
        ahead = p.ahead;
        buffered = p.buffered;
        stream_is = rw (net.unread-after cmd s) p.stream_is;
      } in
      let (b, array, u, asked, holds, size, p2) =
        tcp_send_receive_tt-line w unread stream line rest cmd l.rec l.b s (net.after cmd s)
          (net.text cmd s) text some_byte fits fine p1 in
      (b, array, u, bind-done (tcp_send_receive_tt w l.b cmd l.rec) _ asked, holds, size, p2)

  -- As many WAIT answers as there are rounds to spare, and then another answer.
  pub request_next-answered :
      (rounds k : ℕ) (line rest : Bytes) (l : Local) (s : S)
      → k < rounds
      → ((u : S) → t.running u ≡ true)
      → All IsText line
      → 0 < length line
      → length line < length l.rec
      → 4 < length l.rec
      → starts_with (codes "ERROR") line ≡ false
      → starts_with (codes "WAIT") line ≡ false
      → Pending unread l.b s (waits k (line ++ b'\n' ∷ rest))
      → (l' : Local) × (u : S) × (request_next w t rounds l s ≡ done (some l') u)
        × (c_str l'.rec ≡ line)
        × (length l'.rec ≡ length l.rec)
        × (l'.transmission_dir ≡ l.transmission_dir)
        × ((said : S → Bytes) → Tells w t said → said u ≡ said s ++ asks k)
        × Pending unread l'.b u rest
  unfolding request_next exchange waits asks starts_with
  request_next-answered zero k line rest l s enough runs text some_byte fits room fine other p =
      absurd (omega arith)
  request_next-answered (suc rounds) zero line rest l s enough runs text some_byte fits room fine
        other p =
      let (b, array, u, run, holds, size, p') =
        exchange_reply (codes "SEND_NEXT\n") line rest l s text some_byte fits fine p in
      (
        record l { b = b; rec = array },
        u,
        bind-done (exchange w t (codes "SEND_NEXT\n") l) _ run ∙ rw (holds, other) refl,
        holds,
        size,
        refl,
        (λ said tells. tells (codes "SEND_NEXT\n") l (record l { b = b; rec = array }) s u run),
        p',
      )
  request_next-answered (suc rounds) (suc k) line rest l s enough runs text some_byte fits room fine
        other p =
      let (b, array, u1, run, holds, size, p1) =
        exchange_reply (codes "SEND_NEXT\n") (codes "WAIT") (waits k (line ++ b'\n' ∷ rest)) l s
          (omega arith) (omega arith) room refl p in
      let l1 : Local = record l { b = b; rec = array } in
      let (l', u, again, holds', size', same, told, p') =
        request_next-answered rounds k line rest l1 u1 (omega arith) runs text some_byte
          (omega arith) (omega arith) fine other p1 in
      (
        l',
        u,
        bind-done (exchange w t (codes "SEND_NEXT\n") l) _ run ∙ rw (holds, runs u1) again,
        holds',
        size' ∙ size,
        same,
        (λ said tells.
            told said tells
            ∙ rw (tells (codes "SEND_NEXT\n") l l1 s u1 run)
                (append_assoc (said s) (codes "SEND_NEXT\n") (asks k))),
        p',
      )

  -- If the thread is not told to stop, every send succeeds and takes nothing off the connection,
  -- and the connection delivers any number of WAIT lines and then a line of text that fits the
  -- array and begins with neither WAIT nor ERROR, then the requests of the transmission thread end
  -- with that line, after one round for each WAIT and one more, and the connection goes on behind
  -- it.
  pub request_next-waits :
      (k : ℕ) (line rest : Bytes) (l : Local) (s : S)
      → ((u : S) → t.running u ≡ true)
      → All IsText line
      → 0 < length line
      → length line < length l.rec
      → 4 < length l.rec
      → starts_with (codes "ERROR") line ≡ false
      → starts_with (codes "WAIT") line ≡ false
      → Pending unread l.b s (waits k (line ++ b'\n' ∷ rest))
      → (l' : Local) × (u : S) × (request_next w t (suc k) l s ≡ done (some l') u)
        × (c_str l'.rec ≡ line)
        × Pending unread l'.b u rest
  request_next-waits k line rest l s runs text some_byte fits room fine other p =
      let (l', u, run, holds, size, same, told, p') =
        request_next-answered (suc k) k line rest l s (omega arith) runs text some_byte fits room
          fine other p in
      (l', u, run, holds, p')
