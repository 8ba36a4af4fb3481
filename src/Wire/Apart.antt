-- ===== src/Wire/Apart.antt =====
-- What asking for a file and receiving it leave of the other files.
use study_and_development_of.Base.{ℕ, zero, suc, Bytes, codes, some, c_str, starts_with, ◌&&◌}
use study_and_development_of.World.{World, gets}
use study_and_development_of.World.Keeps.{Keeps, pure-Keeps, gets-Keeps, bind-Keeps, if-Keeps}
use study_and_development_of.Client.Exchange.{tcp_send_receive_tt}
use study_and_development_of.Client.Transmission.{Shared, Local, exchange, request_next}
use study_and_development_of.Wire.Frame.{Untouched, tcp_send_receive_tt-Keeps}

module _ {S : Type 0} (w : World S) (t : Shared S) (P : S → Type 0) (name : Bytes)
    (h : Untouched w P name) where
  pub exchange-Keeps : (cmd : Bytes) (l : Local) → Keeps P (exchange w t cmd l)
  unfolding exchange
  exchange-Keeps cmd l =
      bind-Keeps P (tcp_send_receive_tt w l.b cmd l.rec) _
        (tcp_send_receive_tt-Keeps w P name h l.b cmd l.rec)
        λ (b, rec). pure-Keeps P (record l { b = b; rec = rec })

  pub request_next-Keeps : (rounds : ℕ) (l : Local) → Keeps P (request_next w t rounds l)
  unfolding request_next
  request_next-Keeps zero l = pure-Keeps P _
  request_next-Keeps (suc rounds) l =
      bind-Keeps P (exchange w t (codes "SEND_NEXT\n") l) _ (exchange-Keeps (codes "SEND_NEXT\n") l)
        λ l'. bind-Keeps P (gets t.running) _ (gets-Keeps P t.running) λ running.
          if-Keeps P (starts_with (codes "WAIT") (c_str l'.rec) && running) _ _
            (request_next-Keeps rounds l') (pure-Keeps P (some l'))
