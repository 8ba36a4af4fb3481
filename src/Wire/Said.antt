-- ===== src/Wire/Said.antt =====
-- What the transmission thread says: sending adds to it, and nothing else does.
use study_and_development_of.Base.{◌≡◌, subst, Bytes, ◌++◌, ℤ, is_pos}
use study_and_development_of.World.{World, done}
use study_and_development_of.World.Keeps.{Keeps, done-state, continue-done, bind-Keeps, if-Keeps}
use study_and_development_of.Common.Info.{TrInfo}
use study_and_development_of.Common.TcpBuffer.{TcpBuffer}
use study_and_development_of.Common.Stream.Reads.{tcp_readline-Keeps}
use study_and_development_of.Client.Exchange.{tcp_send_receive_tt}
use study_and_development_of.Client.Transmission.{Shared, exchange}
use study_and_development_of.Client.Transmission.Waits.{Tells}
use study_and_development_of.Wire.Frame.{
  Unwritten, exit_transmission_thread-Keeps, check_reply-Keeps,
}

-- `said` is what has been sent: receiving, writing files and renaming add nothing.
pub record Speaks {S : Type 0} (w : World S) (said : S → Bytes) : Type 0 where
  pub send : (m : Bytes) (s : S) (z : ℤ) (u : S) → w.tcp_send m s ≡ done z u → said u ≡ said s ++ m
  pub quiet : (b name : Bytes) → Unwritten w (λ v. said v ≡ b) name
  pub rename : (b old new : Bytes) → Keeps (λ v. said v ≡ b) (w.rename old new)

-- Between the two states the thread has said `b`.
abbrev pub Says : {S : Type 0} → World S → S → S → Bytes → Type 0
Says {S = S} w s u b = (said : S → Bytes) → Speaks w said → said u ≡ said s ++ b

-- The same, where what is shared may be set.
abbrev pub SaysApart : {S : Type 0} → World S → (TrInfo → S → S) → S → S → Bytes → Type 0
SaysApart {S = S} w set s u b =
    (said : S → Bytes)
    → Speaks w said
    → ((tr : TrInfo) (v : S) → said (set tr v) ≡ said v)
    → said u ≡ said s ++ b

module _ {S : Type 0} (w : World S) (said : S → Bytes) (h : Speaks w said) where
  pub tcp_send_receive_tt-said :
      (b : TcpBuffer) (send rec : Bytes) (s u : S) {r : TcpBuffer × Bytes}
      → tcp_send_receive_tt w b send rec s ≡ done r u
      → said u ≡ said s ++ send
  unfolding tcp_send_receive_tt
  tcp_send_receive_tt-said b send rec s u e =
      let (z, v, sent, others) = continue-done _ (w.tcp_send send s) e in
      let P : S → Type 0 = λ x. said x ≡ said s ++ send in
      (if-Keeps P (is_pos z 0) _ _ (exit_transmission_thread-Keeps w P _) (
          bind-Keeps P _ _ (tcp_readline-Keeps w P ((h.quiet (said s ++ send) send).receive) b rec)
            (check_reply-Keeps w P))).keeps
        v _ u (h.send send s z v sent) others

  pub exchange-Tells : (t : Shared S) → Tells w t said
  unfolding exchange
  exchange-Tells t cmd l l' v v' e =
      let (r, u, asked, others) = continue-done _ (tcp_send_receive_tt w l.b cmd l.rec v) e in
      subst (λ x. said x ≡ said v ++ cmd) (done-state others)
        (tcp_send_receive_tt-said l.b cmd l.rec v u asked)
