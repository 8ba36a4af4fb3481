-- ===== src/Client/Main/Connects.antt =====
-- Connect tries again until the server accepts.
use study_and_development_of.Base.{
  ℕ, zero, suc, ◌<◌, ◌≡◌, refl, ◌∙◌, ℤ, pos, is_pos, is_neg, codes, Bool, true, false, some, arith,
}
use study_and_development_of.World.{done, World, bind-done}
use study_and_development_of.Client.Console.{Console, mvprintw, refresh, get_user_input}
use study_and_development_of.Client.Main.{Threads, connect}

module _ {S : Type 0} (w : World S) (c : Console S) (t : Threads S) where
  -- From `s` to `u` an attempt is refused, and the user does not give up: another key or none.
  pub record Refusal (s u : S) : Type 0 where
    pub sk : ℤ
    pub key : ℤ
    pub s1 : S
    pub s2 : S
    pub s3 : S
    pub refused : w.connect s ≡ done sk s1
    pub is_refused : is_neg sk ≡ true
    pub told : c.screen (mvprintw 2 0 (codes "LOGGER: DISCONNECTED")) s1 ≡ done tt s2
    pub shown : c.screen refresh s2 ≡ done tt s3
    pub pressed : get_user_input c s3 ≡ done key u
    pub goes_on : is_pos key b'5' ≡ false

  -- As many attempts that are refused.
  pub data Refusals : ℕ → S → S → Type 0 where
    no_more : {s : S} → Refusals zero s s
    once_more : {k : ℕ} {s u v : S} → Refusal s u → Refusals k u v → Refusals (suc k) s v

  connect-refused :
      (rounds : ℕ) (end : Bool) (s u : S)
      → Refusal s u
      → connect w c t (suc rounds) false end s ≡ connect w c t rounds false end u
  unfolding connect
  connect-refused rounds end s u r =
      bind-done w.connect _ r.refused
      ∙ rw r.is_refused (
          bind-done (c.screen (mvprintw 2 0 (codes "LOGGER: DISCONNECTED"))) _ r.told
          ∙ bind-done (c.screen refresh) _ r.shown
          ∙ bind-done (get_user_input c) _ r.pressed
          ∙ rw r.goes_on refl)

  -- If the server refuses any number of attempts, at none of which the user presses 5, and then
  -- accepts, Connect sets its flag `connected` and leaves `end` as it was, with one round for each
  -- attempt.
  pub connect-accepted :
      (k rounds : ℕ) (end : Bool) (n : ℕ) (s u v : S)
      → Refusals k s u
      → k < rounds
      → w.connect u ≡ done (pos n) v
      → connect w c t rounds false end s ≡ done (some (true, end)) v
  unfolding connect
  connect-accepted k zero end n s u v tries few accepted = elim few [ ]
  connect-accepted zero (suc rounds) end n s u v no_more few accepted =
      bind-done w.connect _ accepted
  connect-accepted (suc k) (suc rounds) end n s u v (once_more {u = s'} r tries) few accepted =
      connect-refused rounds end s s' r
      ∙ connect-accepted k rounds end n s' u v tries (omega arith) accepted
