-- ===== src/World/Keeps.antt =====
-- What a piece of code leaves as it is: a predicate on the environment that holds before it holds
-- after it, if the code returns.
use study_and_development_of.Base.{◌≡◌, refl, subst, Bool, true, false, ℤ, if◌then◌else◌}
use study_and_development_of.World.{
  Outcome, done, exited, overflow, Prog, continue, ◌>>=◌, pure, gets, leave,
}

pub record Keeps {S A : Type 0} (P : S → Type 0) (m : Prog S A) : Type 0 where
  pub keeps : (s : S) (a : A) (t : S) → P s → m s ≡ done a t → P t

pub done-state : {S A : Type 0} {a b : A} {s t : S} → done a s ≡ done b t → s ≡ t
done-state e = cc

pub continue-done :
    {S A B : Type 0} (f : A → Prog S B) (o : Outcome S A) {b : B} {u : S}
    → continue f o ≡ done b u
    → (a : A) × (t : S) × (o ≡ done a t) × (f a t ≡ done b u)
continue-done f (done a t) e = (a, t, refl, e)
continue-done f (exited c t) e = cc
continue-done f overflow e = cc

module _ {S : Type 0} (P : S → Type 0) where
  pub pure-Keeps : {A : Type 0} (a : A) → Keeps P (pure {S = S} a)
  pure-Keeps a = record { keeps = λ s b t p e. subst P (done-state e) p }

  pub gets-Keeps : {A : Type 0} (f : S → A) → Keeps P (gets f)
  gets-Keeps f = record { keeps = λ s b t p e. subst P (done-state e) p }

  pub leave-Keeps : {A : Type 0} (code : ℤ) → Keeps P (leave {S = S} {A = A} code)
  leave-Keeps code = record { keeps = λ s b t p e. cc }

  pub overflow-Keeps : {A : Type 0} → Keeps {A = A} P (λ s. overflow)
  overflow-Keeps = record { keeps = λ s b t p e. cc }

  pub bind-Keeps :
      {A B : Type 0} (m : Prog S A) (f : A → Prog S B)
      → Keeps P m
      → ((a : A) → Keeps P (f a))
      → Keeps P (m >>= f)
  bind-Keeps m f km kf = record {
    keeps = λ s b u p e.
        let (a, t, first, second) = continue-done f (m s) e in
        (kf a).keeps t b u (km.keeps s a t p first) second;
  }

  -- A value that is known.
  pub known-Keeps :
      {A B : Type 0} (a : A) (f : A → Prog S B) → Keeps P (f a) → Keeps P (pure a >>= f)
  known-Keeps a f k = record { keeps = λ s b u p e. k.keeps s b u p e }

  pub if-Keeps :
      {A : Type 0} (b : Bool) (x y : Prog S A)
      → Keeps P x
      → Keeps P y
      → Keeps P (if b then x else y)
  if-Keeps true x y kx ky = kx
  if-Keeps false x y kx ky = ky

  -- A test that reads the environment.
  pub test-Keeps :
      {A : Type 0} (b : S → Bool) (x y : Prog S A)
      → Keeps P x
      → Keeps P y
      → Keeps P (λ s. if b s then x s else y s)
  test-Keeps {A} b x y kx ky = record { keeps = λ s a t p e. branch (b s) s a t p e }
    where
      branch : (v : Bool) (s : S) (a : A) (t : S) → P s → (if v then x s else y s) ≡ done a t → P t
      branch true s a t p e = kx.keeps s a t p e
      branch false s a t p e = ky.keeps s a t p e
