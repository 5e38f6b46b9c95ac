-- ===== src/Worker/Action.antt =====
-- A handler's effects: it runs on the server's tables, and what it has written stays written where
-- it throws afterwards.
use sendself.Base.{◌≡◌, refl, ap, ◌⊎◌, inl, inr}
use sendself.Errors.{Result, ok, err, ApiErrorCode}
use sendself.Worker.Tables.{Server}

abbrev pub Action : Type 0 → Type 0
Action A = Server → Result A × Server

abbrev pub pure : {A : Type 0} → A → Action A
pure a s = (ok a, s)

abbrev pub throw : {A : Type 0} → ApiErrorCode → Action A
throw e s = (err e, s)

infixl 5 ◌>>=◌ ◌>>◌
abbrev pub ◌>>=◌ : {A B : Type 0} → Action A → (A → Action B) → Action B
◌>>=◌ m f s = let r = m s in elim (r.0) [ ok a ↦ f a r.1 | err e ↦ (err e, r.1) ]

abbrev pub ◌>>◌ : {B : Type 0} → Action (Unit {0}) → Action B → Action B
m >> k = m >>= λ _. k

-- A handler that first checks and then writes: a request that is refused writes nothing.
abbrev pub guarded : {A B : Type 0} → Result A → (A → Action B) → Action B
guarded (ok a) f s = f a s
guarded (err e) f s = (err e, s)

-- What the state keeps through a handler, it keeps through its writes after a check that passed.
pub guarded_keeps {ℓ} :
    {A B : Type 0} (P : Server → Type ℓ) (c : Result A) (f : A → Action B) (s : Server)
    → P s
    → ((a : A) → c ≡ ok a → P (f a s).1)
    → P (guarded c f s).1
guarded_keeps P (ok a) f s h k = k a refl
guarded_keeps P (err e) f s h k = h

-- Checks that read the tables and write nothing.
abbrev pub checked : {A : Type 0} → (Server → Result A) → Action A
checked f s = (f s, s)

abbrev pub modify : (Server → Server) → Action (Unit {0})
modify f s = (ok tt, f s)

-- What runs after a step that succeeded.
pub >>-ok :
    {B : Type 0} (m : Action (Unit {0})) (k : Action B) (s t : Server)
    → m s ≡ (ok tt, t)
    → (m >> k) s ≡ k t
>>-ok m k s t e =
    ap (λ (r : Result (Unit {0}) × Server). elim (r.0) [ ok a ↦ k r.1 | err c ↦ (err c, r.1) ]) e

-- Nothing runs after a step that threw.
pub >>-err :
    {B : Type 0} (m : Action (Unit {0})) (k : Action B) (s t : Server) (c : ApiErrorCode)
    → m s ≡ (err c, t)
    → (m >> k) s ≡ (err c, t)
>>-err m k s t c e =
    ap (λ (r : Result (Unit {0}) × Server). elim (r.0) [ ok a ↦ k r.1 | err d ↦ (err d, r.1) ]) e

-- A step succeeds or throws.
pub step-cases :
    (m : Action (Unit {0})) (s : Server)
    → ((t : Server) × (m s ≡ (ok tt, t))) ⊎ ((c : ApiErrorCode) × (t : Server) × (m s ≡ (err c, t)))
step-cases m s = go (m s) refl
  where
    go :
        (r : Result (Unit {0}) × Server)
        → m s ≡ r
        → ((t : Server) × (m s ≡ (ok tt, t)))
          ⊎ ((c : ApiErrorCode) × (t : Server) × (m s ≡ (err c, t)))
    go (ok tt, t) e = inl (t, e)
    go (err c, t) e = inr (c, t, e)

-- What the state keeps through a step and through all that may follow it, it keeps through both.
pub >>=-keeps {ℓ} :
    {A B : Type 0} (P : Server → Type ℓ) (m : Action A) (k : A → Action B) (s : Server)
    → P (m s).1
    → ((a : A) (t : Server) → P t → P (k a t).1)
    → P ((m >>= k) s).1
>>=-keeps {A} {B} P m k s h l = go (m s) h
  where
    go :
        (r : Result A × Server)
        → P r.1
        → P (elim (r.0) as (λ _. Result B × Server) [ ok a ↦ k a r.1 | err e ↦ (err e, r.1) ]).1
    go (ok a, t) h = l a t h
    go (err e, t) h = h
