-- ===== src/Prelude/Actions.antt =====
-- A method of an object: it reads and changes a state, and returns or throws. The state comes back
-- after a throw too, since what was written stays written.
use mathlib.Core.Bool.{Bool, true, false}
use mathlib.Core.Option.{Option, none, some}
use cemp_mobile.Prelude.Results.{Result, ok, err}
use cemp_mobile.Prelude.Tests.{if◌then◌else◌}

abbrev pub Action {ℓ} : Type 0 → Type 0 → Type ℓ → Type ℓ
Action S E A = S → Result E A × S

module _ {ℓ} {S E : Type 0} {A : Type ℓ} where
  abbrev pub pure : A → Action S E A
  pure a s = (ok a, s)

  abbrev pub raise : E → Action S E A
  raise e s = (err e, s)

  abbrev pub gets : (S → A) → Action S E A
  gets f s = (ok (f s), s)

  abbrev pub or_raise : Option A → E → Action S E A
  or_raise none e s = (err e, s)
  or_raise (some a) e s = (ok a, s)

  -- A call that does not touch the state.
  abbrev pub lift : Result E A → Action S E A
  lift r s = (r, s)

abbrev pub modify : {S E : Type 0} → (S → S) → Action S E (Unit {0})
modify f s = (ok tt, f s)

abbrev pub raise_if : {S E : Type 0} → Bool → E → Action S E (Unit {0})
raise_if c e s = (if c then err e else ok tt, s)

-- What a call does next, from its outcome.
abbrev pub and_then {ℓ κ} :
    {S E : Type 0} {A : Type ℓ} {B : Type κ} → (A → Action S E B) → Result E A × S → Result E B × S
and_then f (ok a, s) = f a s
and_then f (err e, s) = (err e, s)

infixl 5 ◌>>=◌ ◌>>◌
abbrev pub ◌>>=◌ {ℓ κ} :
    {S E : Type 0} {A : Type ℓ} {B : Type κ} → Action S E A → (A → Action S E B) → Action S E B
◌>>=◌ m f s = and_then f (m s)

abbrev pub ◌>>◌ {ℓ κ} :
    {S E : Type 0} {A : Type ℓ} {B : Type κ} → Action S E A → Action S E B → Action S E B
m >> k = m >>= λ _. k

-- A call that keeps what held before it, whether it returns or throws.
abbrev pub Keeps {ℓ} : {S E : Type 0} {A : Type ℓ} → (S → Type 0) → Action S E A → Type 0
Keeps P m = (s : _) → P s → P (m s).1

-- A chain keeps what each of its calls keeps.
pub chain {ℓ κ} :
    {S E : Type 0} {A : Type ℓ} {B : Type κ} (P : S → Type 0) (m : Action S E A)
    (f : A → Action S E B)
    → Keeps P m
    → ((a : A) → Keeps P (f a))
    → Keeps P (m >>= f)
chain P m f h k s p = after (m s) (h s p)
  where
    after : (r : Result _ _ × _) → P r.1 → P (and_then f r).1
    after (ok a, t) q = k a t q
    after (err e, t) q = q

-- A branch keeps what both of its arms keep.
pub either-keeps {ℓ} :
    {S E : Type 0} {A : Type ℓ} (P : S → Type 0) (b : Bool) (m k : Action S E A)
    → Keeps P m
    → Keeps P k
    → Keeps P (if b then m else k)
either-keeps P true m k h l = h
either-keeps P false m k h l = l
