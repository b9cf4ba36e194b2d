-- ===== src/Base/Outcome.antt =====
-- Rust's `Result<A, E>`, and blocking: `Option` where `none` is a task that waits for ever.
use mathlib.Core.Path.{◌≡◌, refl}
use mathlib.Core.Logic.{◌⊎◌, inl, inr}
use mathlib.Core.Option.{Option, none, some}

pub data Result (A E : Type 0) : Type 0 where
  ok : A → Result A E
  err : E → Result A E

-- `?`
infixl 5 ◌>>=◌
abbrev pub ◌>>=◌ : {A B E : Type 0} → Result A E → (A → Result B E) → Result B E
ok a >>= f = f a
err e >>= f = err e

-- `map_err(|_| e)`
abbrev pub or_error : {A D E : Type 0} → E → Result A D → Result A E
or_error e (ok a) = ok a
or_error e (err _) = err e

-- `Result::ok`
abbrev pub ok? : {A E : Type 0} → Result A E → Option A
ok? (ok a) = some a
ok? (err _) = none

-- `Option::ok_or`
abbrev pub ok_or : {A E : Type 0} → Option A → E → Result A E
ok_or none e = err e
ok_or (some a) e = ok a

pub Result-cases :
    {A E : Type 0} (r : Result A E) → ((a : A) × (r ≡ ok a)) ⊎ ((e : E) × (r ≡ err e))
Result-cases (ok a) = inl (a, refl)
Result-cases (err e) = inr (e, refl)

-- What follows a step that may wait for ever.
abbrev pub and_then {ℓ κ} : {A : Type ℓ} {B : Type κ} → Option A → (A → Option B) → Option B
and_then none f = none
and_then (some a) f = f a
