-- ===== src/Prelude/Checked.antt =====
-- The result of a parser: a value, or the first error. The programs of Command and Invitation chain
-- their tests with `do`, where a `reject_if` stands for an early return and `ok_or` for `ok_or(..)?`.
use mathlib.Core.Bool.{Bool, true, false}
use mathlib.Core.Option.{Option, none, some}

pub data Checked {ℓ} (E : Type 0) (A : Type ℓ) : Type ℓ where
  ok : A → Checked E A
  err : E → Checked E A

infixl 5 ◌>>◌ ◌>>=◌
-- The second part runs on the value of the first.
abbrev pub ◌>>=◌ {ℓ κ} :
    {E : Type 0} {A : Type ℓ} {B : Type κ} → Checked E A → (A → Checked E B) → Checked E B
err x >>= next = err x
ok v >>= next = next v

-- A test, and what follows it when it passes.
abbrev pub ◌>>◌ {κ} : {E : Type 0} {B : Type κ} → Checked E (Unit {0}) → Checked E B → Checked E B
err x >> next = err x
ok u >> next = next

abbrev pub reject_if : {E : Type 0} → Bool → E → Checked E (Unit {0})
reject_if false x = ok tt
reject_if true x = err x

abbrev pub ok_or {ℓ} : {E : Type 0} {A : Type ℓ} → Option A → E → Checked E A
ok_or none x = err x
ok_or (some v) x = ok v
