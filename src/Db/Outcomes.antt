-- ===== src/Db/Outcomes.antt =====
-- What a routine of the server does besides returning: it panics, or it faults (it follows a pointer
-- to no object, or loops for ever).
use wp_lambdamoo.Prelude.{Option, none, some}

pub data Outcome {ℓ} (A : Type ℓ) : Type ℓ where
  ok : A → Outcome A
  panic : Outcome A
  fault : Outcome A

infixl 5 ◌>>=◌
abbrev pub ◌>>=◌ {ℓ κ} : {A : Type ℓ} {B : Type κ} → Outcome A → (A → Outcome B) → Outcome B
ok a >>= f = f a
panic >>= f = panic
fault >>= f = fault

abbrev pub from_option {ℓ} : {A : Type ℓ} → Option A → Outcome A
from_option none = fault
from_option (some a) = ok a
