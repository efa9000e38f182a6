-- ===== src/Index/Outcome.antt =====
-- Results of the C++ code: a value, an exception, or undefined behaviour.
use search_engines.Base.{Option, none, some, Bool, true, false}

pub data Failure : Type 0 where
  -- std::invalid_argument, std::runtime_error
  invalid_argument : Failure
  truncated : Failure
  -- no exception: a read outside the buffer or a shift by 32 or more
  undefined : Failure

pub data Outcome {ℓ} (A : Type ℓ) : Type ℓ where
  ok : A → Outcome A
  failed : Failure → Outcome A

infixl 5 ◌>>=◌ ◌>>◌
abbrev pub ◌>>=◌ {ℓ κ} : {A : Type ℓ} {B : Type κ} → Outcome A → (A → Outcome B) → Outcome B
ok a >>= f = f a
failed e >>= f = failed e

abbrev pub ◌>>◌ {ℓ} : {B : Type ℓ} → Outcome (Unit {0}) → Outcome B → Outcome B
m >> k = m >>= λ _. k

-- `if (!test) throw e`
abbrev pub guard : Bool → Failure → Outcome (Unit {0})
guard true e = ok tt
guard false e = failed e

abbrev pub defined {ℓ} : {A : Type ℓ} → Option A → Outcome A
defined none = failed undefined
defined (some a) = ok a
