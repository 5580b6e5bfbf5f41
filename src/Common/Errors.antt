-- ===== src/Common/Errors.antt =====
-- src/goblin/common/error.hpp and error.cpp: error codes, and results as values.
use mathlib.Core.Path.{◌≡◌, refl}
use mathlib.Core.Logic.{◌⊎◌, inl, inr}
use Prim.Native.String.{String}

pub data Errc : Type 0 where
  ok not_found already_exists cas_mismatch out_of_space out_of_memory too_large : Errc
  invalid_argument invalid_protocol io_error unsupported : Errc
  backpressure_timeout would_block : Errc

unfoldable pub to_string : Errc → String
to_string Errc.ok = "ok"
to_string not_found = "not_found"
to_string already_exists = "already_exists"
to_string cas_mismatch = "cas_mismatch"
to_string out_of_space = "out_of_space"
to_string out_of_memory = "out_of_memory"
to_string too_large = "too_large"
to_string invalid_argument = "invalid_argument"
to_string invalid_protocol = "invalid_protocol"
to_string io_error = "io_error"
to_string unsupported = "unsupported"
to_string backpressure_timeout = "backpressure_timeout"
to_string would_block = "would_block"

pub record Error : Type 0 where
  pub code : Errc
  pub detail : String

-- `std::expected<T, Error>`
pub data Result {ℓ} (A : Type ℓ) : Type ℓ where
  value : A → Result A
  error : Error → Result A

pub Result-cases {ℓ} :
    {A : Type ℓ} (r : Result A) → ((e : Error) × (r ≡ error e)) ⊎ ((a : A) × (r ≡ value a))
Result-cases (error e) = inl (e, refl)
Result-cases (value a) = inr (a, refl)

abbrev pub Status : Type 0
Status = Result (Unit {0})

abbrev pub done : Status
done = value tt

abbrev pub err {ℓ} : {A : Type ℓ} → Errc → String → Result A
err c d = error (record { code = c; detail = d })

infixl 5 ◌>>=◌ ◌>>◌
abbrev pub ◌>>=◌ {ℓ κ} : {A : Type ℓ} {B : Type κ} → Result A → (A → Result B) → Result B
value a >>= f = f a
error e >>= f = error e

abbrev pub ◌>>◌ {ℓ} : {B : Type ℓ} → Status → Result B → Result B
m >> k = m >>= λ _. k
