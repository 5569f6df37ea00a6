-- ===== src/Net/Failure.antt =====
-- The exception `mart::nw::invalid_address_string` of include/mart-netlib/network_exceptions.hpp,
-- as the constructors of include/mart-netlib/ip.hpp throw it.
use mart_common.Prelude.{Option, none, some}

-- By the helper that throws; `unsplit` stands for a `split` that would throw itself.
pub data Error : Type 0 where
  invalid_format invalid_address invalid_port invalid_native unsplit : Error

pub data Result {ℓ} (A : Type ℓ) : Type ℓ where
  ok : A → Result A
  err : Error → Result A

infixl 5 ◌>>=◌
abbrev pub ◌>>=◌ {ℓ κ} : {A : Type ℓ} {B : Type κ} → Result A → (A → Result B) → Result B
ok a >>= f = f a
err e >>= f = err e

abbrev pub or_throw {ℓ} : {A : Type ℓ} → Option A → Error → Result A
or_throw none e = err e
or_throw (some a) e = ok a
