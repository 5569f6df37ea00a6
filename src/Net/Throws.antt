-- ===== src/Net/Throws.antt =====
-- Member functions that may throw: how they end, and the messages that
-- `make_error_message_with_appended_last_errno` of src/mart-netlib/detail/socket_base.cpp writes.
use mart_common.Prelude.{suc, Bool, true, false, List, [], ◌∷◌, ◌++◌}
use mart_common.Prelude.Int.{pos, negsuc}
use mart_common.Text.{Bytes, codes}
use mart_common.Text.Decimal
use mart_common.Net.Results.{ErrorCode}

-- `generic_nw_error` with its message, and `narrowing_error`.
pub data Exception : Type 0 where
  generic_nw_error : Bytes → Exception
  narrowing_error : Exception

-- `aborted`: a failed assertion, `std::terminate`, or an exception in a `noexcept` function.
pub data Outcome (A : Type 0) : Type 0 where
  ok : A → Outcome A
  thrown : Exception → Outcome A
  aborted : Outcome A

abbrev pub ⊤ : Type 0
⊤ = Unit

-- What was written stays written when a function throws.
abbrev pub Action : Type 0 → Type 0 → Type 0
Action S A = S → Outcome A × S

infixl 5 ◌>>=◌ ◌>>◌
abbrev pub ◌>>=◌ : {S A B : Type 0} → Action S A → (A → Action S B) → Action S B
◌>>=◌ m f s =
    let (r, s') = m s in
    elim r [ ok a ↦ f a s' | thrown e ↦ (thrown e, s') | aborted ↦ (aborted, s') ]

abbrev pub ◌>>◌ : {S A B : Type 0} → Action S A → Action S B → Action S B
m >> k = m >>= λ _. k

abbrev pub pure : {S A : Type 0} → A → Action S A
pure a s = (ok a, s)

abbrev pub throw : {S A : Type 0} → (S → Exception) → Action S A
throw e s = (thrown (e s), s)

abbrev pub abort : {S A : Type 0} → Action S A
abort s = (aborted, s)

-- A call that cannot throw.
abbrev pub call : {S A : Type 0} → (S → A × S) → Action S A
call f s = let (a, s') = f s in (ok a, s')

abbrev pub throw_unless : {S : Type 0} → Bool → (S → Exception) → Action S ⊤
throw_unless true e = pure tt
throw_unless false e = throw e

abbrev pub assert : {S : Type 0} → Bool → Action S ⊤
assert true = pure tt
assert false = abort

abbrev pub concat : List Bytes → Bytes
concat [] = []
concat (s ∷ ss) = s ++ concat ss

-- `errno_nr_as_string`: a buffer of 24 bytes is large enough for every `int`.
unfoldable pub errno_nr_as_string : ErrorCode → Bytes
errno_nr_as_string error = elim (error.value) [
  | pos n ↦ Decimal.to_string n
  | negsuc n ↦ b'-' ∷ Decimal.to_string (suc n)
]

-- The text of an error is a parameter (`std::strerror`, by `to_text_rep`).
unfoldable pub make_error_message : (ErrorCode → Bytes) → ErrorCode → List Bytes → Bytes
unfolding errno_nr_as_string
make_error_message to_text_rep error elements =
    concat elements
    ++ codes "| Error Code:"
    ++ errno_nr_as_string error
    ++ codes " Error Msg: "
    ++ to_text_rep error
