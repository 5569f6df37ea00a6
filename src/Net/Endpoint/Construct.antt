-- ===== src/Net/Endpoint/Construct.antt =====
-- The throwing constructor of an endpoint from a text, against `try_parse`.
use mart_common.Prelude.{
  ◌≡◌, true, Option, none, some, ltb, if◌then◌else◌, length, Option-cases, inl, inr, arith,
}
use mart_common.Text.{Bytes}
use mart_common.Text.Split.{split}
use mart_common.Net.Failure.{
  invalid_format, invalid_port, unsplit, Result, ok, err, ◌>>=◌, or_throw,
}
use mart_common.Net.AddressV4
use mart_common.Net.AddressV4.{AddressV4, try_parse_v4_address}
use mart_common.Net.Port.{try_parse_v4_port}
use mart_common.Net.Port.Parse.{try_parse_v4_port_iff}
use mart_common.Net.Endpoint.{colon, EndpointV4, endpoint, try_parse_basic_v4_endpoint}

-- `expects format XXX.XXX.XXX.XXX:pppp`.
unfoldable pub from_text : Bytes → Result EndpointV4
from_text str = do
  ps ← or_throw (split str colon) unsplit
  address ← (if ltb (length ps.1) 1 then err invalid_format else AddressV4.from_text ps.0)
  port ← or_throw (try_parse_v4_port ps.1) invalid_port
  ok (endpoint address port)

no_empty_port : (s : Bytes) → ltb (length s) 1 ≡ true → try_parse_v4_port s ≡ none
no_empty_port s h = elim (Option-cases (try_parse_v4_port s)) [
  | inl e ↦ e
  | inr (port, e) ↦ absurd (ground (arith, (try_parse_v4_port_iff s port).0 e))
]

abbrev pub forget {ℓ} : {A : Type ℓ} → Result A → Option A
forget (ok a) = some a
forget (err e) = none

-- On every text the constructor gives the endpoint that `try_parse` gives, and throws where
-- `try_parse` has none.
pub from_text-try_parse : (str : Bytes) → forget (from_text str) ≡ try_parse_basic_v4_endpoint str
unfolding from_text try_parse_basic_v4_endpoint AddressV4.from_text try_parse_v4_address
from_text-try_parse str = elim (Option-cases (split str colon)) [
  | inl e ↦ rw e
  | inr (ps, e) ↦ rw e (ground (arith, no_empty_port ps.1))
]
