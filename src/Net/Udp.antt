-- ===== src/Net/Udp.antt =====
-- The types of endpoints that DgramSocket is used with: `udp::endpoint` of
-- include/mart-netlib/udp.hpp and `un::endpoint` of include/mart-netlib/unix.hpp.
use mart_common.Prelude.{ℕ, true, Option, []}
use mart_common.Prelude.Int.{ℤ}
use mart_common.Text.{Bytes}
use mart_common.Net.Enums.{inet, local_domain}
use mart_common.Net.Native.{un}
use mart_common.Net.Sockaddrs.{
  default_sockaddr_in, to_sock_addr_in, endpoint_of, sockaddr_un, sockaddr_un_of, path,
}
use mart_common.Net.Endpoint
use mart_common.Net.Endpoint.{
  EndpointV4, default_endpoint, try_parse_basic_v4_endpoint, TransportProtocol,
}
use mart_common.Net.Dgram.{EndpointType}

-- `inet_ntop` is a parameter, as in Endpoint.
unfoldable pub udp_endpoint : (ℤ → ℕ → ℕ → Option Bytes) → EndpointType EndpointV4
udp_endpoint inet_ntop = record {
  domain = inet;
  default_ = default_endpoint;
  valid = λ e. e.valid;
  to_sock_addr = to_sock_addr_in;
  abi_default = default_sockaddr_in;
  of_sock_addr = endpoint_of;
  to_string = Endpoint.to_string inet_ntop;
  to_string_ex = λ e. Endpoint.to_string_ex inet_ntop e TransportProtocol.udp;
}

unfoldable pub try_parse_v4_endpoint : Bytes → Option EndpointV4
unfolding try_parse_basic_v4_endpoint
try_parse_v4_endpoint str = try_parse_basic_v4_endpoint str

-- An endpoint is its path. The text of `im_str` always has data, so every endpoint is valid.
unfoldable pub un_endpoint : EndpointType Bytes
unfolding sockaddr_un path
un_endpoint = record {
  domain = local_domain;
  default_ = [];
  valid = λ e. true;
  to_sock_addr = sockaddr_un;
  abi_default = sockaddr_un_of (un []);
  of_sock_addr = path;
  to_string = λ e. e;
  to_string_ex = λ e. e;
}
