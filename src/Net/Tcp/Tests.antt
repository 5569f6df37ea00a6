-- ===== src/Net/Tcp/Tests.antt =====
-- Stream sockets on the simulated system.
use mart_common.Prelude.{ℕ, ◌≡◌, ◌≢◌, ◌⊎◌, refl, true, some, arith}
use mart_common.Text.{Bytes, codes}
use mart_common.Containers.ArrayView.{ArrayView}
use mart_common.Net.Results.{ErrorCode}
use mart_common.Net.Endpoint.{EndpointV4, default_endpoint}
use mart_common.Net.Simulated.{World, quiet, simulated, simulated-Transfers}
use mart_common.Net.PortLayer
use mart_common.Net.Throws.{Exception, ok, thrown, aborted}
use mart_common.Net.HighLevel.{Run}
use mart_common.Net.Tcp.{send}
use mart_common.Net.Tcp.Send.{took, sent_all, send_total}
use mart_common.Net.Tcp.Acceptor.{Acceptor, opened, listening, try_accept, move_assign}
use mart_common.Net.Tcp.States.{try_accept-move_assign}

abbrev text : ErrorCode → Bytes
text e = codes "error"

abbrev show : EndpointV4 → Bytes
show e = codes "endpoint"

abbrev connected : Run World EndpointV4
connected = record {
  object = record {
    sock = record { handle = some 3; blocking = true };
    ep_local = default_endpoint;
    ep_remote = default_endpoint;
  };
  memory = λ k. k;
  system = quiet;
}

abbrev view : ArrayView
view = record { data_ = 10; size = 4 }

send_total_example :
    ((◌≡◌ {A = ℕ} 4 0) × (send simulated text show 2 view connected ≡ some (ok tt, connected)))
    ⊎ ((◌≢◌ {A = ℕ} 4 0)
        × ((took simulated view connected).0 ≡ some 4)
        × (send simulated text show 2 view connected
            ≡ some (ok tt, sent_all simulated view connected)))
    ⊎ ((◌≢◌ {A = ℕ} 4 0)
        × ((took simulated view connected).0 ≢ some 4)
        × (e : Exception) × (send simulated text show 2 view connected
            ≡ some (thrown e, sent_all simulated view connected)))
send_total_example =
    send_total simulated simulated-Transfers text show 2 view connected (omega arith) (omega arith)

abbrev fresh : Acceptor
fresh = record {
  socket_handle = record { handle = some 3; blocking = true };
  ep_local = default_endpoint;
  state = opened;
}

abbrev local : EndpointV4
local = record { address = record { addr = 16777343 }; port = record { p = 36895 }; valid = true }

abbrev busy : Acceptor
busy = record {
  socket_handle = record { handle = some 4; blocking = true };
  ep_local = local;
  state = listening;
}

try_accept-move_assign_example :
    let (both, w') = move_assign simulated fresh busy quiet in
    ((both.0).socket_handle.handle ≡ some 4) × ((try_accept simulated (both.0, w')).0 ≡ aborted)
try_accept-move_assign_example =
    try_accept-move_assign simulated text show fresh busy quiet refl refl
