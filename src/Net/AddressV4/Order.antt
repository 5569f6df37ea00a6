-- ===== src/Net/AddressV4/Order.antt =====
-- The comparisons of `address_v4` are those of the addresses as numbers.
use mart_common.Prelude.{ℕ, ◌^◌, ◌<◌, ◌≡◌, ap, not, ltb, ◌==◌, arith}
use mart_common.Net.ByteOrder.{to_net_order_32, to_host_order_32}
use mart_common.Net.ByteOrder.Swap.{to_host_order-to_net_order}
use mart_common.Net.AddressV4.{from_host, in_host_order, eq, ne, lt}

pub in_host_order-from_host : (n : ℕ) → n < 2 ^ 32 → in_host_order (from_host n) ≡ n
unfolding in_host_order from_host
in_host_order-from_host n h = (to_host_order-to_net_order n).1 h

-- Equality and the order of two addresses are those of their numbers in host order, though
-- equality compares the words in network order.
pub compare-from_host :
    (m n : ℕ)
    → m < 2 ^ 32
    → n < 2 ^ 32
    → (eq (from_host m) (from_host n) ≡ (m == n))
      × (ne (from_host m) (from_host n) ≡ not (m == n))
      × (lt (from_host m) (from_host n) ≡ ltb m n)
unfolding eq ne lt from_host
compare-from_host m n hm hn =
    let em = (to_host_order-to_net_order m).1 hm in
    let en = (to_host_order-to_net_order n).1 hn in
    ground (arith, ap to_host_order_32 {x = to_net_order_32 m} {y = to_net_order_32 n})
