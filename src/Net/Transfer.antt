-- ===== src/Net/Transfer.antt =====
-- Sending and receiving of include/mart-netlib/RaiiSocket.hpp: the views of ArrayView.h that
-- RaiiSocket passes to src/mart-netlib/port_layer.cpp and cuts by the result. The memory is a
-- function from addresses to bytes.
pub mod Cuts
use mart_common.Prelude.{
  ℕ, zero, suc, ◌+◌, Bool, Option, none, some, List, [], ◌∷◌, ◌>>=◌, if◌then◌else◌,
}
use mart_common.Prelude.Int.{ℤ, pos, size_of}
use mart_common.Prelude.Threads.{update}
use mart_common.Text.{Bytes}
use mart_common.Containers.ArrayView.{ArrayView, null, elements, subview, subview_from}
use mart_common.Net.Results.{ReturnValue, success, failure, value_or}
use mart_common.Net.Native.{System, Handle}
use mart_common.Net.PortLayer
use mart_common.Net.PortLayer.{Sockaddr}

abbrev pub Memory : Type 0
Memory = ℕ → ℕ

-- What a call of the system leaves in the memory: these bytes from this address on.
unfoldable pub write : Memory → ℕ → Bytes → Memory
write m a [] = m
write m a (b ∷ bs) = write (update m a b) (a + 1) bs

pub record SendResult : Type 0 where
  pub remaining_data : ArrayView
  pub result : ReturnValue ℤ

pub record RecvResult : Type 0 where
  pub received_data : ArrayView
  pub result : ReturnValue ℤ

-- What `send` and `sendto` do with a result; none is `std::terminate`.
unfoldable pub sent : ArrayView → ReturnValue ℤ → Option SendResult
unfolding value_or subview_from
sent data_ res = do
  rest ← subview_from data_ (size_of (value_or res (pos 0)))
  some (record { remaining_data = rest; result = res })

-- What `recv` and `recvfrom` do with one.
unfoldable pub received : ArrayView → ReturnValue ℤ → Option RecvResult
unfolding subview
received buffer (success n) = do
  part ← subview buffer 0 (size_of n)
  some (record { received_data = part; result = success n })
received buffer (failure e) = some (record { received_data = null; result = failure e })

module _ {W : Type 0} (Y : System W) where
  unfoldable pub send : Memory → Handle → ArrayView → ℕ → W → Option SendResult × W
  unfolding sent PortLayer.send
  send m h data_ flags w =
      let (res, w') = PortLayer.send Y h (elements m data_) flags w in (sent data_ res, w')

  unfoldable pub sendto : Memory → Handle → ArrayView → ℕ → Sockaddr → W → Option SendResult × W
  unfolding sent PortLayer.sendto
  sendto m h data_ flags addr w =
      let (res, w') = PortLayer.sendto Y h (elements m data_) flags addr w in (sent data_ res, w')

  unfoldable pub recv : Memory → Handle → ArrayView → ℕ → W → Option RecvResult × Memory × W
  unfolding received PortLayer.recv write
  recv m h buffer flags w =
      let (r, w') = PortLayer.recv Y h buffer.size flags w in
      (received buffer r.0, write m buffer.data_ r.1, w')

  unfoldable pub recvfrom :
      Memory → Handle → ArrayView → ℕ → Sockaddr → W → Option RecvResult × Sockaddr × Memory × W
  unfolding received PortLayer.recvfrom write
  recvfrom m h buffer flags src_addr w =
      let (r, w') = PortLayer.recvfrom Y h buffer.size flags src_addr w in
      (received buffer r.0, r.2, write m buffer.data_ r.1, w')
