-- ===== src/Mt/Channel.antt =====
-- include/mart-common/experimental/mt/Channel.h: senders and receivers around one queue. Every
-- operation but the waiting holds the mutex, so that it is one step.
pub mod Order
mod Tests
use mart_common.Prelude.{◌≡◌, Bool, true, false, not, ◌||◌, List, [], ◌∷◌, ◌++◌, Option, none, some}

-- `Channel<T>`: the queue, its front first, and the flag of `cancel_read`.
pub record Channel {ℓ} (A : Type ℓ) : Type ℓ where
  pub fifo : List A
  pub cancel : Bool

abbrev pub is_empty {ℓ} : {A : Type ℓ} → List A → Bool
is_empty [] = true
is_empty (a ∷ rest) = false

-- What `receive` ends with: a value, or the exception `Canceled`.
pub data Received {ℓ} (A : Type ℓ) : Type ℓ where
  value : A → Received A
  canceled : Received A

module _ {ℓ} {A : Type ℓ} where
  unfoldable pub send : Channel A → A → Channel A
  send c t = record c { fifo = c.fifo ++ t ∷ [] }

  -- What both kinds of `try_receive` do once they hold the mutex, the second one after its wait.
  unfoldable pub take_front : Channel A → Option A × Channel A
  take_front c = elim (c.fifo) [ [] ↦ (none, c) | t ∷ rest ↦ (some t, record c { fifo = rest }) ]

  -- `try_receive`; `locked` is what `try_lock` returned.
  unfoldable pub try_receive : Channel A → Bool → Option A × Channel A
  unfolding take_front
  try_receive c true = take_front c
  try_receive c false = (none, c)

  -- The condition that `receive` waits for.
  unfoldable pub wakes : Channel A → Bool
  wakes c = not (is_empty c.fifo) || c.cancel

  -- `receive` once the condition holds; `none` is the call of `front` on an empty queue.
  unfoldable pub receive : Channel A → Option (Received A × Channel A)
  receive c = elim (c.cancel) [
    | true ↦ some (canceled, record c { cancel = false })
    | false ↦ elim (c.fifo) [ [] ↦ none | t ∷ rest ↦ some (value t, record c { fifo = rest }) ]
  ]

  unfoldable pub cancel_read : Channel A → Channel A
  cancel_read c = record c { cancel = true }

  unfoldable pub clear : Channel A → Channel A
  clear c = record c { fifo = [] }

  unfoldable pub reset : Channel A → Channel A
  reset c = record { fifo = []; cancel = false }

-- A channel with, for the statements only, all values sent and all that left it, in their order.
pub record System {ℓ} (A : Type ℓ) : Type ℓ where
  pub channel : Channel A
  pub sent : List A
  pub left : List A

abbrev pub start {ℓ} : {A : Type ℓ} → System A
start = record { channel = record { fifo = []; cancel = false }; sent = []; left = [] }

-- The calls of any threads, in the order in which they get the mutex.
pub data Step {ℓ} {A : Type ℓ} (s : System A) : System A → Type ℓ where
  sends : (t : A) → Step s (record s { channel = send s.channel t; sent = s.sent ++ t ∷ [] })
  tries :
      (t : A) (c : Channel A)
      → try_receive s.channel true ≡ (some t, c)
      → Step s (record s { channel = c; left = s.left ++ t ∷ [] })
  fails :
      (locked : Bool) (c : Channel A)
      → try_receive s.channel locked ≡ (none, c)
      → Step s (record s { channel = c })
  receives :
      (t : A) (c : Channel A)
      → wakes s.channel ≡ true
      → receive s.channel ≡ some (value t, c)
      → Step s (record s { channel = c; left = s.left ++ t ∷ [] })
  throws :
      (c : Channel A)
      → wakes s.channel ≡ true
      → receive s.channel ≡ some (canceled, c)
      → Step s (record s { channel = c })
  cancels : Step s (record s { channel = cancel_read s.channel })
  clears : Step s (record s { channel = clear s.channel; left = s.left ++ s.channel.fifo })
  resets : Step s (record s { channel = reset s.channel; left = s.left ++ s.channel.fifo })

pub data Reach {ℓ} {A : Type ℓ} : System A → Type ℓ where
  here : Reach start
  next : {s t : System A} → Reach s → Step s t → Reach t
