-- ===== src/Mt/Channel/Order.antt =====
-- Values leave the channel in the order in which they were sent, each once.
use mart_common.Prelude.{
  ◌≡◌, ◌⊎◌, inl, inr, refl, sym, ap, ◌∙◌, Bool, true, false, List, [], ◌∷◌, ◌++◌, append_assoc,
  append-nil, Option, none, some, Bool-cases, arith,
}
use mart_common.Mt.Channel.{
  Channel, Received, value, canceled, send, take_front, try_receive, wakes, receive, cancel_read,
  clear, reset, System, Step, sends, tries, fails, receives, throws, cancels, clears, resets, Reach,
  here, next,
}

module _ {ℓ} {A : Type ℓ} where
  -- The queue before an operation, from what the operation returned.
  before_take : Option A × Channel A → List A
  before_take (none, c) = c.fifo
  before_take (some t, c) = t ∷ c.fifo

  before_receive : Option (Received A × Channel A) → List A
  before_receive none = []
  before_receive (some (value t, c)) = t ∷ c.fifo
  before_receive (some (canceled, c)) = c.fifo

  List-cases : (as' : List A) → (as' ≡ []) ⊎ ((t : A) × (rest : List A) × (as' ≡ t ∷ rest))
  List-cases [] = inl refl
  List-cases (t ∷ rest) = inr (t, rest, refl)

  take_front-before : (c : Channel A) → before_take (take_front c) ≡ c.fifo
  unfolding take_front before_take
  take_front-before c = elim (List-cases c.fifo) [
    | inl e ↦ rw (e, take_front) e
    | inr (t, rest, e) ↦ rw (e, take_front) refl
  ]

  try_receive-before : (c : Channel A) (locked : Bool) → before_take (try_receive c locked) ≡ c.fifo
  unfolding try_receive before_take
  try_receive-before c true = take_front-before c
  try_receive-before c false = refl

  receive-before : (c : Channel A) → before_receive (receive c) ≡ c.fifo
  unfolding receive before_receive
  receive-before c = elim (Bool-cases c.cancel) [
    | inl e ↦ rw (e, receive) refl
    | inr e ↦ elim (List-cases c.fifo) [
      | inl f ↦ rw (e, f, receive) refl
      | inr (t, rest, f) ↦ rw (e, f, receive) refl
    ]
  ]

  woken : (c : Channel A) → wakes c ≡ true → (r : Received A × Channel A) × (receive c ≡ some r)
  unfolding wakes receive
  woken c h = elim (Bool-cases c.cancel) [
    | inl e ↦ ((canceled, record c { cancel = false }), rw (e, receive) refl)
    | inr e ↦ elim (List-cases c.fifo) [
      | inl f ↦ absurd (nobody (sym h ∙ rw (e, f) refl))
      | inr (t, rest, f) ↦ (
        (value t, record c { fifo = rest }),
        rw (e, f, receive) (ap (λ b. some (value t, record { fifo = rest; cancel = b })) e),
      )
    ]
  ]
    where
      nobody : true ≡ false → ⊥
      nobody z = ground arith

module _ {ℓ} {A : Type ℓ} where
  -- All that was sent has left, in order, or is still held.
  pub IsInOrder : System A → Type ℓ
  IsInOrder s = s.sent ≡ s.left ++ s.channel.fifo

  leaves :
      (sent left fifo rest : List A) (t : A)
      → sent ≡ left ++ fifo
      → fifo ≡ t ∷ rest
      → sent ≡ (left ++ t ∷ []) ++ rest
  leaves sent left fifo rest t o e =
      o ∙ ap (λ f. left ++ f) e ∙ sym (append_assoc left (t ∷ []) rest)

  Step-IsInOrder : {s t : System A} → Step s t → IsInOrder s → IsInOrder t
  unfolding IsInOrder send cancel_read clear reset before_take before_receive
  Step-IsInOrder {s} (sends t) o =
      ap (λ f. f ++ t ∷ []) o ∙ append_assoc s.left s.channel.fifo (t ∷ [])
  Step-IsInOrder {s} (tries t c e) o =
      leaves s.sent s.left s.channel.fifo c.fifo t o
        (sym (try_receive-before s.channel true) ∙ ap before_take e)
  Step-IsInOrder {s} (fails locked c e) o =
      o ∙ ap (λ f. s.left ++ f) (sym (try_receive-before s.channel locked) ∙ ap before_take e)
  Step-IsInOrder {s} (receives t c w e) o =
      leaves s.sent s.left s.channel.fifo c.fifo t o
        (sym (receive-before s.channel) ∙ ap before_receive e)
  Step-IsInOrder {s} (throws c w e) o =
      o ∙ ap (λ f. s.left ++ f) (sym (receive-before s.channel) ∙ ap before_receive e)
  Step-IsInOrder {s} cancels o = o
  Step-IsInOrder {s} clears o = o ∙ sym (append-nil (s.left ++ s.channel.fifo))
  Step-IsInOrder {s} resets o = o ∙ sym (append-nil (s.left ++ s.channel.fifo))

  Reach-IsInOrder : {s : System A} → Reach s → IsInOrder s
  unfolding IsInOrder
  Reach-IsInOrder here = refl
  Reach-IsInOrder (next r m) = Step-IsInOrder m (Reach-IsInOrder r)

-- In whatever order the threads get the mutex, the values that have left the channel and then
-- those that it holds are the values sent, in the order of sending: none is lost, doubled or
-- overtaken. And a `receive` whose condition holds returns or throws.
pub Reach-order {ℓ} :
    {A : Type ℓ} {s : System A}
    → Reach s
    → (s.sent ≡ s.left ++ s.channel.fifo)
      × (wakes s.channel ≡ true → (r : Received A × Channel A) × (receive s.channel ≡ some r))
unfolding IsInOrder
Reach-order {s = s} r = (Reach-IsInOrder r, woken s.channel)
