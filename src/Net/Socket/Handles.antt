-- ===== src/Net/Socket/Handles.antt =====
-- Which object has which handle, and what a change of both sides does to that.
use mart_common.Prelude.{
  ℕ, ◌≡◌, ◌≢◌, ◌⊎◌, inl, inr, sym, ap, ◌∙◌, Bool, true, false, Option, none, some, ℕ_discrete,
  arith,
}
use mart_common.Prelude.Threads.{update, update_self, update_ne}
use mart_common.Net.Socket.{RaiiSocket}

-- The handles of the objects are the open ones: each handle of an object is open and of no other
-- object, and each open handle is of some object.
pub record Owns (handle : ℕ → Option ℕ) (is_open : ℕ → Bool) : Type 0 where
  pub unique : (i j h : ℕ) → handle i ≡ some h → handle j ≡ some h → i ≡ j
  pub live : (i h : ℕ) → handle i ≡ some h → is_open h ≡ true
  pub kept : (h : ℕ) → is_open h ≡ true → (i : ℕ) × (handle i ≡ some h)

pub some_same : (a b : ℕ) → some a ≡ some b → a ≡ b
some_same a b e = ground arith

pub none-some : (a : ℕ) → none ≡ some a → ⊥
none-some a e = ground arith

pub false-true : false ≡ true → ⊥
false-true e = ground arith

pub Owns-ext :
    (f g : ℕ → Option ℕ) (a b : ℕ → Bool)
    → ((i : ℕ) → f i ≡ g i)
    → ((h : ℕ) → a h ≡ b h)
    → Owns f a
    → Owns g b
Owns-ext f g a b e d o = record {
  unique = λ i j h p q. o.unique i j h (e i ∙ p) (e j ∙ q);
  live = λ i h p. sym (d h) ∙ o.live i h (e i ∙ p);
  kept = λ h p. let (i, q) = o.kept h (d h ∙ p) in (i, sym (e i) ∙ q);
}

-- What an updated object has.
pub updated :
    (f : ℕ → Option ℕ) (i j x : ℕ) (o : Option ℕ)
    → update f i o j ≡ some x
    → ((i ≡ j) × (o ≡ some x)) ⊎ ((i ≢ j) × (f j ≡ some x))
updated f i j x o p = elim (ℕ_discrete i j) [
  | yes z ↦ inl (z, sym (ap (update f i o) (sym z) ∙ update_self f i o) ∙ p)
  | no n ↦ inr (n, sym (update_ne f i j o n) ∙ p)
]

pub emptied : (f : ℕ → Option ℕ) (i j x : ℕ) → update f i none j ≡ some x → (i ≢ j) × (f j ≡ some x)
emptied f i j x p = elim (updated f i j x none p) [
  | inl (z, e) ↦ absurd (none-some x e)
  | inr q ↦ q
]

-- An object that gives its handle up while the system closes it.
pub Owns-close :
    (f : ℕ → Option ℕ) (a b : ℕ → Bool) (i h : ℕ)
    → Owns f a
    → f i ≡ some h
    → b h ≡ false
    → ((k : ℕ) → k ≢ h → b k ≡ a k)
    → Owns (update f i none) b
Owns-close f a b i h o e closed same = record {
  unique = λ j k x p q. o.unique j k x (emptied f i j x p).1 (emptied f i k x q).1;
  live = λ j x p.
      let (nj, q) = emptied f i j x p in
      same x (λ z. nj (o.unique i j h e (q ∙ ap some z))) ∙ o.live j x q;
  kept = λ x p.
      let nx : x ≢ h = λ z. false-true (sym closed ∙ ap b (sym z) ∙ p) in
      let (j, q) = o.kept x (sym (same x nx) ∙ p) in
      (j, update_ne f i j none (λ z. nx (some_same x h (sym q ∙ ap f (sym z) ∙ e))) ∙ q);
}

-- A new object that gets a new handle.
pub Owns-open :
    (f : ℕ → Option ℕ) (a b : ℕ → Bool) (i h : ℕ)
    → Owns f a
    → f i ≡ none
    → a h ≡ false
    → b h ≡ true
    → ((k : ℕ) → k ≢ h → b k ≡ a k)
    → Owns (update f i (some h)) b
Owns-open f a b i h o e new opened same = record {
  unique = λ j k x p q. elim (updated f i j x (some h) p) [
    | inl (zj, ej) ↦ elim (updated f i k x (some h) q) [
      | inl (zk, ek) ↦ sym zj ∙ zk
      | inr (nk, ek) ↦ absurd (false-true (sym new ∙ ap a (some_same h x ej) ∙ o.live k x ek))
    ]
    | inr (nj, ej) ↦ elim (updated f i k x (some h) q) [
      | inl (zk, ek) ↦ absurd (false-true (sym new ∙ ap a (some_same h x ek) ∙ o.live j x ej))
      | inr (nk, ek) ↦ o.unique j k x ej ek
    ]
  ];
  live = λ j x p. elim (updated f i j x (some h) p) [
    | inl (z, ej) ↦ ap b (sym (some_same h x ej)) ∙ opened
    | inr (n, ej) ↦
        let alive = o.live j x ej in
        same x (λ z. false-true (sym new ∙ ap a (sym z) ∙ alive)) ∙ alive
  ];
  kept = λ x p. elim (ℕ_discrete x h) [
    | yes z ↦ (i, update_self f i (some h) ∙ ap some (sym z))
    | no n ↦
        let (j, q) = o.kept x (sym (same x n) ∙ p) in
        (j, update_ne f i j (some h) (λ z. none-some x (sym e ∙ ap f z ∙ q)) ∙ q)
  ];
}

-- A handle that goes from one object to one that has none.
pub Owns-move :
    (f : ℕ → Option ℕ) (a : ℕ → Bool) (i j : ℕ)
    → Owns f a
    → i ≢ j
    → f i ≡ none
    → Owns (update (update f j none) i (f j)) a
Owns-move f a i j o ne e = record {
  unique = λ k l x p q. elim (had k x p) [
    | inl (zk, ek) ↦ elim (had l x q) [
      | inl (zl, el) ↦ sym zk ∙ zl
      | inr (nl, el) ↦ absurd (nl (o.unique j l x ek el))
    ]
    | inr (nk, ek) ↦ elim (had l x q) [
      | inl (zl, el) ↦ absurd (nk (o.unique j k x el ek))
      | inr (nl, el) ↦ o.unique k l x ek el
    ]
  ];
  live = λ k x p. elim (had k x p) [ inl (z, ek) ↦ o.live j x ek | inr (n, ek) ↦ o.live k x ek ];
  kept = λ x p.
      let (k, q) = o.kept x p in
      elim (ℕ_discrete j k) [
        | yes z ↦ (i, update_self (update f j none) i (f j) ∙ ap f z ∙ q)
        | no n ↦ (
          k,
          update_ne (update f j none) i k (f j) (λ z. none-some x (sym e ∙ ap f z ∙ q))
              ∙ update_ne f j k none n
              ∙ q,
        )
      ];
}
  where
    had :
        (k x : ℕ)
        → update (update f j none) i (f j) k ≡ some x
        → ((i ≡ k) × (f j ≡ some x)) ⊎ ((j ≢ k) × (f k ≡ some x))
    had k x p = elim (updated (update f j none) i k x (f j) p) [
      | inl both ↦ inl both
      | inr (n, q) ↦ inr (emptied f j k x q)
    ]

pub handle-put :
    (f : ℕ → RaiiSocket) (i k : ℕ) (r : RaiiSocket)
    → update (λ j. (f j).handle) i r.handle k ≡ (update f i r k).handle
handle-put f i k r = elim (ℕ_discrete i k) [
  | yes z ↦
      ap (update (λ j. (f j).handle) i r.handle) (sym z)
      ∙ update_self (λ j. (f j).handle) i r.handle
      ∙ ap (λ t. t.handle) (sym (update_self f i r) ∙ ap (update f i r) z)
  | no n ↦
      update_ne (λ j. (f j).handle) i k r.handle n ∙ ap (λ t. t.handle) (sym (update_ne f i k r n))
]
