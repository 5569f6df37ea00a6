-- ===== src/Containers/DynArray/Blocks.antt =====
-- Arrays and the blocks of the heap.
use mart_common.Prelude.{
  ℕ, zero, suc, ◌+◌, ◌≤◌, ◌<◌, ◌≡◌, ◌≢◌, ◌∙◌, ap, sym, refl, true, false, List, [], ◌∷◌, ◌++◌,
  Option, none, some, ltb, length, length-append, length-replicate, drop, replicate, take_all,
  take-length, length-drop, append-nil, Bool-cases, inl, inr, ltb→lt, ltb-false→le, arith,
}
use mart_common.Prelude.Threads.{update, update_self, update_ne}
use mart_common.Containers.DynArray.{
  Heap, DynArray, allocate, read, write, make, append, copy_assign, destroy, elements,
}

module _ {A : Type 0} where
  -- An array owns a block of its size, with these elements.
  pub record Owns (h : Heap A) (a : DynArray) (p : ℕ) (xs : List A) : Type 0 where
    pub at_block : a.data_ ≡ some p
    pub has_block : h.block p ≡ some xs
    pub has_size : length xs ≡ a.size
    pub is_old : p < h.next

  drop_all : (n : ℕ) (ys : List A) → length ys ≡ n → drop n ys ≡ []
  drop_all zero [] e = refl
  drop_all zero (y ∷ ys) e = absurd (ground (arith, e))
  drop_all (suc n) [] e = refl
  drop_all (suc n) (y ∷ ys) e = drop_all n ys (ground (arith, e))

  read_block :
      (h : Heap A) (p n : ℕ) (xs : List A)
      → h.block p ≡ some xs
      → length xs ≡ n
      → read (some p) n h ≡ some xs
  read_block h p n xs e l = rw e (rw (take_all n xs (omega (arith, l))) (ground (arith, l)))

  write_block :
      (h : Heap A) (p : ℕ) (ys xs : List A)
      → h.block p ≡ some xs
      → length ys ≤ length xs
      → write ys (some p) h
        ≡ some (record h { block = update h.block p (some (ys ++ drop (length ys) xs)) })
  write_block h p ys xs e l = rw e (ground (arith, l))

  write_whole :
      (h : Heap A) (p : ℕ) (ys xs : List A)
      → h.block p ≡ some xs
      → length xs ≡ length ys
      → write ys (some p) h ≡ some (record h { block = update h.block p (some ys) })
  write_whole h p ys xs e l =
      write_block h p ys xs e (omega (arith, l))
      ∙ ap (λ zs. some (record h { block = update h.block p (some zs) }))
          (ap (λ zs. ys ++ zs) (drop_all (length ys) xs l) ∙ append-nil ys)

  -- The heap after a block with `ys` has been made.
  abbrev pub with_block : A → List A → ℕ → Heap A → Heap A
  with_block junk ys n h =
      let (p, h) = allocate junk n h in record h { block = update h.block p (some ys) }

  filled :
      (junk : A) (ys : List A) (n : ℕ) (h : Heap A)
      → length ys ≡ n
      → write ys (some h.next) (allocate junk n h).1 ≡ some (with_block junk ys n h)
  filled junk ys n h l =
      write_whole (allocate junk n h).1 h.next ys (replicate n junk)
        (update_self h.block h.next (some (replicate n junk))) (length-replicate n junk ∙ sym l)

  kept :
      (f : ℕ → Option (List A)) (i p : ℕ) (c : Option (List A)) (xs : List A)
      → p < i
      → f p ≡ some xs
      → update f i c p ≡ some xs
  kept f i p c xs l e = update_ne f i p c (λ same. absurd (omega (arith, l, same))) ∙ e

  -- What an array has is read unchanged after an allocation.
  read_old :
      (junk : A) (n : ℕ) (h : Heap A) (a : DynArray) (p : ℕ) (xs : List A)
      → Owns h a p xs
      → read (some p) a.size (allocate junk n h).1 ≡ some xs
  read_old junk n h a p xs O =
      read_block (allocate junk n h).1 p a.size xs
        (kept h.block h.next p (some (replicate n junk)) xs O.is_old O.has_block) O.has_size

  read_front :
      (h : Heap A) (p n : ℕ) (ys zs : List A)
      → h.block p ≡ some (ys ++ zs)
      → length ys ≡ n
      → read (some p) n h ≡ some ys
  read_front h p n ys zs e l =
      ap (λ n. read (some p) n h) (sym l)
      ∙ rw e (rw (take-length ys zs) (ground (arith, length-append ys zs)))

  new-Owns :
      (junk : A) (ys : List A) (n : ℕ) (h : Heap A)
      → length ys ≡ n
      → Owns (with_block junk ys n h) (record { data_ = some h.next; size = n }) h.next ys
  new-Owns junk ys n h l = record {
    at_block = refl;
    has_block = update_self (update h.block h.next (some (replicate n junk))) h.next (some ys);
    has_size = l;
    is_old = omega arith;
  }

  old-Owns :
      (junk : A) (ys : List A) (n : ℕ) (h : Heap A) (a : DynArray) (p : ℕ) (xs : List A)
      → Owns h a p xs
      → Owns (with_block junk ys n h) a p xs
  old-Owns junk ys n h a p xs O = record {
    at_block = O.at_block;
    has_block =
        kept (update h.block h.next (some (replicate n junk))) h.next p (some ys) xs O.is_old
          (kept h.block h.next p (some (replicate n junk)) xs O.is_old O.has_block);
    has_size = O.has_size;
    is_old = omega (arith, O.is_old);
  }

  length-snoc : (xs : List A) (t : A) (n : ℕ) → length xs ≡ n → length (xs ++ t ∷ []) ≡ n + 1
  length-snoc xs t n e = length-append xs (t ∷ []) ∙ omega (arith, e)

  -- `append` makes a new array of all elements and the new one, and the old array keeps its block.
  pub append_lem :
      (junk t : A) (a : DynArray) (h : Heap A) (p : ℕ) (xs : List A)
      → Owns h a p xs
      → (r : DynArray) × (h' : Heap A) × (append junk t a h ≡ some (r, h'))
        × Owns h' r h.next (xs ++ t ∷ [])
        × Owns h' a p xs
  unfolding append make
  append_lem junk t a h p xs O = (
    record { data_ = some h.next; size = a.size + 1 },
    with_block junk (xs ++ t ∷ []) (a.size + 1) h,
    rw O.at_block (
        rw (read_old junk (a.size + 1) h a p xs O) (
          rw (filled junk (xs ++ t ∷ []) (a.size + 1) h (length-snoc xs t a.size O.has_size))
            refl)),
    new-Owns junk (xs ++ t ∷ []) (a.size + 1) h (length-snoc xs t a.size O.has_size),
    old-Owns junk (xs ++ t ∷ []) (a.size + 1) h a p xs O,
  )

  -- What copy assignment does, by the sizes.
  abbrev pub Assigned : A → DynArray → DynArray → Heap A → ℕ → ℕ → List A → List A → Type 0
  Assigned junk a b h p q xs ys =
      (r : DynArray) × (h' : Heap A) × (copy_assign junk a b h ≡ some (r, h'))
      × (elements r h' ≡ some ys)
      × Owns h' b q ys
      × ((k : ℕ) → k ≢ p → k ≢ h.next → h'.block k ≡ h.block k)
      × (b.size ≤ a.size → (r.data_ ≡ some p) × (h'.next ≡ h.next))
      × (b.size < a.size → destroy r h' ≡ none)
      × (b.size ≡ a.size
          → Owns h' r p ys × ((g : Heap A) × (destroy r h' ≡ some g) × (g.block p ≡ none)))
      × (a.size < b.size → Owns h' r h.next ys × (h'.block p ≡ some xs))

  grown :
      (junk : A) (a b : DynArray) (h : Heap A) (p q : ℕ) (xs ys : List A)
      → Owns h a p xs
      → Owns h b q ys
      → p ≢ q
      → ltb a.size b.size ≡ true
      → Assigned junk a b h p q xs ys
  unfolding copy_assign elements destroy
  grown junk a b h p q xs ys O Q ne e = (
    record { data_ = some h.next; size = b.size },
    with_block junk ys b.size h,
    rw e (
        rw Q.at_block
          (rw (read_old junk b.size h b q ys Q) (rw (filled junk ys b.size h Q.has_size) refl))),
    read_block (with_block junk ys b.size h) h.next b.size ys
        (new-Owns junk ys b.size h Q.has_size).has_block Q.has_size,
    old-Owns junk ys b.size h b q ys Q,
    λ k _ new.
        update_ne (update h.block h.next (some (replicate b.size junk))) h.next k (some ys)
          (λ z. new (sym z))
        ∙ update_ne h.block h.next k (some (replicate b.size junk)) (λ z. new (sym z)),
    λ l. absurd (omega (arith, l, ltb→lt a.size b.size e)),
    λ l. absurd (omega (arith, l, ltb→lt a.size b.size e)),
    λ l. absurd (omega (arith, l, ltb→lt a.size b.size e)),
    λ l. (new-Owns junk ys b.size h Q.has_size, (old-Owns junk ys b.size h a p xs O).has_block),
  )

  in_place :
      (junk : A) (a b : DynArray) (h : Heap A) (p q : ℕ) (xs ys : List A)
      → Owns h a p xs
      → Owns h b q ys
      → p ≢ q
      → ltb a.size b.size ≡ false
      → Assigned junk a b h p q xs ys
  unfolding copy_assign elements destroy
  in_place junk a b h p q xs ys O Q ne e = (
    record { data_ = some p; size = b.size },
    h',
    rw e (
        rw (Q.at_block, O.at_block)
          (rw (read_block h q b.size ys Q.has_block Q.has_size)
            (rw (write_block h p ys xs O.has_block fits) refl))),
    read_front h' p b.size ys (drop (length ys) xs)
        (update_self h.block p (some (ys ++ drop (length ys) xs))) Q.has_size,
    record {
      at_block = Q.at_block;
      has_block = update_ne h.block p q (some (ys ++ drop (length ys) xs)) ne ∙ Q.has_block;
      has_size = Q.has_size;
      is_old = Q.is_old;
    },
    λ k own _. update_ne h.block p k (some (ys ++ drop (length ys) xs)) (λ z. own (sym z)),
    λ _. (refl, refl),
    λ l. rw (update_self h.block p (some (ys ++ drop (length ys) xs))) (
        ground (
          arith,
          l,
          length-append ys (drop (length ys) xs),
          length-drop (length ys) xs,
          O.has_size,
          Q.has_size,
        )),
    λ l.
        let whole =
          here ∙ ap some (ap (λ zs. ys ++ zs) (drop_all (length ys) xs (same l)) ∙ append-nil ys) in
        (
          record { at_block = refl; has_block = whole; has_size = Q.has_size; is_old = O.is_old },
          (
            record h' { block = update h'.block p none },
            rw whole (ground (arith, Q.has_size)),
            update_self h'.block p none,
          ),
        ),
    λ l. absurd (omega (arith, l, ltb-false→le a.size b.size e)),
  )
    where
      h' : Heap A
      h' = record h { block = update h.block p (some (ys ++ drop (length ys) xs)) }

      here : h'.block p ≡ some (ys ++ drop (length ys) xs)
      here = update_self h.block p (some (ys ++ drop (length ys) xs))

      same : b.size ≡ a.size → length xs ≡ length ys
      same l = omega (arith, l, O.has_size, Q.has_size)

      fits : length ys ≤ length xs
      fits = omega (arith, O.has_size, Q.has_size, ltb-false→le a.size b.size e)

  -- Copy assignment gives the array the elements of the other one, which keeps its block, and
  -- changes no third block. If the array had room, equal sizes included, it keeps its own block and
  -- takes no new one; its destructor gives that block back if the sizes were equal, and with a wrong
  -- size, which is undefined behaviour, if the array was larger. If it had no room, it owns a new
  -- block, and its old one stays allocated.
  pub copy_assign-Owns :
      (junk : A) (a b : DynArray) (h : Heap A) (p q : ℕ) (xs ys : List A)
      → Owns h a p xs
      → Owns h b q ys
      → p ≢ q
      → Assigned junk a b h p q xs ys
  copy_assign-Owns junk a b h p q xs ys O Q ne = elim (Bool-cases (ltb a.size b.size)) [
    | inl e ↦ grown junk a b h p q xs ys O Q ne e
    | inr e ↦ in_place junk a b h p q xs ys O Q ne e
  ]
