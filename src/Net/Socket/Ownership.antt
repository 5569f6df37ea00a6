-- ===== src/Net/Socket/Ownership.antt =====
-- Every open handle belongs to one socket object.
use mart_common.Prelude.{
  ℕ, ◌≡◌, ◌≢◌, ◌⊎◌, inl, inr, refl, sym, ap, ◌∙◌, Bool, true, false, none, some, Bool-cases,
  Option-cases,
}
use mathlib.Core.Path.{subst, fun_ext}
use mart_common.Prelude.Threads.{update, update_self, update_same}
use mart_common.Net.Results.{ErrorCode, ok, is_ok, error_code, ReturnValue, success, failure}
use mart_common.Net.Socket.{
  invalid, RaiiSocket, PortLayer, IsSystem, Process, put, set_blocking_uncached, close,
  move_construct, move_assign, from_handle, open_, accept,
}
use mart_common.Net.Socket.Handles.{Owns, Owns-ext, Owns-close, Owns-open, Owns-move, handle-put}

pub result-cases :
    (r : ReturnValue ℕ) → ((h : ℕ) × (r ≡ success h)) ⊎ ((c : ErrorCode) × (r ≡ failure c))
result-cases (success h) = inl (h, refl)
result-cases (failure c) = inr (c, refl)

module _ {W : Type 0} (L : PortLayer W) where
  -- Every open handle belongs to exactly one of the objects of the process.
  abbrev pub IsOwned : Process W → Type 0
  IsOwned s = Owns (λ i. (s.socks i).handle) (L.is_open s.system)

module _ {W : Type 0} (L : PortLayer W) (S : IsSystem L) where
  close-IsOwned :
      (s : Process W) (i : ℕ)
      → IsOwned L s
      → IsOwned L (close L s i).1 × (((close L s i).1.socks i).handle ≡ none)
  unfolding close
  close-IsOwned s i o = (
    elim (Option-cases ((s.socks i).handle)) [
      | inl e ↦
          Owns-ext (λ k. (s.socks k).handle) _ (L.is_open s.system) _
            (λ k. sym (nothing k e) ∙ handle-put s.socks i k gone)
            (λ h.
              sym (S.closes_nothing s.system h)
              ∙ ap (λ z. L.is_open (L.close_socket z s.system).1 h) (sym e))
            o
      | inr (h, e) ↦
          let close_it : L.close_socket (some h) s.system
              ≡ L.close_socket (s.socks i).handle s.system =
            ap (λ z. L.close_socket z s.system) (sym e) in
          Owns-ext (update (λ k. (s.socks k).handle) i none) _
            (L.is_open (L.close_socket (some h) s.system).1) _ (λ k. handle-put s.socks i k gone)
            (λ k. ap (λ z. L.is_open z.1 k) close_it)
            (Owns-close (λ k. (s.socks k).handle) (L.is_open s.system)
              (L.is_open (L.close_socket (some h) s.system).1) i h o e (S.closes s.system h).0
              (S.closes s.system h).1)
    ],
    sym (handle-put s.socks i i gone) ∙ update_self (λ k. (s.socks k).handle) i none,
  )
    where
      gone : RaiiSocket
      gone = record { handle = none; blocking = (s.socks i).blocking }

      nothing :
          (k : ℕ)
          → (s.socks i).handle ≡ none
          → update (λ j. (s.socks j).handle) i none k ≡ (s.socks k).handle
      nothing k e = ap (λ f. f k) (update_same (λ j. (s.socks j).handle) i none e)

  move-IsOwned :
      (s : Process W) (i j : ℕ) (b : Bool)
      → IsOwned L s
      → i ≢ j
      → (s.socks i).handle ≡ none
      → IsOwned L (put L (put L s j (record { handle = none; blocking = b })) i (s.socks j))
  move-IsOwned s i j b o ne e =
      Owns-ext (update (update (λ k. (s.socks k).handle) j none) i (s.socks j).handle) _
        (L.is_open s.system) _
        (λ k.
          ap (λ f. update f i (s.socks j).handle k)
            (fun_ext (λ m. handle-put s.socks j m (record { handle = none; blocking = b })))
          ∙ handle-put (update s.socks j (record { handle = none; blocking = b })) i k (s.socks j))
        (λ h. refl) (Owns-move (λ k. (s.socks k).handle) (L.is_open s.system) i j o ne e)

  after_flag :
      (s : Process W) (i : ℕ) (b : Bool) (f : ℕ → RaiiSocket)
      → ((k : ℕ) → (s.socks k).handle ≡ (f k).handle)
      → IsOwned L s
      → IsOwned L (record { socks = f; system = (L.make_blocking (s.socks i).handle b s.system).1 })
  after_flag s i b f e o =
      Owns-ext (λ k. (s.socks k).handle) (λ k. (f k).handle) (L.is_open s.system) _ e
        (λ h. sym (S.flags_only s.system (s.socks i).handle b h)) o

  set_blocking_uncached-IsOwned :
      (s : Process W) (i : ℕ) (b : Bool) → IsOwned L s → IsOwned L (set_blocking_uncached L s i b).1
  unfolding set_blocking_uncached
  set_blocking_uncached-IsOwned s i b o =
      elim (Bool-cases (is_ok (L.make_blocking (s.socks i).handle b s.system).0)) [
        | inl e ↦
            subst (λ r. IsOwned L r.1) (sym (done e))
              (after_flag s i b
                (update s.socks i (record { handle = (s.socks i).handle; blocking = b }))
                (λ k.
                  sym (
                    ap (λ f. f k) (update_same (λ j. (s.socks j).handle) i (s.socks i).handle refl))
                  ∙ handle-put s.socks i k (record { handle = (s.socks i).handle; blocking = b }))
                o)
        | inr e ↦
            subst (λ r. IsOwned L r.1) (sym (failed e)) (after_flag s i b s.socks (λ k. refl) o)
      ]
    where
      res : ErrorCode × W
      res = L.make_blocking (s.socks i).handle b s.system

      done :
          is_ok res.0 ≡ true
          → set_blocking_uncached L s i b ≡ (
            res.0,
            put L
                (record s { system = res.1 })
                i
                (record { handle = (s.socks i).handle; blocking = b }),
          )
      done e = rw (e, set_blocking_uncached) refl

      failed :
          is_ok res.0 ≡ false → set_blocking_uncached L s i b ≡ (res.0, record s { system = res.1 })
      failed e = rw (e, set_blocking_uncached) refl

  -- A new handle for an object that has none.
  from_handle-IsOwned :
      (s : Process W) (i h : ℕ) (w : W)
      → IsOwned L s
      → (s.socks i).handle ≡ none
      → L.is_open s.system h ≡ false
      → L.is_open w h ≡ true
      → ((k : ℕ) → k ≢ h → L.is_open w k ≡ L.is_open s.system k)
      → IsOwned L (from_handle L (record s { system = w }) i h)
  unfolding from_handle
  from_handle-IsOwned s i h w o e new opened rest =
      set_blocking_uncached-IsOwned
        (put L (record s { system = w }) i (record { handle = some h; blocking = true })) i true
        (Owns-ext (update (λ k. (s.socks k).handle) i (some h)) _ (L.is_open w) _
          (λ k. handle-put s.socks i k (record { handle = some h; blocking = true })) (λ _. refl)
          (Owns-open (λ k. (s.socks k).handle) (L.is_open s.system) (L.is_open w) i h o e new opened
            rest))

  -- No handle for an object that has none.
  invalid-IsOwned :
      (s : Process W) (i : ℕ) (w : W)
      → IsOwned L s
      → (s.socks i).handle ≡ none
      → ((k : ℕ) → L.is_open w k ≡ L.is_open s.system k)
      → IsOwned L (put L (record s { system = w }) i invalid)
  invalid-IsOwned s i w o e still =
      Owns-ext (λ k. (s.socks k).handle) _ (L.is_open s.system) _
        (λ k.
          sym (ap (λ f. f k) (update_same (λ j. (s.socks j).handle) i none e))
          ∙ handle-put s.socks i k invalid)
        (λ h. sym (still h)) o

  open-IsOwned :
      (s : Process W) (i : ℕ) → IsOwned L s → (s.socks i).handle ≡ none → IsOwned L (open_ L s i).1
  unfolding open_ error_code
  open-IsOwned s i o e = elim (result-cases (L.open_socket s.system).0) [
    | inl (h, r) ↦
        let (new, opened, rest) = S.opens_new s.system h r in
        subst (λ q. IsOwned L q.1) (sym (done h r))
          (from_handle-IsOwned s i h (L.open_socket s.system).1 o e new opened rest)
    | inr (c, r) ↦
        subst (λ q. IsOwned L q.1) (sym (refused c r))
          (invalid-IsOwned s i (L.open_socket s.system).1 o e (S.fails_still s.system c r))
  ]
    where
      done :
          (h : ℕ)
          → (L.open_socket s.system).0 ≡ success h
          → open_ L s i ≡ (ok, from_handle L (record s { system = (L.open_socket s.system).1 }) i h)
      done h r = rw (r, open_) refl

      refused :
          (c : ErrorCode)
          → (L.open_socket s.system).0 ≡ failure c
          → open_ L s i ≡ (c, put L (record s { system = (L.open_socket s.system).1 }) i invalid)
      refused c r = rw (r, open_) refl

  accept-IsOwned :
      (s : Process W) (j i : ℕ)
      → IsOwned L s
      → (s.socks i).handle ≡ none
      → IsOwned L (accept L s j i)
  unfolding accept
  accept-IsOwned s j i o e = elim (result-cases (L.accept_on (s.socks j).handle s.system).0) [
    | inl (h, r) ↦
        let (new, opened, rest) = S.accepts_new s.system (s.socks j).handle h r in
        subst (IsOwned L) (sym (done h r)) (from_handle-IsOwned s i h after.1 o e new opened rest)
    | inr (c, r) ↦
        subst (IsOwned L) (sym (refused c r))
          (invalid-IsOwned s i after.1 o e (S.refuses_still s.system (s.socks j).handle c r))
  ]
    where
      after : ReturnValue ℕ × W
      after = L.accept_on (s.socks j).handle s.system

      done :
          (h : ℕ)
          → after.0 ≡ success h
          → accept L s j i ≡ from_handle L (record s { system = after.1 }) i h
      done h r = rw (r, accept) refl

      refused :
          (c : ErrorCode)
          → after.0 ≡ failure c
          → accept L s j i ≡ put L (record s { system = after.1 }) i invalid
      refused c r = rw (r, accept) refl

  -- If every open handle belongs to exactly one socket object, this is so after any of them is
  -- closed (or destroyed), moved to another one, by construction or assignment, opened anew, made
  -- from a connection that another socket accepts, or switched to blocking or back: no handle is
  -- lost, and none is closed twice.
  pub operations-IsOwned :
      (s : Process W) (i j : ℕ) (b : Bool)
      → IsOwned L s
      → i ≢ j
      → IsOwned L (close L s i).1
        × IsOwned L (move_assign L s i j)
        × ((s.socks i).handle ≡ none → IsOwned L (move_construct L s i j))
        × ((s.socks i).handle ≡ none → IsOwned L (open_ L s i).1)
        × ((s.socks i).handle ≡ none → IsOwned L (accept L s j i))
        × IsOwned L (set_blocking_uncached L s i b).1
  unfolding move_assign move_construct
  operations-IsOwned s i j b o ne =
      let (closed, gone) = close-IsOwned s i o in
      (
        closed,
        move-IsOwned (close L s i).1 i j true closed ne gone,
        move-IsOwned s i j false o ne,
        open-IsOwned s i o,
        accept-IsOwned s j i o,
        set_blocking_uncached-IsOwned s i b o,
      )
