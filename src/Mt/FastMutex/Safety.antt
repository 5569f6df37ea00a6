-- ===== src/Mt/FastMutex/Safety.antt =====
-- What the comments of `FastMutexImpl` promise, in every reachable state.
use mart_common.Prelude.{
  ℕ, ◌≡◌, ◌≢◌, ap, ◌⊎◌, inl, inr, Bool, true, false, none, some, Option-cases, Bool-cases, arith,
}
use mart_common.Mt.FastMutex.{Pc, blocked, spinning, entered, critical, unlocking, System, Reach}
use mart_common.Mt.FastMutex.Invariant.{IsValid, holds, owner, Reach-IsValid}

owner_place : (marked : Bool) (p : Pc) → owner marked p ≡ true → (p ≡ spinning) ⊎ (holds p ≡ true)
owner_place marked p h = ground arith

same_place : (pc : ℕ → Pc) (i j : ℕ) → i ≡ j → holds (pc i) ≡ true → holds (pc j) ≡ false → ⊥
same_place pc i j same h k = cc (ap pc same)

-- Two threads are never between the end of `lock()` and the start of `unlock()` together.
pub mutual_exclusion :
    {s : System} → Reach s → (i j : ℕ) → s.pc i ≡ critical → s.pc j ≡ critical → i ≡ j
mutual_exclusion r i j ei ej = (Reach-IsValid r).unique i j (ground arith) (ground arith)

-- The assertion of `lock()` finds the flag set, by whichever way the thread got in.
pub assertion_holds : {s : System} → Reach s → (i : ℕ) → s.pc i ≡ entered → s.mutex.flag ≡ true
assertion_holds r i e = ((Reach-IsValid r).each i).flagged (ground arith)

-- `_mx.unlock()` is only called by the thread that owns `_mx`, and a thread that starts to wait
-- for `_mx` does not own it already.
pub unlock_by_owner :
    {s : System}
    → Reach s
    → (i : ℕ)
    → (s.pc i ≡ unlocking → s.mutex.mx ≡ some i) × (s.pc i ≡ blocked → s.mutex.mx ≢ some i)
unlock_by_owner r i =
    let l = (Reach-IsValid r).each i in
    (λ e. l.owns (ground arith), λ e o. ground (arith, l.owned o))

-- Nobody waits for nothing: a thread that waits for `_mx` finds it free or owned by a thread that
-- spins or holds the flag, and a thread that spins finds the flag clear or held by a thread
-- between its success in `lock()` and the end of `unlock()`.
pub no_lost_wait :
    {s : System}
    → Reach s
    → (i : ℕ)
    → (s.pc i ≡ blocked
        → (s.mutex.mx ≡ none)
          ⊎ ((j : ℕ) × (s.mutex.mx ≡ some j) × ((s.pc j ≡ spinning) ⊎ (holds (s.pc j) ≡ true))))
      × (s.pc i ≡ spinning → (s.mutex.flag ≡ false) ⊎ ((j : ℕ) × (j ≢ i) × (holds (s.pc j) ≡ true)))
no_lost_wait {s} r i = (mx_free, flag_free)
  where
    v : IsValid s.mutex s.pc
    v = Reach-IsValid r

    mx_free :
        s.pc i ≡ blocked
        → (s.mutex.mx ≡ none)
          ⊎ ((j : ℕ) × (s.mutex.mx ≡ some j) × ((s.pc j ≡ spinning) ⊎ (holds (s.pc j) ≡ true)))
    mx_free e = elim (Option-cases s.mutex.mx) [
      | inl free ↦ inl free
      | inr (j, o) ↦ inr (j, o, owner_place s.mutex.mx_locked_by_me (s.pc j) ((v.each j).owned o))
    ]

    flag_free :
        s.pc i ≡ spinning → (s.mutex.flag ≡ false) ⊎ ((j : ℕ) × (j ≢ i) × (holds (s.pc j) ≡ true))
    flag_free e = elim (Bool-cases s.mutex.flag) [
      | inl up ↦
          let (j, h) = v.held up in inr (j, (λ same. same_place s.pc j i same h (ap holds e)), h)
      | inr down ↦ inl down
    ]
