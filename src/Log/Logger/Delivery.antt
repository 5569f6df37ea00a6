-- ===== src/Log/Logger/Delivery.antt =====
-- Where a message goes: Logger.h with ILogSink.h.
use mart_common.Prelude.{
  ℕ, zero, suc, ◌≡◌, ◌∙◌, ap, refl, sym, true, false, List, [], ◌∷◌, ◌++◌, if◌then◌else◌, ◌==◌,
  append_assoc, append-nil, Bool-cases, inl, inr, arith,
}
use mart_common.Prelude.Int.{ℤ}
use mart_common.Prelude.Threads.{update, update_self, update_ne}
use mart_common.Text.{Bytes}
use mart_common.Log.Levels.{Level, leb_level, status}
use mart_common.Log.Streams.{Stream}
use mart_common.Log.Format.{Args}
use mart_common.Log.Sinks.{LogSink, flush, write_to_log}
use mart_common.Log.Logger.{
  Logger, Sinks, should_be_logged, fill_buffer, write_all, write_buffer_to_sinks, log_impl, log,
}

-- How often a sink is registered.
abbrev pub count : ℕ → List ℕ → ℕ
count a [] = 0
count a (x ∷ xs) = if x == a then suc (count a xs) else count a xs

abbrev pub copies : ℕ → Bytes → Bytes
copies zero msg = []
copies (suc n) msg = msg ++ copies n msg

iterate : ℕ → (LogSink → LogSink) → LogSink → LogSink
iterate zero f s = s
iterate (suc n) f s = iterate n f (f s)

write_all-iterate :
    (msg : Bytes) (lvl : Level) (xs : List ℕ) (w : Sinks) (a : ℕ)
    → write_all msg lvl xs w a ≡ iterate (count a xs) (write_to_log msg lvl) (w a)
unfolding iterate
write_all-iterate msg lvl [] w a = refl
write_all-iterate msg lvl (x ∷ xs) w a = ground (
  arith,
  write_all-iterate msg lvl xs (update w x (write_to_log msg lvl (w x))) a,
  update_self w x (write_to_log msg lvl (w x)),
  update_ne w x a (write_to_log msg lvl (w x)),
)

-- The sink after `n` copies of a message: as it was if it refuses the level, else with the copies
-- behind what it held back; and all of it is let through for the levels `status` and `error`.
abbrev pub delivered : ℕ → Bytes → Level → LogSink → LogSink
delivered zero msg lvl s = s
delivered (suc n) msg lvl s =
    if leb_level lvl s.maxlvl
    then (if leb_level lvl status
        then record s { output = s.output ++ (s.buffered ++ copies (suc n) msg); buffered = [] }
        else record s { buffered = s.buffered ++ copies (suc n) msg })
    else s

one_copy :
    (msg : Bytes) (lvl : Level) (s : LogSink) → write_to_log msg lvl s ≡ delivered 1 msg lvl s
unfolding write_to_log flush
one_copy msg lvl s =
    ap
      (λ m.
        if leb_level lvl s.maxlvl
        then (if leb_level lvl status
            then record s { output = s.output ++ (s.buffered ++ m); buffered = [] }
            else record s { buffered = s.buffered ++ m })
        else s)
      (sym (append-nil msg))

-- One more copy.
again :
    (n : ℕ) (msg : Bytes) (lvl : Level) (s : LogSink)
    → delivered (suc n) msg lvl (write_to_log msg lvl s) ≡ delivered (suc (suc n)) msg lvl s
unfolding write_to_log flush
again n msg lvl s = elim (Bool-cases (leb_level lvl s.maxlvl)) [
  | inl yes_ ↦ elim (Bool-cases (leb_level lvl status)) [
    | inl through ↦
        rw (yes_, through)
          (rw yes_ (
            ap (λ o. record s { output = o; buffered = [] })
              (append_assoc s.output (s.buffered ++ msg) (copies (suc n) msg)
                ∙ ap (λ m. s.output ++ m) (append_assoc s.buffered msg (copies (suc n) msg)))))
    | inr held ↦
        rw (yes_, held)
          (rw yes_ (
            ap (λ b. record s { buffered = b }) (append_assoc s.buffered msg (copies (suc n) msg))))
  ]
  | inr no_ ↦ rw no_ (rw no_ refl)
]

iterate_lem :
    (n : ℕ) (msg : Bytes) (lvl : Level) (s : LogSink)
    → iterate n (write_to_log msg lvl) s ≡ delivered n msg lvl s
unfolding iterate
iterate_lem zero msg lvl s = refl
iterate_lem (suc zero) msg lvl s = one_copy msg lvl s
iterate_lem (suc (suc n)) msg lvl s =
    iterate_lem (suc n) msg lvl (write_to_log msg lvl s) ∙ again n msg lvl s

-- A message that is not to be logged changes nothing. Any other leaves every sink exactly as
-- `delivered` says: as it was if it is not registered or refuses the level; else with the message
-- at its end as often as it is registered, wherever the registrations stand, and flushed if the
-- level is `status` or `error` and only then. The stream of the thread has its text emptied and
-- keeps what printing made of the rest.
pub log_lem :
    (now : ℤ) (thread : ℕ) (l : Logger) (lvl : Level) (args : Args) (s : Stream × Sinks)
    → (should_be_logged lvl l ≡ false → log now thread l lvl args s ≡ s)
      × (should_be_logged lvl l ≡ true
          → let line = fill_buffer now thread l lvl true args s.0 in
            ((log now thread l lvl args s).0 ≡ record line { text = [] })
            × ((a : ℕ)
                → (log now thread l lvl args s).1 a
                  ≡ delivered (count a l.sinks) line.text lvl (s.1 a)))
unfolding log log_impl write_buffer_to_sinks
log_lem now thread l lvl args s = (
  λ h. rw h refl,
  λ h. rw h (
    refl,
    λ a.
        write_all-iterate (fill_buffer now thread l lvl true args s.0).text lvl l.sinks s.1 a
        ∙ iterate_lem (count a l.sinks) _ lvl (s.1 a),
  ),
)
