-- ===== src/Limiter/Tests.antt =====
-- The limiter on a concrete sequence: two calls for one key, and the first is released.
use adbcops.Common.{◌≡◌, ◌≤◌, arith, true, [], ◌∷◌}
use adbcops.Common.Int.{pos}
use adbcops.Limiter.Keyed.{Limiter, new_limiter, lookup, acquire, release}
use adbcops.Limiter.Slots.{
  Slots, Taken, Selects, Calls, at_start as idle, acquires, taken, exceeded, sends, new_slots,
  Calls_lem,
}
use adbcops.Limiter.Bounds.{
  Reached, at_start, after_acquire, after_release, IsExact, Reached-IsExact,
}

abbrev start : Limiter
start = new_limiter (pos 2)

abbrev both : Limiter
both = (acquire true "tidb" (acquire true "tidb" start).1).1

trace : Reached start ("tidb" ∷ []) (release "tidb" both)
unfolding new_limiter acquire lookup
trace = after_release [] ("tidb" ∷ []) "tidb" both (
    after_acquire true "tidb" ("tidb" ∷ []) (acquire true "tidb" start).1
      (after_acquire true "tidb" [] start at_start))

Reached-IsExact_example : IsExact start.limit ("tidb" ∷ []) (release "tidb" both)
Reached-IsExact_example = Reached-IsExact (pos 2) ("tidb" ∷ []) (release "tidb" both) trace

abbrev slots : Slots
slots = record { capacity = 1; used = 1 }

slots_trace : Calls (new_slots (pos 1)) 1 slots
unfolding new_slots
slots_trace = acquires true 0 (new_slots (pos 1)) slots taken idle (sends (omega arith))

Calls_lem_example :
    (slots.used ≡ 1)
    × (1 ≤ (new_slots (pos 1)).capacity)
    × ((out : Taken) × (next : Slots) × Selects true slots out next)
    × ((next : Slots) → Selects true slots exceeded next → 1 ≡ (new_slots (pos 1)).capacity)
Calls_lem_example = Calls_lem (pos 1) 1 slots true slots_trace
