-- ===== src/Limiter/Slots.antt =====
-- `Limiter` (backend/internal/resourcelimit/limiter.go): a channel with a capacity. `select` takes any
-- case that is ready, so that `Acquire` is a relation; it takes `default` when none is. The function
-- that a successful `Acquire` returns is `release`, and is called at most once.
use adbcops.Common.{
  ℕ, suc, ◌-◌, ◌≤◌, ◌<◌, ◌≡◌, refl, inl, inr, ap, Bool, true, false, if◌then◌else◌, leb, ltb, arith,
  Bool-cases,
}
use adbcops.Common.Int.{ℤ, pos, negsuc}

pub record Slots : Type 0 where
  pub capacity : ℕ
  pub used : ℕ

-- `NewLimiter`: a limit below 1 becomes 1.
unfoldable pub new_slots : ℤ → Slots
new_slots (pos n) = record { capacity = if leb n 0 then 1 else n; used = 0 }
new_slots (negsuc n) = record { capacity = 1; used = 0 }

pub data Taken : Type 0 where
  taken ended exceeded : Taken

-- The cases of the `select`; `live` is whether the context is not done.
pub data Selects (live : Bool) (l : Slots) : Taken → Slots → Type 0 where
  sends : l.used < l.capacity → Selects live l taken (record l { used = suc l.used })
  is_done : live ≡ false → Selects live l ended l
  default_case : live ≡ true → l.capacity ≤ l.used → Selects live l exceeded l

abbrev pub release_slot : Slots → Slots
release_slot l = record l { used = l.used - 1 }

abbrev pub held_after : Taken → ℕ → ℕ
held_after taken held = suc held
held_after ended held = held
held_after exceeded held = held

-- What is held after a sequence of calls, and the limiter then.
pub data Calls (start : Slots) : ℕ → Slots → Type 0 where
  at_start : Calls start 0 start
  acquires :
      (live : Bool) (held : ℕ) (l next : Slots) (out : Taken)
      → Calls start held l
      → Selects live l out next
      → Calls start (held_after out held) next
  releases : (held : ℕ) (l : Slots) → Calls start (suc held) l → Calls start held (release_slot l)

-- The limiter counts what is held, which is no more than its capacity.
pub record IsCounted (capacity held : ℕ) (l : Slots) : Type 0 where
  pub same_capacity : l.capacity ≡ capacity
  pub used : l.used ≡ held
  pub bounded : held ≤ capacity

Calls-IsCounted :
    (start : Slots) (held : ℕ) (l : Slots)
    → start.used ≡ 0
    → Calls start held l
    → IsCounted start.capacity held l
Calls-IsCounted start _ _ z at_start = record {
  same_capacity = refl;
  used = z;
  bounded = omega arith;
}
Calls-IsCounted start _ _ z (acquires live held l _ _ r (sends room)) =
    let h = Calls-IsCounted start held l z r in
    record {
      same_capacity = h.same_capacity;
      used = ap suc h.used;
      bounded = omega (arith, h.used, h.same_capacity, room);
    }
Calls-IsCounted start _ _ z (acquires live held l _ _ r (is_done d)) =
    Calls-IsCounted start held l z r
Calls-IsCounted start _ _ z (acquires live held l _ _ r (default_case d f)) =
    Calls-IsCounted start held l z r
Calls-IsCounted start _ _ z (releases held l r) =
    let h = Calls-IsCounted start (suc held) l z r in
    record {
      same_capacity = h.same_capacity;
      used = omega (arith, h.used);
      bounded = omega (arith, h.bounded);
    }

-- Some case of the `select` is taken.
selects_some : (live : Bool) (l : Slots) → (out : Taken) × (next : Slots) × Selects live l out next
selects_some false l = (ended, l, is_done refl)
selects_some true l = elim (Bool-cases (ltb l.used l.capacity)) [
  | inl y ↦ (taken, record l { used = suc l.used }, sends (ground (arith, y)))
  | inr n ↦ (exceeded, l, default_case refl (ground (arith, n)))
]

-- The limit is exceeded only when the channel is full.
full :
    (live : Bool) (l next : Slots) (out : Taken)
    → Selects live l out next
    → out ≡ exceeded
    → l.capacity ≤ l.used
full live l _ _ (sends room) e = absurd cc
full live l _ _ (is_done d) e = absurd cc
full live l _ _ (default_case d f) e = f

new_slots-used : (n : ℤ) → (new_slots n).used ≡ 0
unfolding new_slots
new_slots-used (pos n) = refl
new_slots-used (negsuc n) = refl

-- However `Acquire` and the functions that it returns are called, each function at most once, the
-- limiter counts what is held, which is never more than its limit; a further `Acquire` does not
-- block, and it exceeds the limit only when as much is held as the limit allows.
pub Calls_lem :
    (n : ℤ) (held : ℕ) (l : Slots) (live : Bool)
    → Calls (new_slots n) held l
    → (l.used ≡ held)
      × (held ≤ (new_slots n).capacity)
      × ((out : Taken) × (next : Slots) × Selects live l out next)
      × ((next : Slots) → Selects live l exceeded next → held ≡ (new_slots n).capacity)
Calls_lem n held l live r = (
  h.used,
  h.bounded,
  selects_some live l,
  λ next s. omega (arith, full live l next exceeded s refl, h.same_capacity, h.used, h.bounded),
)
  where
    h : IsCounted (new_slots n).capacity held l
    h = Calls-IsCounted (new_slots n) held l (new_slots-used n) r
