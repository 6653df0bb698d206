-- ===== src/Limiter/Keyed.antt =====
-- `KeyedLimiter` (backend/internal/resourcelimit/limiter.go). The map `inflight` is a list of the
-- keys that have an entry; a key without one counts 0. The function that a successful `Acquire`
-- returns is `release` at its key.
use text.Mathlib.Text.{◌==◌ as str_eq}
use adbcops.Common.{ℕ, ◌+◌, ◌-◌, String, Bool, true, false, List, [], ◌∷◌, if◌then◌else◌, leb}
use adbcops.Common.Int.{ℤ, pos, negsuc}

pub record Entry : Type 0 where
  pub key : String
  pub count : ℕ

pub record Limiter : Type 0 where
  pub limit : ℕ
  pub inflight : List Entry

-- `NewKeyedLimiter`: a limit below 1 becomes 1.
unfoldable pub new_limiter : ℤ → Limiter
new_limiter (pos n) = record { limit = if leb n 0 then 1 else n; inflight = [] }
new_limiter (negsuc n) = record { limit = 1; inflight = [] }

-- `inflight[key]`.
unfoldable pub lookup : String → List Entry → ℕ
lookup key [] = 0
lookup key (e ∷ es) = let rest = lookup key es in if str_eq e.key key then e.count else rest

unfoldable pub increment : String → List Entry → List Entry
increment key [] = record { key = key; count = 1 } ∷ []
increment key (e ∷ es) =
    let rest = increment key es in
    if str_eq e.key key then record { key = e.key; count = e.count + 1 } ∷ es else e ∷ rest

-- `inflight[key]--`, and `delete` of an entry that is at most 0 then.
unfoldable pub decrement : String → List Entry → List Entry
decrement key [] = []
decrement key (e ∷ es) =
    let rest = decrement key es in
    if str_eq e.key key
    then (if leb e.count 1 then es else record { key = e.key; count = e.count - 1 } ∷ es)
    else e ∷ rest

abbrev pub or_default : String → String
or_default key = if str_eq key "" then "default" else key

pub data Outcome : Type 0 where
  acquired : String → Outcome
  cancelled limit_exceeded : Outcome

-- `Acquire`; `live` is whether the context has no error. It answers the key to release.
unfoldable pub acquire : Bool → String → Limiter → Outcome × Limiter
unfolding lookup increment
acquire false key l = (cancelled, l)
acquire true key l =
    if leb l.limit (lookup (or_default key) l.inflight)
    then (limit_exceeded, l)
    else (acquired (or_default key), record l { inflight = increment (or_default key) l.inflight })

unfoldable pub release : String → Limiter → Limiter
unfolding decrement
release key l = record l { inflight = decrement key l.inflight }
