-- ===== src/Limiter/Bounds.antt =====
-- The limiter counts what is held, and no more is held than its limit.
use text.Mathlib.Text.{◌==◌ as str_eq}
use text.Mathlib.TextEquality.{eq_iff}
use adbcops.Common.{
  ℕ, suc, ◌-◌, ◌≤◌, ◌<◌, ◌≡◌, refl, sym, subst, ap, String, Bool, true, false, List, [], ◌∷◌, ◌++◌,
  if◌then◌else◌, leb, arith, inl, inr, Bool-cases,
}
use adbcops.Common.Int.{ℤ, pos, negsuc}
use adbcops.Limiter.Keyed.{
  new_limiter, Entry, Limiter, lookup, increment, decrement, or_default, acquire, release, Outcome,
  acquired, cancelled, limit_exceeded,
}

-- How often a key occurs.
unfoldable pub count : String → List String → ℕ
count key [] = 0
count key (k ∷ ks) = let rest = count key ks in if str_eq k key then suc rest else rest

abbrev pub now_held : Outcome → List String → List String
now_held (acquired key) held = key ∷ held
now_held cancelled held = held
now_held limit_exceeded held = held

-- The keys of the functions that were returned and not yet called, after a sequence of calls: a
-- function is called at most once. The limiter goes along.
pub data Reached (start : Limiter) : List String → Limiter → Type 0 where
  at_start : Reached start [] start
  after_acquire :
      (live : Bool) (key : String) (held : List String) (l : Limiter)
      → Reached start held l
      → Reached start (now_held (acquire live key l).0 held) (acquire live key l).1
  after_release :
      (before after : List String) (key : String) (l : Limiter)
      → Reached start (before ++ key ∷ after) l
      → Reached start (before ++ after) (release key l)

abbrev str_refl : (k : String) → str_eq k k ≡ true
str_refl k = (eq_iff k k).1 refl

same_test : (a b c : String) → str_eq a b ≡ true → str_eq a c ≡ str_eq b c
same_test a b c e = ap (λ x. str_eq x c) ((eq_iff a b).0 e)

lookup-increment :
    (key other : String) (es : List Entry)
    → lookup other (increment key es)
      ≡ (if str_eq key other then suc (lookup other es) else lookup other es)
unfolding lookup increment
lookup-increment key other [] = ground arith
lookup-increment key other (e ∷ es) = elim (Bool-cases (str_eq e.key key)) [
  | inl same ↦ rw (same, sym (same_test e.key key other same)) (ground arith)
  | inr apart ↦ rw apart (elim (Bool-cases (str_eq e.key other)) [
    | inl y ↦ rw y (ground (arith, eq_iff e.key other, eq_iff key other, eq_iff e.key key))
    | inr n ↦ rw n (lookup-increment key other es)
  ])
]

-- Every entry counts something, and no key has two.
abbrev pub Kept : List Entry → Type 0
Kept [] = Unit
Kept (e ∷ es) = (0 < e.count) × (lookup e.key es ≡ 0) × Kept es

lookup-decrement :
    (key other : String) (es : List Entry)
    → Kept es
    → lookup other (decrement key es)
      ≡ (if str_eq key other then lookup other es - 1 else lookup other es)
unfolding lookup decrement
lookup-decrement key other [] k = ground arith
lookup-decrement key other (e ∷ es) k = elim (Bool-cases (str_eq e.key key)) [
  | inl same ↦
      rw (same, sym (same_test e.key key other same))
        (elim (Bool-cases (str_eq e.key other)) [
          | inl y ↦
              rw y (ground (arith, subst (λ x. lookup x es ≡ 0) ((eq_iff e.key other).0 y) k.1))
          | inr n ↦ rw n (elim (Bool-cases (leb e.count 1)) [
            | inl last ↦ rw last refl
            | inr more ↦ rw more (rw n refl)
          ])
        ])
  | inr apart ↦ rw apart (elim (Bool-cases (str_eq e.key other)) [
    | inl y ↦ rw y (ground (arith, eq_iff e.key other, eq_iff key other, eq_iff e.key key))
    | inr n ↦ rw n (lookup-decrement key other es k.2)
  ])
]

increment-Kept : (key : String) (es : List Entry) → Kept es → Kept (increment key es)
unfolding increment
increment-Kept key [] k = (omega arith, unfold lookup in refl, tt)
increment-Kept key (e ∷ es) k = elim (Bool-cases (str_eq e.key key)) [
  | inl same ↦ rw same (omega arith, k.1, k.2)
  | inr apart ↦ rw apart (
    k.0,
    ground (arith, lookup-increment key e.key es, eq_iff key e.key, eq_iff e.key key),
    increment-Kept key es k.2,
  )
]

decrement-Kept : (key : String) (es : List Entry) → Kept es → Kept (decrement key es)
unfolding decrement
decrement-Kept key [] k = tt
decrement-Kept key (e ∷ es) k = elim (Bool-cases (str_eq e.key key)) [
  | inr apart ↦ rw apart (
    k.0,
    ground (arith, lookup-decrement key e.key es k.2, eq_iff key e.key, eq_iff e.key key),
    decrement-Kept key es k.2,
  )
  | inl same ↦ rw same (elim (Bool-cases (leb e.count 1)) [
    | inl last ↦ rw last k.2
    | inr more ↦ rw more (ground arith, k.1, k.2)
  ])
]

count-middle :
    (key other : String) (before after : List String)
    → count other (before ++ key ∷ after) ≡ (
        if str_eq key other
        then suc (count other (before ++ after))
        else count other (before ++ after))
unfolding count
count-middle key other [] after = refl
count-middle key other (b ∷ before) after = ground (arith, count-middle key other before after)

-- The limiter counts for each key what is held at it, no more than the limit, and has an entry only
-- for a key that is held.
pub record IsExact (limit : ℕ) (held : List String) (l : Limiter) : Type 0 where
  pub same_limit : l.limit ≡ limit
  pub exact : (key : String) → lookup key l.inflight ≡ count key held
  pub bounded : (key : String) → count key held ≤ limit
  pub kept : Kept l.inflight

count-cons :
    (key other : String) (held : List String)
    → count other (key ∷ held)
      ≡ (if str_eq key other then suc (count other held) else count other held)
unfolding count
count-cons key other held = refl

leb_below : (a b : ℕ) → leb a b ≡ false → b < a
leb_below a b e = ground arith

-- There is room for one more at a key that is below the limit.
room :
    (limit : ℕ) (k other : String) (held : List String) (l : Limiter)
    → IsExact limit held l
    → lookup k l.inflight < l.limit
    → k ≡ other
    → suc (count other held) ≤ limit
room limit k other held l h below same =
    subst (λ x. suc (count x held) ≤ limit) same (omega (arith, h.exact k, h.same_limit))

acquire-IsExact :
    (limit : ℕ) (live : Bool) (key : String) (held : List String) (l : Limiter)
    → IsExact limit held l
    → IsExact limit (now_held (acquire live key l).0 held) (acquire live key l).1
unfolding acquire
acquire-IsExact limit false key held l h = h
acquire-IsExact limit true key held l h =
    go (or_default key) (leb l.limit (lookup (or_default key) l.inflight)) refl
  where
    answer : String → Bool → Outcome × Limiter
    answer k full =
        if full
        then (limit_exceeded, l)
        else (acquired k, record l { inflight = increment k l.inflight })

    go :
        (k : String) (full : Bool)
        → leb l.limit (lookup k l.inflight) ≡ full
        → IsExact limit (now_held (answer k full).0 held) (answer k full).1
    go k true e = h
    go k false e = record {
      same_limit = h.same_limit;
      exact = λ other.
          ground
            (arith, lookup-increment k other l.inflight, h.exact other, count-cons k other held);
      bounded = λ other. elim (Bool-cases (str_eq k other)) [
        | inl y ↦
            rw (count-cons k other held, y)
              (room limit k other held l h (leb_below _ _ e) ((eq_iff k other).0 y))
        | inr n ↦ rw (count-cons k other held, n) (h.bounded other)
      ];
      kept = increment-Kept k l.inflight h.kept;
    }

release-IsExact :
    (limit : ℕ) (key : String) (before after : List String) (l : Limiter)
    → IsExact limit (before ++ key ∷ after) l
    → IsExact limit (before ++ after) (release key l)
unfolding release
release-IsExact limit key before after l h = record {
  same_limit = h.same_limit;
  exact = λ other. ground (
    arith,
    lookup-decrement key other l.inflight h.kept,
    h.exact other,
    count-middle key other before after,
  );
  bounded = λ other. ground (arith, h.bounded other, count-middle key other before after);
  kept = decrement-Kept key l.inflight h.kept;
}

start-IsExact : (n : ℤ) → IsExact (new_limiter n).limit [] (new_limiter n)
unfolding new_limiter lookup count
start-IsExact (pos n) = record {
  same_limit = refl;
  exact = λ _. refl;
  bounded = λ _. omega arith;
  kept = tt;
}
start-IsExact (negsuc n) = record {
  same_limit = refl;
  exact = λ _. refl;
  bounded = λ _. omega arith;
  kept = tt;
}

-- However `Acquire` and the functions that it returns are called, each function at most once, the
-- limiter counts for each key exactly what is held at it, at no key is more held than the limit,
-- and only keys that are held have an entry.
pub Reached-IsExact :
    (n : ℤ) (held : List String) (l : Limiter)
    → Reached (new_limiter n) held l
    → IsExact (new_limiter n).limit held l
Reached-IsExact n _ _ at_start = start-IsExact n
Reached-IsExact n _ _ (after_acquire live key held l r) =
    acquire-IsExact _ live key held l (Reached-IsExact n held l r)
Reached-IsExact n _ _ (after_release before after key l r) =
    release-IsExact _ key before after l (Reached-IsExact n (before ++ key ∷ after) l r)
