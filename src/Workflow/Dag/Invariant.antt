-- ===== src/Workflow/Dag/Invariant.antt =====
-- What the loops of `validateDAG` keep: degrees count the incoming edges from nodes that are not
-- visited, the queue holds the nodes without any, and a visited node was visited after all nodes
-- with an edge to it.
use text.Mathlib.Text.{◌==◌ as str_eq}
use text.Mathlib.TextEquality.{eq_iff}
use adbcops.Common.{
  ℕ, zero, suc, ◌+◌, ◌<◌, ◌≡◌, refl, sym, subst, ◌∙◌, inl, inr, String, Bool, true, false, not,
  ◌&&◌, ◌||◌, some, List, [], ◌∷◌, ◌++◌, map, keep, length, if◌then◌else◌, ◌==◌, All, arith,
  Bool-cases,
}
use adbcops.Common.Members.{String_eq, mem, Nodup, length_of_Subset}
use adbcops.Common.Sorting.{
  mem-keep, sort_strings, mem-sort_strings, sort_strings-Nodup, mem-snoc, snoc-Nodup,
}
use adbcops.Workflow.Definition.{Edge, Edges}
use adbcops.Workflow.Graph.{into, Joins, IsGraph}
use adbcops.Workflow.Dag.{tos, lower, relax, kahn}

-- Every node of the list stands before (newer than) all nodes with an edge to it.
abbrev pub Topo : List Edge → List String → Type 0
Topo edges [] = Unit
Topo edges (x ∷ older) =
    All (λ (e : Edge). into x e ≡ true → mem e.from older ≡ true) edges × Topo edges older

-- Whether an edge leads to a node from one that is not visited.
abbrev pub open_into : List String → String → Edge → Bool
open_into visited x e = into x e && not (mem e.from visited)

-- In a round of the outer loop; `rest` are the edges of the round that are still to be relaxed.
pub record Round (edges : List Edge) (nodes : List String) (rest : List Edge)
    (visited queue : List String) (degree : String → ℕ) : Type 0 where
  pub counts :
      (x : String)
      → degree x ≡ length (keep (open_into visited x) edges) + length (keep (into x) rest)
  pub zeros : (x : String) → (mem x visited || mem x queue) ≡ true → degree x ≡ 0
  pub all : (x : String) → mem x nodes ≡ true → degree x ≡ 0 → (mem x visited || mem x queue) ≡ true
  pub apart : (x : String) → mem x queue ≡ true → mem x visited ≡ false
  pub queue_unique : Nodup queue
  pub visited_unique : Nodup visited
  pub known : (x : String) → (mem x visited || mem x queue) ≡ true → mem x nodes ≡ true
  pub order : Topo edges visited

mem-pushed :
    (a x : String) (queue : List String)
    → mem a (sort_strings (queue ++ x ∷ [])) ≡ (mem a queue || str_eq a x)
mem-pushed a x queue = mem-sort_strings a (queue ++ x ∷ []) ∙ mem-snoc a x queue

module _ (edges : List Edge) (nodes : List String) where
  -- One edge of the round.
  relax_one :
      (e : Edge) (rest : List Edge) (visited queue : List String) (degree : String → ℕ)
      → mem e.to nodes ≡ true
      → Round edges nodes (e ∷ rest) visited queue degree
      → Round edges nodes rest visited
          (if lower e.to degree e.to == 0 then sort_strings (queue ++ e.to ∷ []) else queue)
          (lower e.to degree)
  relax_one e rest visited queue degree k r = elim (Bool-cases (lower e.to degree e.to == 0)) [
    | inr more ↦ rw more (record {
      counts = counts;
      zeros = λ x m. ground (arith, r.zeros x m);
      all = λ x m z. ground (arith, r.all x m, eq_iff e.to x);
      apart = r.apart;
      queue_unique = r.queue_unique;
      visited_unique = r.visited_unique;
      known = r.known;
      order = r.order;
    })
    | inl last ↦ rw last (record {
      counts = counts;
      zeros =
          λ x m. ground (arith, r.zeros x, mem-pushed x e.to queue, eq_iff e.to x, eq_iff x e.to);
      all =
          λ x m z. ground (arith, r.all x m, mem-pushed x e.to queue, eq_iff e.to x, eq_iff x e.to);
      apart = λ x m. ground (arith, r.apart x, mem-pushed x e.to queue, eq_iff x e.to, fresh.0);
      queue_unique =
          sort_strings-Nodup (queue ++ e.to ∷ []) (snoc-Nodup e.to queue fresh.1 r.queue_unique);
      visited_unique = r.visited_unique;
      known = λ x m. ground (arith, r.known x, mem-pushed x e.to queue, eq_iff x e.to);
      order = r.order;
    })
  ]
    where
      counts :
          (x : String)
          → lower e.to degree x
            ≡ length (keep (open_into visited x) edges) + length (keep (into x) rest)
      counts x = ground (arith, r.counts x)

      fresh : (mem e.to visited ≡ false) × (mem e.to queue ≡ false)
      fresh = ground (arith, r.zeros e.to, r.counts e.to, eq_iff e.to e.to)

  -- The inner loop over the edges of the round.
  relax-Round :
      (rest : List Edge) (visited queue : List String) (degree : String → ℕ)
      → All (λ (e : Edge). mem e.to nodes ≡ true) rest
      → Round edges nodes rest visited queue degree
      → Round edges nodes [] visited
          (relax (map (λ (e : Edge). e.to) rest) queue degree).0
          (relax (map (λ (e : Edge). e.to) rest) queue degree).1
  unfolding relax
  relax-Round [] visited queue degree k r = r
  relax-Round (e ∷ rest) visited queue degree k r =
      relax-Round rest visited
        (if lower e.to degree e.to == 0 then sort_strings (queue ++ e.to ∷ []) else queue)
        (lower e.to degree) k.1 (relax_one e rest visited queue degree k.0 r)

-- The edges into a node from those that are not visited, when one more is visited.
count_split :
    (id x : String) (visited : List String) (edges : List Edge)
    → mem id visited ≡ false
    → length (keep (open_into visited x) edges)
      ≡ length (keep (open_into (id ∷ visited) x) edges)
        + length (keep (into x) (keep (λ (e : Edge). str_eq e.from id) edges))
unfolding mem
count_split id x visited [] m = refl
count_split id x visited (e ∷ edges) m = elim (Bool-cases (str_eq e.from id)) [
  | inl y ↦ rw y (rw (m' y) (ground (arith, count_split id x visited edges m)))
  | inr n ↦ rw n (ground (arith, count_split id x visited edges m))
]
  where
    m' : str_eq e.from id ≡ true → mem e.from visited ≡ false
    m' y = subst (λ k. mem k visited ≡ false) (sym ((eq_iff e.from id).0 y)) m

none_of_length :
    (p : Edge → Bool) (edges : List Edge)
    → length (keep p edges) ≡ 0
    → All (λ (e : Edge). p e ≡ false) edges
none_of_length p [] h = tt
none_of_length p (e ∷ edges) h = elim (Bool-cases (p e)) [
  | inl y ↦ absurd (ground arith)
  | inr n ↦ (n, none_of_length p edges (ground arith))
]

closed_from :
    (visited : List String) (x : String) (edges : List Edge)
    → All (λ (e : Edge). open_into visited x e ≡ false) edges
    → All (λ (e : Edge). into x e ≡ true → mem e.from visited ≡ true) edges
closed_from visited x [] h = tt
closed_from visited x (e ∷ edges) h = (λ y. ground (arith, h.0), closed_from visited x edges h.1)

-- A node is taken from the queue.
pub pop-Round :
    (edges : List Edge) (nodes : List String) (id : String) (queue visited : List String)
    (degree : String → ℕ)
    → Round edges nodes [] visited (id ∷ queue) degree
    → Round edges nodes (keep (λ (e : Edge). str_eq e.from id) edges) (id ∷ visited) queue degree
unfolding mem
pop-Round edges nodes id queue visited degree r = record {
  counts = λ x. omega (arith, r.counts x, count_split id x visited edges fresh);
  zeros = λ x m. ground (arith, r.zeros x);
  all = λ x m z. ground (arith, r.all x m z);
  apart = λ x m. ground (arith, r.apart x, r.queue_unique.0, eq_iff x id);
  queue_unique = r.queue_unique.1;
  visited_unique = (fresh, r.visited_unique);
  known = λ x m. ground (arith, r.known x);
  order = (
    closed_from visited id edges (
        none_of_length (open_into visited id) edges
          (ground (arith, r.counts id, r.zeros id, eq_iff id id))),
    r.order,
  );
}
  where
    fresh : mem id visited ≡ false
    fresh = r.apart id (ground (arith, eq_iff id id))

known_ends :
    (nodes : List String) (id : String) (edges : List Edge)
    → All (Joins nodes) edges
    → All (λ (e : Edge). mem e.to nodes ≡ true) (keep (λ (e : Edge). str_eq e.from id) edges)
known_ends nodes id [] j = tt
known_ends nodes id (e ∷ edges) j = elim (Bool-cases (str_eq e.from id)) [
  | inl y ↦ rw y (j.0.1, known_ends nodes id edges j.1)
  | inr n ↦ rw n (known_ends nodes id edges j.1)
]

-- With fuel for the nodes that are left the loop ends, with an empty queue.
pub kahn_ends :
    (edges : List Edge) (nodes : List String)
    → All (Joins nodes) edges
    → (fuel : ℕ) (visited queue : List String) (degree : String → ℕ)
    → length nodes < fuel + length visited
    → Round edges nodes [] visited queue degree
    → (final : List String) × (last : String → ℕ) × (kahn fuel edges queue degree visited
        ≡ some final)
      × Round edges nodes [] final [] last
unfolding kahn
kahn_ends edges nodes j zero visited queue degree f r =
    absurd (
      omega (arith, length_of_Subset visited nodes r.visited_unique (λ x m. r.known x (rw m refl))))
kahn_ends edges nodes j (suc fuel) visited [] degree f r = (visited, degree, refl, r)
kahn_ends edges nodes j (suc fuel) visited (id ∷ queue) degree f r =
    kahn_ends edges nodes j fuel (id ∷ visited) (relax (tos id edges) queue degree).0
      (relax (tos id edges) queue degree).1 (omega arith)
      (relax-Round edges nodes (keep (λ (e : Edge). str_eq e.from id) edges) (id ∷ visited) queue
        degree (known_ends nodes id edges j) (pop-Round edges nodes id queue visited degree r))

keep-Nodup : (p : String → Bool) (xs : List String) → Nodup xs → Nodup (keep p xs)
keep-Nodup p [] n = tt
keep-Nodup p (x ∷ xs) n = ground (arith, mem-keep p x xs, keep-Nodup p xs n.1)

open_none :
    (x : String) (edges : List Edge)
    → length (keep (into x) edges)
      ≡ length (keep (open_into [] x) edges) + length (keep (into x) [])
unfolding mem
open_none x [] = refl
open_none x (e ∷ edges) = ground (arith, open_none x edges)

pub start-Round :
    (nodes : List String) (v : Edges)
    → Nodup nodes
    → IsGraph nodes v
    → Round v.outgoing nodes [] [] (sort_strings (keep (λ id. v.indegree id == 0) nodes)) v.indegree
unfolding mem
start-Round nodes v u g = record {
  counts = λ x. g.indegree x ∙ open_none x v.outgoing;
  zeros = λ x m. ground (arith, in_queue x);
  all = λ x m z. ground (arith, in_queue x);
  apart = λ x m. refl;
  queue_unique =
      sort_strings-Nodup (keep (λ id. v.indegree id == 0) nodes)
        (keep-Nodup (λ id. v.indegree id == 0) nodes u);
  visited_unique = tt;
  known = λ x m. ground (arith, in_queue x);
  order = tt;
}
  where
    in_queue :
        (x : String)
        → mem x (sort_strings (keep (λ id. v.indegree id == 0) nodes))
          ≡ ((v.indegree x == 0) && mem x nodes)
    in_queue x =
        mem-sort_strings x (keep (λ id. v.indegree id == 0) nodes)
        ∙ mem-keep (λ id. v.indegree id == 0) x nodes
