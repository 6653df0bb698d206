-- ===== src/Workflow/Reach/Exact.antt =====
-- `walk` answers exactly the nodes that it can reach.
use text.Mathlib.Text.{◌==◌ as str_eq}
use text.Mathlib.TextEquality.{eq_iff}
use adbcops.Common.{
  ℕ, zero, suc, ◌+◌, ◌<◌, ◌≡◌, ◌↔◌, ◌⊎◌, refl, sym, ap, subst, ◌∙◌, inl, inr, String, Bool, true,
  false, ◌&&◌, ◌||◌, List, [], ◌∷◌, ◌++◌, length, length-append, if◌then◌else◌, All, arith,
  Bool-cases,
}
use adbcops.Common.Members.{String_eq, mem, mem_head, Nodup, Subset, length_of_Subset}
use adbcops.Common.Sorting.{mem-snoc}
use adbcops.Workflow.Definition.{Edge}
use adbcops.Workflow.Graph.{Joins}
use adbcops.Workflow.Dag.{tos}
use adbcops.Workflow.Dag.Acyclic.{Among, Leads, one, more, All-Among}
use adbcops.Workflow.Reach.{visit, walk_loop, walk}

-- A way of any length, also of none.
abbrev pub Reaches : List Edge → String → String → Type 0
Reaches edges x y = (x ≡ y) ⊎ Leads edges x y

Reaches-step :
    (edges : List Edge) (e : Edge) (x : String)
    → Reaches edges x e.from
    → Among e edges
    → Reaches edges x e.to
Reaches-step edges e x (inl s) a = inr (one e e.to a (sym s) refl)
Reaches-step edges e x (inr l) a = inr (more e e.from e.to l a refl refl)

-- In a round for `id`; `rest` are the ends that are still to be visited.
record Round (edges : List Edge) (nodes : List String) (start id : String)
    (rest seen queue : List String) : Type 0 where
  pub sound : (x : String) → mem x seen ≡ true → Reaches edges start x
  pub next : (x : String) → mem x rest ≡ true → Reaches edges start x × (mem x nodes ≡ true)
  pub queued : (x : String) → mem x queue ≡ true → mem x seen ≡ true
  pub closed :
      (e : Edge)
      → Among e edges
      → mem e.from seen ≡ true
      → (mem e.to seen || mem e.from queue || (str_eq e.from id && mem e.to rest)) ≡ true
  pub unique : Nodup seen
  pub known : Subset seen nodes
  pub started : mem start seen ≡ true

grow_alike :
    (old : Bool) (x : String) (seen queue : List String)
    → length (if old then queue else queue ++ x ∷ []) + length seen
      ≡ length queue + length (if old then seen else x ∷ seen)
grow_alike true x seen queue = omega arith
grow_alike false x seen queue = omega (arith, length-append {0} queue (x ∷ []))

module _ (edges : List Edge) (nodes : List String) (start id : String) where
  visit_one :
      (x : String) (rest seen queue : List String)
      → Round edges nodes start id (x ∷ rest) seen queue
      → Round edges nodes start id rest
          (if mem x seen then seen else x ∷ seen)
          (if mem x seen then queue else queue ++ x ∷ [])
  unfolding mem
  visit_one x rest seen queue r = elim (Bool-cases (mem x seen)) [
    | inl old ↦ rw old (record {
      sound = r.sound;
      next = λ y m. r.next y (ground arith);
      queued = r.queued;
      closed = λ e a m. ground (arith, r.closed e a m, eq_iff e.to x);
      unique = r.unique;
      known = r.known;
      started = r.started;
    })
    | inr new ↦ rw new (record {
      sound = λ y m. elim (Bool-cases (str_eq y x)) [
        | inl s ↦
            subst (Reaches edges start) (sym ((eq_iff y x).0 s)) (r.next x (mem_head x rest)).0
        | inr s ↦ r.sound y (ground arith)
      ];
      next = λ y m. r.next y (ground arith);
      queued = λ y m. ground (arith, r.queued y, mem-snoc y x queue);
      closed = λ e a m. ground (arith, r.closed e a, mem-snoc e.from x queue, eq_iff e.to x);
      unique = (new, r.unique);
      known = λ y m. ground (arith, r.known y, (r.next x (mem_head x rest)).1, eq_iff y x);
      started = ground (arith, r.started);
    })
  ]

  -- The queue and the list of what was seen grow alike.
  visit_all :
      (rest seen queue : List String)
      → Round edges nodes start id rest seen queue
      → Round edges nodes start id [] (visit rest seen queue).0 (visit rest seen queue).1
        × (length (visit rest seen queue).1 + length seen
            ≡ length queue + length (visit rest seen queue).0)
  unfolding visit
  visit_all [] seen queue r = (r, omega arith)
  visit_all (x ∷ rest) seen queue r =
      let ih =
        visit_all rest (if mem x seen then seen else x ∷ seen)
          (if mem x seen then queue else queue ++ x ∷ []) (visit_one x rest seen queue r) in
      (ih.0, omega (arith, ih.1, grow_alike (mem x seen) x seen queue))

mem-tos :
    (id : String) (e : Edge) (edges : List Edge)
    → Among e edges
    → str_eq e.from id ≡ true
    → mem e.to (tos id edges) ≡ true
unfolding mem
mem-tos id e [] a s = absurd a
mem-tos id e (d ∷ edges) (inl same) s =
    rw (ap (λ (k : Edge). str_eq k.from id) same ∙ s)
      (ground (arith, ap (λ (k : Edge). k.to) same, eq_iff e.to d.to))
mem-tos id e (d ∷ edges) (inr a) s = elim (Bool-cases (str_eq d.from id)) [
  | inl y ↦ rw y (ground (arith, mem-tos id e edges a s))
  | inr n ↦ rw n (mem-tos id e edges a s)
]

-- What stands among the ends of the edges from a node is the end of such an edge.
tos-edge :
    (id x : String) (edges : List Edge)
    → mem x (tos id edges) ≡ true
    → (e : Edge) × Among e edges × (e.from ≡ id) × (e.to ≡ x)
unfolding mem
tos-edge id x [] m = absurd cc
tos-edge id x (d ∷ edges) m = elim (Bool-cases (str_eq d.from id)) [
  | inr n ↦ let (e, a, f, t) = tos-edge id x edges (rw n at m) in (e, inr a, f, t)
  | inl y ↦ elim (Bool-cases (str_eq x d.to)) [
    | inl s ↦ (d, inl refl, (eq_iff d.from id).0 y, sym ((eq_iff x d.to).0 s))
    | inr s ↦ let (e, a, f, t) = tos-edge id x edges (ground arith) in (e, inr a, f, t)
  ]
]

module _ (edges : List Edge) (nodes : List String) (start : String)
    (joins : All (Joins nodes) edges) where
  -- The next node leaves the queue, and its ends are to be visited.
  pop :
      (old id : String) (seen queue : List String)
      → Round edges nodes start old [] seen (id ∷ queue)
      → Round edges nodes start id (tos id edges) seen queue
  unfolding mem
  pop old id seen queue r = record {
    sound = r.sound;
    next = λ y m.
        let (e, a, f, t) = tos-edge id y edges m in
        (
          subst (Reaches edges start) t (
              Reaches-step edges e start
                (subst (Reaches edges start) (sym f) (r.sound id (r.queued id (mem_head id queue))))
                a),
          subst (λ k. mem k nodes ≡ true) t (All-Among (Joins nodes) e edges joins a).1,
        );
    queued = λ y m. ground (arith, r.queued y);
    closed = λ e a m. ground (arith, r.closed e a m, mem-tos id e edges a);
    unique = r.unique;
    known = r.known;
    started = r.started;
  }

  -- With enough fuel the loop ends with an empty queue.
  loop_ends :
      (fuel : ℕ) (old : String) (seen queue : List String)
      → length nodes + length queue < fuel + length seen
      → Round edges nodes start old [] seen queue
      → (last : String) × Round edges nodes start last [] (walk_loop fuel edges seen queue) []
  unfolding walk_loop
  loop_ends zero old seen queue f r =
      absurd (omega (arith, f, length_of_Subset seen nodes r.unique r.known))
  loop_ends (suc fuel) old seen [] f r = (old, r)
  loop_ends (suc fuel) old seen (id ∷ queue) f r =
      let (round, grown) =
        visit_all edges nodes start id (tos id edges) seen queue (pop old id seen queue r) in
      loop_ends fuel id _ _ (omega (arith, f, grown)) round

  -- Once the queue is empty, all that is reached was seen.
  seen_Leads :
      (last : String) (seen : List String)
      → Round edges nodes start last [] seen []
      → (x y : String) → mem x seen ≡ true
      → Leads edges x y
      → mem y seen ≡ true
  unfolding mem
  seen_Leads last seen r x _ m (one e y a f t) =
      subst (λ k. mem k seen ≡ true) t
        (ground (arith, r.closed e a (subst (λ k. mem k seen ≡ true) (sym f) m)))
  seen_Leads last seen r x _ m (more e y z l a f t) =
      subst (λ k. mem k seen ≡ true) t
        (ground (
          arith,
          r.closed e a (subst (λ k. mem k seen ≡ true) (sym f) (seen_Leads last seen r x y m l)),
        ))

  first_round : mem start nodes ≡ true → Round edges nodes start start [] (start ∷ []) (start ∷ [])
  unfolding mem
  first_round m = record {
    sound = λ y s. inl (ground (arith, eq_iff y start));
    next = λ y s. absurd cc;
    queued = λ y s. s;
    closed = λ e a s. ground arith;
    unique = (refl, tt);
    known = λ y s. ground (arith, eq_iff y start, m);
    started = mem_head start [];
  }

  -- `walk` answers exactly the nodes that it can reach over the edges, from a node of the graph whose
  -- edges all join nodes of the graph.
  pub walk_iff :
      (x : String)
      → mem start nodes ≡ true
      → (mem x (walk nodes start edges) ≡ true) ↔ Reaches edges start x
  unfolding walk
  walk_iff x m =
      let (last, r) =
        loop_ends (suc (length nodes)) start (start ∷ []) (start ∷ []) (omega arith)
          (first_round m) in
      (
        r.sound x,
        λ w. elim w [
          | inl s ↦
              subst
                (λ k. mem k (walk_loop (suc (length nodes)) edges (start ∷ []) (start ∷ [])) ≡ true)
                s r.started
          | inr l ↦ seen_Leads last _ r start x r.started l
        ],
      )
