-- ===== src/Workflow/Reach/Turned.antt =====
-- The reverse edges of `validateReachability`: a way along them is a way of the graph, backwards.
use text.Mathlib.TextEquality.{eq_iff}
use adbcops.Common.{◌≡◌, refl, sym, ap, subst, inl, inr, String, List, [], ◌∷◌, All, arith}
use adbcops.Common.Members.{String_eq}
use adbcops.Workflow.Definition.{Edge}
use adbcops.Workflow.Graph.{Joins}
use adbcops.Workflow.Dag.Acyclic.{Among, Leads, one, more}
use adbcops.Workflow.Reach.{turned, reversed}
use adbcops.Workflow.Reach.Exact.{Reaches}

pub Joins-reversed :
    (nodes : List String) (edges : List Edge)
    → All (Joins nodes) edges
    → All (Joins nodes) (reversed edges)
Joins-reversed nodes [] h = tt
Joins-reversed nodes (e ∷ edges) h = (
  (h.0.1, h.0.0, ground (arith, h.0.2, eq_iff e.from e.to, eq_iff e.to e.from)),
  Joins-reversed nodes edges h.1,
)

Among-reversed : (e : Edge) (edges : List Edge) → Among e edges → Among (turned e) (reversed edges)
Among-reversed e [] a = a
Among-reversed e (d ∷ edges) (inl s) = inl (ap turned s)
Among-reversed e (d ∷ edges) (inr a) = inr (Among-reversed e edges a)

-- Turning the edges twice leaves them as they are.
reversed_twice : (edges : List Edge) → reversed (reversed edges) ≡ edges
reversed_twice [] = refl
reversed_twice (e ∷ edges) = ap (λ es. e ∷ es) (reversed_twice edges)

Leads-before :
    (edges : List Edge) (e : Edge) (x y : String)
    → Among e edges
    → e.to ≡ x
    → Leads edges x y
    → Leads edges e.from y
Leads-before edges e x _ a t (one d y b f g) = more d x y (one e x a refl t) b f g
Leads-before edges e x _ a t (more d y z l b f g) =
    more d y z (Leads-before edges e x y a t l) b f g

Leads-reversed : (edges : List Edge) (x y : String) → Leads edges x y → Leads (reversed edges) y x
Leads-reversed edges x _ (one e y a f t) = one (turned e) x (Among-reversed e edges a) t f
Leads-reversed edges x _ (more e y z l a f t) =
    subst (λ k. Leads (reversed edges) k x) t
      (Leads-before (reversed edges) (turned e) y x (Among-reversed e edges a) f
        (Leads-reversed edges x y l))

pub Reaches-of_reversed :
    (edges : List Edge) (x y : String) → Reaches (reversed edges) x y → Reaches edges y x
Reaches-of_reversed edges x y (inl s) = inl (sym s)
Reaches-of_reversed edges x y (inr l) =
    inr (subst (λ es. Leads es y x) (reversed_twice edges) (Leads-reversed (reversed edges) x y l))
