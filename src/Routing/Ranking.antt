-- ===== src/Routing/Ranking.antt =====
-- The order in which Route of internal/routing/router.go ranks its candidates, and the warm tiers of
-- scorePair.
use houdry.Prelude.{
  ℕ, suc, ◌+◌, ◌≤◌, ◌<◌, String, Bool, true, false, not, ◌&&◌, ◌≡◌, sym, ap, inl, inr, ◌⊎◌, List,
  [], ◌∷◌, Option, none, some, arith, Bool-cases, All, In, All-of_In, All-weaken, str_lt, is_empty,
  any, if◌then◌else◌,
}
use houdry.Prelude.Int.{
  ℤ, pos, ◌<ℤ◌, ◌-ℤ◌, ◌+ℤ◌, +ℤ_parts, -ℤ_parts, eqb_ℤ, ltb_ℤ, pos_part, neg_part,
}
use houdry.Prelude.TextOrder.{str_lt_trans, str_lt_total, str_lt_asym, str_lt_irrefl}
use houdry.Text.{equal_fold}
use houdry.Model.{has_model, is_loaded}
use houdry.Routing.Scoring.{
  TaskProfile, CatalogEntry, NodeView, RouteRequest, Candidate, complexity_rank, pair_score, skill,
  tier, warm, warmth, losses, wanted, has_cap, is_visual,
}
use houdry.Routing.Choosing.{
  ranks_before, ranked, insert_candidate, pairs, adjusted, route, decide, fallback_present,
}

ranks_before_asym : (c d : Candidate) → ranks_before c d ≡ true → ranks_before d c ≡ false
unfolding ranks_before
ranks_before_asym c d h = ground (arith, str_lt_asym c.node_id d.node_id)

ranks_before_irrefl : (c : Candidate) → ranks_before c c ≡ false
unfolding ranks_before
ranks_before_irrefl c = ground (arith, str_lt_irrefl c.node_id)

not_before_trans : (s t u : String) → str_lt s t ≡ false → str_lt t u ≡ false → str_lt s u ≡ false
not_before_trans s t u p q = elim (Bool-cases (str_lt s u)) [
  | inr e ↦ e
  | inl e ↦ elim (Bool-cases (str_lt t s)) [
    | inl f ↦ cc (str_lt_trans t s u f e)
    | inr f ↦ cc (str_lt_total s t p f)
  ]
]

-- One level of the order: a larger number first, and the next level between equals.
abbrev level : ℤ → ℤ → Bool → Bool
level a b next = if not (eqb_ℤ a b) then ltb_ℤ b a else next

step_down :
    (a b c : ℤ) (r s t : Bool)
    → level a b r ≡ false
    → level b c s ≡ false
    → (r ≡ false → s ≡ false → t ≡ false)
    → level a c t ≡ false
step_down a b c r s t p q next = ground (arith, next)

-- Losing to neither of two in a row is kept.
ranks_before_through :
    (c d e : Candidate)
    → ranks_before c d ≡ false
    → ranks_before d e ≡ false
    → ranks_before c e ≡ false
unfolding ranks_before
ranks_before_through c d e p q = step_down c.score d.score e.score _ _ _ p q λ r s.
    step_down c.entry.priority d.entry.priority e.entry.priority _ _ _ r s
      (not_before_trans c.node_id d.node_id e.node_id)

-- No candidate of the list ranks before its first.
abbrev IsTop : List Candidate → Type 0
IsTop [] = Unit
IsTop (c ∷ cs) = All (λ d. ranks_before d c ≡ false) cs

pub All-insert :
    (P : Candidate → Type 0) (c : Candidate) (cs : List Candidate)
    → P c
    → All P cs
    → All P (insert_candidate c cs)
unfolding insert_candidate
All-insert P c [] p h = (p, tt)
All-insert P c (d ∷ ds) p h = elim (Bool-cases (ranks_before d c)) [
  | inl e ↦ rw e ((h.0, All-insert P c ds p h.1))
  | inr e ↦ rw e ((p, h))
]

insert-IsTop : (c : Candidate) (cs : List Candidate) → IsTop cs → IsTop (insert_candidate c cs)
unfolding insert_candidate
insert-IsTop c [] h = tt
insert-IsTop c (d ∷ ds) h = elim (Bool-cases (ranks_before d c)) [
  | inl e ↦ rw e (All-insert (λ x. ranks_before x d ≡ false) c ds (ranks_before_asym d c e) h)
  | inr e ↦ rw e (
      (
        e,
        All-weaken (λ x. ranks_before x d ≡ false) (λ x. ranks_before x c ≡ false) ds
            (λ x q. ranks_before_through x d c q e) h,
      ))
]

ranked-IsTop : (cs : List Candidate) → IsTop (ranked cs)
unfolding ranked
ranked-IsTop [] = tt
ranked-IsTop (c ∷ cs) = insert-IsTop c (ranked cs) (ranked-IsTop cs)

In-insert :
    (x c : Candidate) (cs : List Candidate) → (c ≡ x) ⊎ In x cs → In x (insert_candidate c cs)
unfolding insert_candidate
In-insert x c [] h = h
In-insert x c (d ∷ ds) h = elim (Bool-cases (ranks_before d c)) [
  | inl e ↦ rw e (elim h [
    | inl p ↦ inr (In-insert x c ds (inl p))
    | inr i ↦ elim i [ inl p ↦ inl p | inr j ↦ inr (In-insert x c ds (inr j)) ]
  ])
  | inr e ↦ rw e h
]

pub In-ranked : (x : Candidate) (cs : List Candidate) → In x cs → In x (ranked cs)
unfolding ranked
In-ranked x [] i = i
In-ranked x (c ∷ cs) i =
    In-insert x c (ranked cs) (elim i [ inl p ↦ inl p | inr j ↦ inr (In-ranked x cs j) ])

top_unbeaten :
    (p : TaskProfile) (cs : List Candidate) (fallback : Option Candidate) (c d : Candidate)
    → IsTop cs
    → In d cs
    → (decide p cs fallback).selected ≡ some c
    → ranks_before d c ≡ false
unfolding decide
top_unbeaten p [] fallback c d t i h = absurd i
top_unbeaten p (b ∷ bs) fallback c d t (inl e) h = ground (arith, ranks_before_irrefl c)
top_unbeaten p (b ∷ bs) fallback c d t (inr i) h =
    ground (arith, All-of_In (λ x. ranks_before x b ≡ false) d bs t i)

-- The catalog that Route works with.
abbrev pub catalog_of : List CatalogEntry → RouteRequest → List CatalogEntry
catalog_of default req = if is_empty req.catalog then default else req.catalog

-- No pair that passed the gates ranks before the one that Route selects: none has a higher score, or
-- the same score and a higher priority, or the same of both and a smaller node id.
pub route_unbeaten :
    (default : List CatalogEntry) (analyzed : TaskProfile) (req : RouteRequest) (c d : Candidate)
    → (route default analyzed req).selected ≡ some c
    → In d (pairs (adjusted req analyzed) req (catalog_of default req))
    → ranks_before d c ≡ false
unfolding route
route_unbeaten default analyzed req c d h i =
    let p = adjusted req analyzed in
    let catalog = catalog_of default req in
    elim (Bool-cases (
      is_visual p.modality
      && not (any (λ (e : CatalogEntry). has_cap e.capabilities "vision") catalog))) [
        | inl e ↦ absurd (ground arith)
        | inr e ↦
            top_unbeaten p (ranked (pairs p req catalog)) (fallback_present req none catalog) c d
              (ranked-IsTop (pairs p req catalog)) (In-ranked d (pairs p req catalog) i) (rw e at h)
      ]

score_lt :
    (x y a b : ℕ) (p q : ℤ)
    → p ≡ q
    → x + b < y + a
    → ((pos x -ℤ pos a) +ℤ p) <ℤ ((pos y -ℤ pos b) +ℤ q)
score_lt x y a b p q same h = omega (
  arith,
  h,
  -ℤ_parts (pos x) (pos a),
  -ℤ_parts (pos y) (pos b),
  +ℤ_parts (pos x -ℤ pos a) p,
  +ℤ_parts (pos y -ℤ pos b) q,
  ap pos_part same,
  ap neg_part same,
)

-- Warmth does not outbid the right size: a model of exactly the needed complexity that is present but
-- not loaded scores more than any larger model that is loaded, at equal skill and priority and on
-- nodes that are both BUSY or both not.
pub right_size_wins :
    (e f : CatalogEntry) (n m : NodeView) (p : TaskProfile) (req : RouteRequest)
    → complexity_rank e.max_complexity ≡ complexity_rank p.complexity
    → suc (complexity_rank p.complexity) ≤ complexity_rank f.max_complexity
    → has_model n.models (wanted e req) ≡ true
    → is_loaded n.models (wanted e req) ≡ false
    → is_loaded m.models (wanted f req) ≡ true
    → skill e p req ≡ skill f p req
    → e.priority ≡ f.priority
    → equal_fold n.status "BUSY" ≡ equal_fold m.status "BUSY"
    → pair_score f m p req <ℤ pair_score e n p req
unfolding pair_score warmth warm tier losses
right_size_wins e f n m p req exact larger there cold hot able rank busy =
    let size : tier f p + warm f p < tier e p + 15 = ground arith in
    let owed : losses n req false ≤ losses m req true + 10 = ground arith in
    rw (there, cold, hot)
      (score_lt (tier f p + skill f p req + warm f p) (tier e p + skill e p req + 25)
        (losses m req true) (losses n req false) f.priority e.priority (sym rank)
        (omega (arith, size, owed, able)))
