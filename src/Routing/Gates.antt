-- ===== src/Routing/Gates.antt =====
-- Which pairs Route of internal/routing/router.go may select.
use houdry.Prelude.{
  true, false, not, ◌&&◌, ◌≡◌, refl, sym, subst, inl, inr, List, [], ◌∷◌, ◌++◌, Option, none, some,
  arith, Bool-cases, Option-cases, All, All-of, In, any,
}
use houdry.Prelude.Int.{ltb_ℤ}
use houdry.Model.{has_model}
use houdry.Routing.Scoring.{
  TaskProfile, CatalogEntry, NodeView, RouteRequest, Candidate, has_cap, is_visual, entry_supports,
  entry_supports_tools, node_eligible, score_pair,
}
use houdry.Routing.Choosing.{
  is_offered, cons_some, on_nodes, pairs, adjusted, ranked, fallback_pair, higher, fallback_nodes,
  fallback_present, decide, route,
}
use houdry.Routing.Ranking.{catalog_of, All-insert}

-- A candidate is a pair of an entry that takes tools if they are asked for and an eligible node of the
-- request.
pub record IsPlaced (req : RouteRequest) (c : Candidate) : Type 0 where
  pub tools : (req.require_tools && not (entry_supports_tools c.entry)) ≡ false
  pub node : NodeView
  pub listed : In node req.nodes
  pub eligible : node_eligible node.status req.allow_busy ≡ true
  pub same_id : c.node_id ≡ node.node_id

-- And its entry can see, if the task needs that.
pub record IsSuited (p : TaskProfile) (req : RouteRequest) (c : Candidate) : Type 0 where
  pub sees : (is_visual p.modality && not (has_cap c.entry.capabilities "vision")) ≡ false
  pub placed : IsPlaced req c

offered_sees :
    (p : TaskProfile) (req : RouteRequest) (e : CatalogEntry)
    → is_offered p req e ≡ true
    → ((is_visual p.modality && not (has_cap e.capabilities "vision")) ≡ false)
      × ((req.require_tools && not (entry_supports_tools e)) ≡ false)
unfolding is_offered entry_supports
offered_sees p req e h = (ground arith, ground arith)

pub scored_pair :
    (e : CatalogEntry) (n : NodeView) (p : TaskProfile) (req : RouteRequest) (c : Candidate)
    → score_pair e n p req ≡ some c
    → (c.entry ≡ e) × (c.node_id ≡ n.node_id)
unfolding score_pair
scored_pair e n p req c h = (ground arith, ground arith)

All-both :
    (P : Candidate → Type 0) (xs ys : List Candidate) → All P xs → All P ys → All P (xs ++ ys)
All-both P [] ys h k = k
All-both P (x ∷ xs) ys h k = (h.0, All-both P xs ys h.1 k)

module _ (p : TaskProfile) (req : RouteRequest) where
  pair-IsSuited :
      (e : CatalogEntry) (n : NodeView) (c : Candidate)
      → is_offered p req e ≡ true
      → In n req.nodes
      → node_eligible n.status req.allow_busy ≡ true
      → score_pair e n p req ≡ some c
      → IsSuited p req c
  pair-IsSuited e n c off i el made =
      let (is_e, is_n) = scored_pair e n p req c made in
      let (sees, tools) = offered_sees p req e off in
      record {
        sees =
            subst (λ x. (is_visual p.modality && not (has_cap x.capabilities "vision")) ≡ false)
              (sym is_e) sees;
        placed = record {
          tools =
              subst (λ x. (req.require_tools && not (entry_supports_tools x)) ≡ false) (sym is_e)
                tools;
          node = n;
          listed = i;
          eligible = el;
          same_id = is_n;
        };
      }

  on_nodes-IsSuited :
      (e : CatalogEntry) (ns : List NodeView)
      → is_offered p req e ≡ true
      → All (λ n. In n req.nodes) ns
      → All (IsSuited p req) (on_nodes p req e ns)
  unfolding on_nodes cons_some
  on_nodes-IsSuited e [] off h = tt
  on_nodes-IsSuited e (n ∷ ns) off h = elim (Bool-cases (node_eligible n.status req.allow_busy)) [
    | inr el ↦ rw el (on_nodes-IsSuited e ns off h.1)
    | inl el ↦ elim (Option-cases (score_pair e n p req)) [
      | inl s ↦ rw (el, s) (on_nodes-IsSuited e ns off h.1)
      | inr (c, s) ↦ rw (el, s) ((pair-IsSuited e n c off h.0 el s, on_nodes-IsSuited e ns off h.1))
    ]
  ]

  pairs-IsSuited :
      (es : List CatalogEntry)
      → All (λ n. In n req.nodes) req.nodes
      → All (IsSuited p req) (pairs p req es)
  unfolding pairs
  pairs-IsSuited [] h = tt
  pairs-IsSuited (e ∷ es) h = elim (Bool-cases (is_offered p req e)) [
    | inl off ↦
        rw off (
          All-both (IsSuited p req) _ _ (on_nodes-IsSuited e req.nodes off h) (pairs-IsSuited es h))
    | inr off ↦ rw off (pairs-IsSuited es h)
  ]

  ranked-IsSuited :
      (cs : List Candidate) → All (IsSuited p req) cs → All (IsSuited p req) (ranked cs)
  unfolding ranked
  ranked-IsSuited [] h = tt
  ranked-IsSuited (c ∷ cs) h =
      All-insert (IsSuited p req) c (ranked cs) h.0 (ranked-IsSuited cs h.1)

-- The fallback is placed, if there is one.
abbrev May : RouteRequest → Option Candidate → Type 0
May req none = Unit
May req (some c) = IsPlaced req c

higher-May :
    (req : RouteRequest) (a b : Option Candidate) → May req a → May req b → May req (higher a b)
unfolding higher
higher-May req a none h k = h
higher-May req none (some c) h k = k
higher-May req (some b) (some c) h k = elim (Bool-cases (ltb_ℤ b.score c.score)) [
  | inl e ↦ rw e k
  | inr e ↦ rw e h
]

fallback_pair-May :
    (req : RouteRequest) (e : CatalogEntry) (n : NodeView)
    → (req.require_tools && not (entry_supports_tools e)) ≡ false
    → In n req.nodes
    → May req (fallback_pair req e n)
unfolding fallback_pair
fallback_pair-May req e n t i =
    elim (Bool-cases (
      node_eligible n.status req.allow_busy
      && has_model n.models (record { name = e.name; tag = e.tag; runtime = e.runtime }))) [
        | inl h ↦
            rw h
              (record { tools = t; node = n; listed = i; eligible = ground arith; same_id = refl })
        | inr h ↦ rw h tt
      ]

fallback_nodes-May :
    (req : RouteRequest) (e : CatalogEntry)
    → (req.require_tools && not (entry_supports_tools e)) ≡ false
    → (ns : List NodeView) → All (λ n. In n req.nodes) ns
    → (best : Option Candidate) → May req best
    → May req (fallback_nodes req e best ns)
unfolding fallback_nodes
fallback_nodes-May req e t [] h best k = k
fallback_nodes-May req e t (n ∷ ns) h best k =
    fallback_nodes-May req e t ns h.1 (higher best (fallback_pair req e n))
      (higher-May req best (fallback_pair req e n) k (fallback_pair-May req e n t h.0))

fallback_present-May :
    (req : RouteRequest)
    → All (λ n. In n req.nodes) req.nodes
    → (es : List CatalogEntry) (best : Option Candidate) → May req best
    → May req (fallback_present req best es)
unfolding fallback_present
fallback_present-May req h [] best k = k
fallback_present-May req h (e ∷ es) best k =
    elim (Bool-cases (req.require_tools && not (entry_supports_tools e))) [
      | inl t ↦ rw t (fallback_present-May req h es best k)
      | inr t ↦
          elim (Bool-cases
            (not (has_cap e.capabilities "chat") && not (has_cap e.capabilities "simple"))) [
              | inl s ↦ rw (t, s) (fallback_present-May req h es best k)
              | inr s ↦
                  rw (t, s)
                    (fallback_present-May req h es (fallback_nodes req e best req.nodes)
                      (fallback_nodes-May req e t req.nodes h best k))
            ]
    ]

decide-IsSuited :
    (p : TaskProfile) (req : RouteRequest) (cs : List Candidate) (f : Option Candidate)
    (c : Candidate)
    → All (IsSuited p req) cs
    → May req f
    → (decide p cs f).selected ≡ some c
    → IsSuited p req c
unfolding decide
decide-IsSuited p req (b ∷ bs) f c h k e = subst (IsSuited p req) (ground arith) h.0
decide-IsSuited p req [] none c h k e = cc
decide-IsSuited p req [] (some f) c h k e = elim (Bool-cases (is_visual p.modality)) [
  | inl v ↦ absurd (ground arith)
  | inr v ↦ record { sees = ground arith; placed = subst (IsPlaced req) (ground arith) k }
]

-- Whatever Route selects, also as a fallback, is an entry that can see if the task needs that and that
-- takes tools if they are asked for, on a node of the request that is READY, or BUSY where that is
-- allowed.
pub route-IsSuited :
    (default : List CatalogEntry) (analyzed : TaskProfile) (req : RouteRequest) (c : Candidate)
    → (route default analyzed req).selected ≡ some c
    → IsSuited (adjusted req analyzed) req c
unfolding route
route-IsSuited default analyzed req c h =
    let p = adjusted req analyzed in
    let catalog = catalog_of default req in
    let all = All-of (λ n. In n req.nodes) req.nodes (λ n i. i) in
    elim (Bool-cases (
      is_visual p.modality
      && not (any (λ (e : CatalogEntry). has_cap e.capabilities "vision") catalog))) [
        | inl e ↦ absurd (ground arith)
        | inr e ↦
            decide-IsSuited p req (ranked (pairs p req catalog)) (fallback_present req none catalog)
              c (ranked-IsSuited p req (pairs p req catalog) (pairs-IsSuited p req catalog all))
              (fallback_present-May req all catalog none tt) (rw e at h)
      ]
