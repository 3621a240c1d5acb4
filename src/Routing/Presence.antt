-- ===== src/Routing/Presence.antt =====
-- Route of internal/routing/router.go where a model must be present on its node.
use houdry.Prelude.{
  true, false, not, ◌&&◌, ◌≡◌, refl, sym, subst, ◌⊎◌, inl, inr, List, [], ◌∷◌, Option, none, some,
  arith, Bool-cases, Option-cases, All, All-append, All-of, In, any,
}
use houdry.Prelude.Int.{ltb_ℤ}
use houdry.Model.{has_model}
use houdry.Routing.Scoring.{
  TaskProfile, CatalogEntry, NodeView, RouteRequest, Candidate, has_cap, is_visual, node_eligible,
  score_pair, wanted,
}
use houdry.Routing.Choosing.{
  is_offered, cons_some, on_nodes, pairs, adjusted, ranked, fallback_pair, higher, fallback_nodes,
  fallback_present, decide, route,
}
use houdry.Routing.Ranking.{catalog_of, All-insert}
use houdry.Routing.Gates.{scored_pair}
use houdry.Routing.Availability.{named_by, passes_over}

-- An eligible node of the request has the model, under the preferred runtime or under the entry's own.
pub record IsPresent (req : RouteRequest) (c : Candidate) : Type 0 where
  pub node : NodeView
  pub listed : In node req.nodes
  pub eligible : node_eligible node.status req.allow_busy ≡ true
  pub same_id : c.node_id ≡ node.node_id
  pub there :
      (has_model node.models (wanted c.entry req) ≡ true)
      ⊎ (has_model node.models (named_by c.entry) ≡ true)

abbrev May : RouteRequest → Option Candidate → Type 0
May req none = Unit
May req (some c) = IsPresent req c

module _ (req : RouteRequest) (pulls : req.allow_pull ≡ false) where
  score_pair-May :
      (e : CatalogEntry) (n : NodeView) (p : TaskProfile)
      → In n req.nodes
      → node_eligible n.status req.allow_busy ≡ true
      → May req (score_pair e n p req)
  unfolding score_pair
  score_pair-May e n p i el = elim (Option-cases (score_pair e n p req)) [
    | inl none_made ↦ rw none_made tt
    | inr (c, made) ↦
        let (is_e, is_n) = scored_pair e n p req c made in
        let there : has_model n.models (wanted e req) ≡ true = ground arith in
        rw made (record {
          node = n;
          listed = i;
          eligible = el;
          same_id = is_n;
          there = inl (subst (λ x. has_model n.models (wanted x req) ≡ true) (sym is_e) there);
        })
  ]

  fallback_pair-May :
      (e : CatalogEntry) (n : NodeView) → In n req.nodes → May req (fallback_pair req e n)
  unfolding fallback_pair
  fallback_pair-May e n i =
      elim (Bool-cases (node_eligible n.status req.allow_busy && has_model n.models (named_by e))) [
        | inl h ↦ rw h (record {
          node = n;
          listed = i;
          eligible = ground arith;
          same_id = refl;
          there = inr (ground arith);
        })
        | inr h ↦ rw h tt
      ]

  cons_some-All :
      (o : Option Candidate) (cs : List Candidate)
      → May req o
      → All (IsPresent req) cs
      → All (IsPresent req) (cons_some o cs)
  unfolding cons_some
  cons_some-All none cs h k = k
  cons_some-All (some c) cs h k = (h, k)

  on_nodes-All :
      (p : TaskProfile) (e : CatalogEntry) (ns : List NodeView)
      → All (λ n. In n req.nodes) ns
      → All (IsPresent req) (on_nodes p req e ns)
  unfolding on_nodes
  on_nodes-All p e [] h = tt
  on_nodes-All p e (n ∷ ns) h =
      let rest = on_nodes-All p e ns h.1 in
      elim (Bool-cases (node_eligible n.status req.allow_busy)) [
        | inl el ↦ rw el (cons_some-All (score_pair e n p req) _ (score_pair-May e n p h.0 el) rest)
        | inr el ↦ rw el rest
      ]

  pairs-All :
      (p : TaskProfile) (es : List CatalogEntry)
      → All (λ n. In n req.nodes) req.nodes
      → All (IsPresent req) (pairs p req es)
  unfolding pairs
  pairs-All p [] h = tt
  pairs-All p (e ∷ es) h =
      let rest = pairs-All p es h in
      elim (Bool-cases (is_offered p req e)) [
        | inl off ↦ rw off (All-append (IsPresent req) _ _ (on_nodes-All p e req.nodes h) rest)
        | inr off ↦ rw off rest
      ]

  ranked-All : (cs : List Candidate) → All (IsPresent req) cs → All (IsPresent req) (ranked cs)
  unfolding ranked
  ranked-All [] h = tt
  ranked-All (c ∷ cs) h = All-insert (IsPresent req) c (ranked cs) h.0 (ranked-All cs h.1)

  higher-May : (a b : Option Candidate) → May req a → May req b → May req (higher a b)
  unfolding higher
  higher-May a none h k = h
  higher-May none (some c) h k = k
  higher-May (some b) (some c) h k = elim (Bool-cases (ltb_ℤ b.score c.score)) [
    | inl e ↦ rw e k
    | inr e ↦ rw e h
  ]

  fallback_nodes-May :
      (e : CatalogEntry) (ns : List NodeView)
      → All (λ n. In n req.nodes) ns
      → (best : Option Candidate) → May req best
      → May req (fallback_nodes req e best ns)
  unfolding fallback_nodes
  fallback_nodes-May e [] h best k = k
  fallback_nodes-May e (n ∷ ns) h best k =
      fallback_nodes-May e ns h.1 (higher best (fallback_pair req e n))
        (higher-May best (fallback_pair req e n) k (fallback_pair-May e n h.0))

  fallback_present-May :
      All (λ n. In n req.nodes) req.nodes
      → (es : List CatalogEntry) (best : Option Candidate) → May req best
      → May req (fallback_present req best es)
  unfolding fallback_present
  fallback_present-May h [] best k = k
  fallback_present-May h (e ∷ es) best k = elim (Bool-cases (passes_over req e)) [
    | inl q ↦ rw q (fallback_present-May h es best k)
    | inr q ↦ rw q (
        fallback_present-May h es (fallback_nodes req e best req.nodes)
          (fallback_nodes-May e req.nodes h best k))
  ]

  decide-May :
      (p : TaskProfile) (cs : List Candidate) (f : Option Candidate)
      → All (IsPresent req) cs
      → May req f
      → May req (decide p cs f).selected
  unfolding decide
  decide-May p (b ∷ bs) f h k = h.0
  decide-May p [] none h k = tt
  decide-May p [] (some f) h k = elim (Bool-cases (is_visual p.modality)) [
    | inl v ↦ rw v tt
    | inr v ↦ rw v k
  ]

-- Where nothing may be pulled, Route selects only a model that a node of the request already has, and
-- names that node; it is READY, or BUSY where that is allowed.
pub route-IsPresent :
    (default : List CatalogEntry) (analyzed : TaskProfile) (req : RouteRequest) (c : Candidate)
    → req.allow_pull ≡ false
    → (route default analyzed req).selected ≡ some c
    → IsPresent req c
unfolding route
route-IsPresent default analyzed req c pulls h =
    let p = adjusted req analyzed in
    let catalog = catalog_of default req in
    let all = All-of (λ n. In n req.nodes) req.nodes (λ n i. i) in
    elim (Bool-cases (
      is_visual p.modality
      && not (any (λ (e : CatalogEntry). has_cap e.capabilities "vision") catalog))) [
        | inl e ↦ absurd (ground arith)
        | inr e ↦ subst (May req) (rw e at h) (
            decide-May req pulls p (ranked (pairs p req catalog))
              (fallback_present req none catalog)
              (ranked-All req pulls (pairs p req catalog) (pairs-All req pulls p catalog all))
              (fallback_present-May req pulls all catalog none tt))
      ]
