-- ===== src/Routing/Availability.antt =====
-- Route of internal/routing/router.go over the catalog that CatalogFromModels of catalog.go builds from
-- the models of a node.
use houdry.Prelude.{
  String, Bool, true, false, not, ◌&&◌, ◌||◌, ◌≡◌, refl, sym, subst, ap, inl, inr, List, [], ◌∷◌,
  Option, none, some, arith, find, Bool-cases, Option-cases, All, All-of_In, In, find-eq-some,
  is_some, is_empty, map, leb, ◌^◌, ◌*◌, if◌then◌else◌,
}
use houdry.Text.{lower, contains_any, equal_fold, eq_codes, lower_code}
use houdry.Model.{Model, Identity, identity, has_model}
use houdry.Routing.Scoring.{
  CatalogEntry, NodeView, TaskProfile, RouteRequest, Candidate, has_cap, is_visual, node_eligible,
  entry_supports_tools,
}
use houdry.Routing.Choosing.{
  adjusted, route, decide, fallback_pair, fallback_nodes, fallback_present, higher,
}
use houdry.Routing.Analysis.{append_cap}
use houdry.Routing.Grading.{has_cap-append}
use houdry.Routing.Catalog.{
  Family, Decimal, known_families, family_caps, sized, is_below, entry_for_model,
  catalog_from_models, unsized, family_ref, parse_param_billions,
}

known_chat : All (λ (f : Family). has_cap (family_caps (some f)) "chat" ≡ true) known_families
unfolding known_families family_caps has_cap equal_fold eq_codes lower lower_code
known_chat = (refl, (refl, (refl, (refl, (refl, (refl, (refl, tt)))))))

plain_chat : has_cap (family_caps none) "chat" ≡ true
unfolding family_caps has_cap equal_fold eq_codes lower lower_code
plain_chat = refl

family_chat : (p : Family → Bool) → has_cap (family_caps (find p known_families)) "chat" ≡ true
family_chat p = elim (Option-cases (find p known_families)) [
  | inl e ↦ rw e plain_chat
  | inr (f, e) ↦ rw e (
      All-of_In (λ (f : Family). has_cap (family_caps (some f)) "chat" ≡ true) f known_families
        known_chat (find-eq-some p known_families f e).0)
]

has_cap-first :
    (caps : List String) (c w : String)
    → has_cap caps w ≡ true
    → has_cap (append_cap caps c) w ≡ true
unfolding append_cap
has_cap-first caps c w h = elim (Bool-cases (has_cap caps c)) [
  | inl e ↦ rw e h
  | inr e ↦ rw e (ground (arith, has_cap-append caps c w))
]

sized_chat :
    (e : CatalogEntry) (d : Option Decimal)
    → has_cap e.capabilities "chat" ≡ true
    → has_cap (sized e d).capabilities "chat" ≡ true
unfolding sized
sized_chat e none h = h
sized_chat e (some d) h = elim (Bool-cases (is_below 2 d)) [
  | inl b ↦ rw b (has_cap-first e.capabilities "simple" "chat" h)
  | inr b ↦ elim (Bool-cases (leb d.units (8 * 10 ^ d.places))) [
    | inl c ↦ rw (b, c) h
    | inr c ↦ rw (b, c) h
  ]
]

-- The identity that a row of the catalog names.
abbrev pub named_by : CatalogEntry → Identity
named_by e = record { name = e.name; tag = e.tag; runtime = e.runtime }

sized_identity : (e : CatalogEntry) (d : Option Decimal) → named_by (sized e d) ≡ named_by e
unfolding sized
sized_identity e none = refl
sized_identity e (some d) = elim (Bool-cases (is_below 2 d)) [
  | inl b ↦ rw b refl
  | inr b ↦ elim (Bool-cases (leb d.units (8 * 10 ^ d.places))) [
    | inl c ↦ rw (b, c) refl
    | inr c ↦ rw (b, c) refl
  ]
]

pub entry_chat : (m : Model) → has_cap (entry_for_model m).capabilities "chat" ≡ true
unfolding entry_for_model unsized
entry_chat m =
    sized_chat (unsized m) (parse_param_billions (family_ref m) m.parameter_size)
      (family_chat (λ f. contains_any (family_ref m) f.needles))

entry_identity : (m : Model) → named_by (entry_for_model m) ≡ identity m
unfolding entry_for_model unsized
entry_identity m = sized_identity (unsized m) (parse_param_billions (family_ref m) m.parameter_size)

higher_some :
    (a b : Option Candidate) → (is_some a || is_some b) ≡ true → is_some (higher a b) ≡ true
unfolding higher
higher_some a none h = ground arith
higher_some none (some c) h = refl
higher_some (some b) (some c) h = ground arith

module _ (req : RouteRequest) where
  fallback_nodes_kept :
      (e : CatalogEntry) (best : Option Candidate) (ns : List NodeView)
      → is_some best ≡ true
      → is_some (fallback_nodes req e best ns) ≡ true
  unfolding fallback_nodes
  fallback_nodes_kept e best [] h = h
  fallback_nodes_kept e best (n ∷ ns) h =
      fallback_nodes_kept e (higher best (fallback_pair req e n)) ns
        (higher_some best (fallback_pair req e n) (ground arith))

  fallback_nodes_found :
      (e : CatalogEntry) (best : Option Candidate) (n : NodeView) (ns : List NodeView)
      → is_some (fallback_pair req e n) ≡ true
      → In n ns
      → is_some (fallback_nodes req e best ns) ≡ true
  unfolding fallback_nodes
  fallback_nodes_found e best n [] h i = absurd i
  fallback_nodes_found e best n (k ∷ ns) h i = elim i [
    | inl is_k ↦ fallback_nodes_kept e (higher best (fallback_pair req e k)) ns (
        higher_some best (fallback_pair req e k)
          (ground (arith, subst (λ x. is_some (fallback_pair req e x) ≡ true) (sym is_k) h)))
    | inr j ↦ fallback_nodes_found e (higher best (fallback_pair req e k)) n ns h j
  ]

  abbrev pub passes_over : CatalogEntry → Bool
  passes_over e =
      (req.require_tools && not (entry_supports_tools e))
      || (not (has_cap e.capabilities "chat") && not (has_cap e.capabilities "simple"))

  fallback_kept :
      (es : List CatalogEntry) (best : Option Candidate)
      → is_some best ≡ true
      → is_some (fallback_present req best es) ≡ true
  unfolding fallback_present
  fallback_kept [] best h = h
  fallback_kept (e ∷ es) best h = elim (Bool-cases (passes_over e)) [
    | inl p ↦ rw p (fallback_kept es best h)
    | inr p ↦ rw p (
        fallback_kept es (fallback_nodes req e best req.nodes)
          (fallback_nodes_kept e best req.nodes h))
  ]

  fallback_found :
      (n : NodeView)
      → In n req.nodes
      → (e : CatalogEntry) → passes_over e ≡ false
      → is_some (fallback_pair req e n) ≡ true
      → (es : List CatalogEntry) (best : Option Candidate) → In e es
      → is_some (fallback_present req best es) ≡ true
  unfolding fallback_present
  fallback_found n i e p h [] best k = absurd k
  fallback_found n i e p h (d ∷ es) best (inl is_d) =
      let q = subst (λ x. passes_over x ≡ false) (sym is_d) p in
      let g = subst (λ x. is_some (fallback_pair req x n) ≡ true) (sym is_d) h in
      rw q (
        fallback_kept es (fallback_nodes req d best req.nodes)
          (fallback_nodes_found d best n req.nodes g i))
  fallback_found n i e p h (d ∷ es) best (inr k) = elim (Bool-cases (passes_over d)) [
    | inl q ↦ rw q (fallback_found n i e p h es best k)
    | inr q ↦ rw q (fallback_found n i e p h es (fallback_nodes req d best req.nodes) k)
  ]

In-map : {A B : Type 0} (f : A → B) (a : A) (xs : List A) → In a xs → In (f a) (map f xs)
In-map f a [] i = absurd i
In-map f a (x ∷ xs) i = elim i [ inl e ↦ inl (ap f e) | inr j ↦ inr (In-map f a xs j) ]

decide_some :
    (p : TaskProfile) (cs : List Candidate) (f : Option Candidate)
    → is_visual p.modality ≡ false
    → is_some f ≡ true
    → is_some (decide p cs f).selected ≡ true
unfolding decide
decide_some p (c ∷ cs) f v h = refl
decide_some p [] none v h = cc
decide_some p [] (some f) v h = rw v refl

fallback_pair_some :
    (req : RouteRequest) (e : CatalogEntry) (n : NodeView)
    → node_eligible n.status req.allow_busy ≡ true
    → has_model n.models (named_by e) ≡ true
    → is_some (fallback_pair req e n) ≡ true
unfolding fallback_pair
fallback_pair_some req e n el there = rw (el, there) refl

In-rows :
    (default catalog : List CatalogEntry) (e : CatalogEntry)
    → In e catalog
    → In e (if is_empty catalog then default else catalog)
In-rows default [] e i = absurd i
In-rows default (c ∷ cs) e i = i

-- Over the catalog that is built from an inventory, Route selects something for every prompt that
-- needs no vision and no tools, whatever its complexity, as soon as an eligible node of the request
-- has a model of that inventory.
pub route_inventory :
    (default : List CatalogEntry) (analyzed : TaskProfile) (req : RouteRequest)
    (models : List Model) (m : Model) (n : NodeView)
    → req.catalog ≡ catalog_from_models models
    → req.require_tools ≡ false
    → is_visual (adjusted req analyzed).modality ≡ false
    → In m models
    → In n req.nodes
    → node_eligible n.status req.allow_busy ≡ true
    → has_model n.models (identity m) ≡ true
    → is_some (route default analyzed req).selected ≡ true
unfolding route catalog_from_models
route_inventory default analyzed req models m n rows tools visual im i el there =
    let e = entry_for_model m in
    let chat = entry_chat m in
    let taken : passes_over req e ≡ false = rw (tools, chat) refl in
    let present = fallback_pair_some req e n el (rw (entry_identity m) there) in
    let listed : In e req.catalog = rw rows (In-map entry_for_model m models im) in
    rw visual (
      decide_some (adjusted req analyzed) _ _ visual
        (fallback_found req n i e taken present _ none (In-rows default req.catalog e listed)))
