-- ===== src/Server/Planning.antt =====
-- The node and the model that handleChatCompletions of internal/server/openai_chat.go settles on.
use houdry.Prelude.{
  String, Bool, true, false, not, ◌&&◌, ◌≡◌, refl, sym, ap, ◌∙◌, subst, ◌⊎◌, inl, inr, List, [],
  ◌∷◌, Option, none, some, arith, Bool-cases, In, find-eq-some, is_some, map,
}
use houdry.Prelude.Results.{Result, ok, err, Result-cases}
use houdry.Model.{Model, has_model, Identity}
use houdry.Nodes.{Node, node_id, models_of, list}
use houdry.Routing.Scoring.{CatalogEntry, NodeView, Candidate, wanted}
use houdry.Routing.Choosing.{Decision}
use houdry.Routing.Catalog.{default_catalog}
use houdry.Routing.Analysis.{analyze}
use houdry.Routing.Grading.{route_prompt}
use houdry.Routing.Availability.{named_by}
use houdry.Routing.Presence.{route-IsPresent}
use houdry.Routing.Picking.{IsHeld, pick_fitting_model_lem}
use houdry.Server.Certificates.{Server}
use houdry.Server.Views.{view_of, prompt_request, nodes_to_views, route_prompt_opts}
use houdry.Server.Chat.{
  Plan, Refusal, is_gpu_worker, first_gpu_worker, pick_node_model, decide_auto, catalog_min_vram,
  plan_fallback, plan_decided, plan_auto,
}

-- The plan's node is one of the registry's, and lists the plan's model: as the router saw it, in a
-- usable state, under the name, the tag and the runtime of a row of the catalog; or the node is a
-- worker, and its inventory has a row for the model, in any state, that the node's memory holds and
-- that takes tools if they are asked for.
pub record IsListed (catalog : List CatalogEntry) (s : Server) (p : Plan) : Type 0 where
  pub node : Node
  pub listed : In node (list s.store)
  pub same_id : p.node ≡ node_id node
  pub there :
      ((id : Identity) × (id.name ≡ p.model_name)
        × (id.tag ≡ p.model_tag)
        × (has_model (models_of node) id ≡ true))
      ⊎ ((m : Model) × In m (models_of node)
          × (m.name ≡ p.model_name)
          × (m.tag ≡ p.model_tag)
          × IsHeld (view_of node) p.tools catalog m
          × (is_gpu_worker node ≡ true))

In-views :
    (v : NodeView) (ns : List Node) → In v (map view_of ns) → (n : Node) × In n ns × (view_of n ≡ v)
In-views v [] i = absurd i
In-views v (n ∷ ns) (inl e) = (n, inl refl, e)
In-views v (n ∷ ns) (inr i) = let (m, k, e) = In-views v ns i in (m, inr k, e)

view_same : (n : Node) → ((view_of n).node_id ≡ node_id n) × ((view_of n).models ≡ models_of n)
unfolding view_of
view_same n = (refl, refl)

-- The plan for a candidate of the router.
abbrev planned : Bool → Candidate → Plan
planned tools c = record {
  model_name = c.entry.name;
  model_tag = c.entry.tag;
  runtime = c.entry.runtime;
  node = c.node_id;
  min_vram = c.entry.min_vram_bytes;
  tools = tools;
}

routed-IsListed :
    (catalog : List CatalogEntry) (signal : String) (tools kept : Bool) (s : Server) (c : Candidate)
    → (route_prompt_opts catalog signal "" true tools true s).selected ≡ some c
    → IsListed catalog s (planned kept c)
unfolding route_prompt_opts route_prompt prompt_request nodes_to_views
routed-IsListed catalog signal tools kept s c h =
    let req = prompt_request catalog (list s.store) "" true tools true in
    let p = route-IsPresent default_catalog (analyze signal) req c refl h in
    let (n, i, e) = In-views p.node (list s.store) p.listed in
    let (at_id, at_models) = view_same n in
    let id = ap (λ (v : NodeView). v.node_id) (sym e) ∙ at_id in
    let models = ap (λ (v : NodeView). v.models) (sym e) ∙ at_models in
    record {
      node = n;
      listed = i;
      same_id = p.same_id ∙ id;
      there = inl (elim p.there [
        | inl w ↦ (
          wanted c.entry req,
          refl,
          refl,
          subst (λ ms. has_model ms (wanted c.entry req) ≡ true) models w,
        )
        | inr w ↦ (
          named_by c.entry,
          refl,
          refl,
          subst (λ ms. has_model ms (named_by c.entry) ≡ true) models w,
        )
      ]);
    }

auto-IsListed :
    (catalog : List CatalogEntry) (signal : String) (tools kept : Bool) (s : Server) (c : Candidate)
    → (decide_auto catalog signal tools s).0.selected ≡ some c
    → IsListed catalog s (planned kept c)
unfolding decide_auto
auto-IsListed catalog signal tools kept s c h =
    elim (Bool-cases
      (tools && not (is_some (route_prompt_opts catalog signal "" true tools true s).selected))) [
        | inl e ↦ routed-IsListed catalog signal false kept s c (rw e at h)
        | inr e ↦ routed-IsListed catalog signal tools kept s c (rw e at h)
      ]

ok_injective : {a b : Plan} → ◌≡◌ {A = Result Refusal Plan} (ok a) (ok b) → a ≡ b
ok_injective e = cc

-- The plan for a model of a worker.
abbrev picked : List CatalogEntry → Bool → Node → Model → Plan
picked catalog tools n m = record {
  model_name = m.name;
  model_tag = m.tag;
  runtime = "";
  node = node_id n;
  min_vram = catalog_min_vram catalog n m.name m.tag;
  tools = tools;
}

picked-IsListed :
    (catalog : List CatalogEntry) (tools : Bool) (n : Node) (s : Server) (m : Model)
    → In n (list s.store)
    → In m (view_of n).models
    → IsHeld (view_of n) tools catalog m
    → is_gpu_worker n ≡ true
    → IsListed catalog s (picked catalog tools n m)
picked-IsListed catalog tools n s m i k held worker = record {
  node = n;
  listed = i;
  same_id = refl;
  there = inr (m, subst (In m) (view_same n).1 k, refl, refl, held, worker);
}

fallback-IsListed :
    (catalog : List CatalogEntry) (tools : Bool) (n : Node) (s : Server) (p : Plan)
    → In n (list s.store)
    → is_gpu_worker n ≡ true
    → plan_fallback catalog tools (some n) ≡ ok p
    → IsListed catalog s p
unfolding plan_fallback pick_node_model
fallback-IsListed catalog tools n s p i worker h =
    elim (pick_fitting_model_lem (view_of n) tools catalog) [
      | inl (e, _) ↦ absurd (ground arith)
      | inr (m, e, k, held, _) ↦
          let made : plan_fallback catalog tools (some n) ≡ ok (picked catalog tools n m) =
            rw (e, plan_fallback) refl in
          subst (IsListed catalog s) (ok_injective (sym made ∙ h))
            (picked-IsListed catalog tools n s m i k held worker)
    ]

worker-IsListed :
    (catalog : List CatalogEntry) (tools : Bool) (s : Server) (p : Plan) (o : Option Node)
    → first_gpu_worker s ≡ o
    → plan_fallback catalog tools o ≡ ok p
    → IsListed catalog s p
unfolding first_gpu_worker plan_fallback
worker-IsListed catalog tools s p none e h = cc
worker-IsListed catalog tools s p (some n) e h =
    let (i, worker) = find-eq-some is_gpu_worker (list s.store) n e in
    fallback-IsListed catalog tools n s p i worker h

decided-IsListed :
    (catalog : List CatalogEntry) (s : Server) (p : Plan) (d : Decision) (kept : Bool)
    (o : Option Candidate)
    → ((c : Candidate) → o ≡ some c → IsListed catalog s (planned kept c))
    → plan_decided catalog s d kept o ≡ ok p
    → IsListed catalog s p
unfolding plan_decided
decided-IsListed catalog s p d kept none local h = elim (Bool-cases d.deferred) [
  | inl e ↦ absurd (ground arith)
  | inr e ↦ worker-IsListed catalog kept s p (first_gpu_worker s) refl (ground arith)
]
decided-IsListed catalog s p d kept (some c) local h = elim (Bool-cases d.deferred) [
  | inl e ↦ absurd (ground arith)
  | inr e ↦ subst (IsListed catalog s) (ok_injective (ground arith)) (local c refl)
]

auto_plan :
    (catalog : List CatalogEntry) (signal : String) (tools : Bool) (s : Server) (p : Plan)
    → plan_auto catalog signal tools s ≡ ok p
    → IsListed catalog s p
unfolding plan_auto
auto_plan catalog signal tools s p h =
    let x = decide_auto catalog signal tools s in
    decided-IsListed catalog s p x.0 x.1 x.0.selected
      (λ c. auto-IsListed catalog signal tools x.1 s c) h

-- In auto mode a request is refused, or its plan is for a node of the registry that lists the model:
-- present there in a usable state, or on a worker as a row of its inventory, whatever its state, that
-- the node's memory holds and that takes tools if they are asked for.
pub plan_auto-IsListed :
    (catalog : List CatalogEntry) (signal : String) (tools : Bool) (s : Server)
    → ((e : Refusal) × (plan_auto catalog signal tools s ≡ err e))
      ⊎ ((p : Plan) × (plan_auto catalog signal tools s ≡ ok p) × IsListed catalog s p)
plan_auto-IsListed catalog signal tools s = elim (Result-cases (plan_auto catalog signal tools s)) [
  | inl e ↦ inl e
  | inr (p, h) ↦ inr (p, h, auto_plan catalog signal tools s p h)
]
