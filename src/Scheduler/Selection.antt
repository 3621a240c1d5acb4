-- ===== src/Scheduler/Selection.antt =====
-- selectNode of internal/server/scheduler.go and the order of nodes.
use houdry.Prelude.{
  Bool, true, false, ◌≡◌, refl, ◌⊎◌, inl, inr, List, [], ◌∷◌, Option, none, some, arith, str_eq,
  str_lt, eq_iff, ltb, ◌==◌, ◌&&◌, ◌||◌, if◌then◌else◌, Bool-cases, All, In, All-of_In, ap,
}
use houdry.Prelude.TextOrder.{str_lt_trans, str_lt_irrefl}
use houdry.Prelude.Best.{best, IsBest, best-IsBest, keep}
use houdry.Nodes.{Node, node_id}
use houdry.Jobs.{Job}
use houdry.Fitting.{model_score}
use houdry.Scheduler.{Choice, is_candidate, consider, choose, select_node}

-- The order by which one node is taken over another: a higher score, or the smaller id.
unfoldable pub outranks : Job → Node → Node → Bool
outranks j n m =
    ltb (model_score m j.requirements) (model_score n j.requirements)
    || (model_score n j.requirements == model_score m j.requirements
        && str_lt (node_id n) (node_id m))

outranks_irrefl : (j : Job) (n : Node) → outranks j n n ≡ false
unfolding outranks
outranks_irrefl j n = ground (arith, str_lt_irrefl (node_id n))

outranks_trans :
    (j : Job) (n m l : Node) → outranks j n m ≡ true → outranks j m l ≡ true → outranks j n l ≡ true
unfolding outranks
outranks_trans j n m l p q = ground (arith, str_lt_trans (node_id n) (node_id m) (node_id l))

-- Nodes that the registry lists have an id.
abbrev pub IsNamed : Node → Type 0
IsNamed n = str_eq (node_id n) "" ≡ false

abbrev as_choice : Job → Option Node → Choice
as_choice j none = record { best = ""; score = 0 }
as_choice j (some n) = record { best = node_id n; score = model_score n j.requirements }

-- The current choice is one of the nodes, and so has an id.
abbrev Named : Option Node → Type 0
Named none = Unit
Named (some n) = IsNamed n

commute :
    (j : Job) (n c : Node) (b : Bool)
    → (if b then as_choice j (some n) else as_choice j (some c))
      ≡ as_choice j (some (if b then n else c))
commute j n c true = refl
commute j n c false = refl

consider-keep :
    (j : Job) (n : Node) (cur : Option Node)
    → Named cur
    → consider j n (as_choice j cur) ≡ as_choice j (some (keep (is_candidate j) (outranks j) n cur))
unfolding consider outranks
consider-keep j n none h = ground (arith, eq_iff "" "")
consider-keep j n (some c) h = rw h (commute j n c (outranks j n c))

keep-Named :
    (j : Job) (n : Node) (cur : Option Node)
    → IsNamed n
    → Named cur
    → IsNamed (keep (is_candidate j) (outranks j) n cur)
keep-Named j n none p h = p
keep-Named j n (some c) p h = elim (Bool-cases (outranks j n c)) [ inl e ↦ rw e p | inr e ↦ rw e h ]

-- The loop over ids and scores is the loop over nodes.
choose-best :
    (j : Job) (cur : Option Node) (nodes : List Node)
    → Named cur
    → All IsNamed nodes
    → choose j (as_choice j cur) nodes ≡ as_choice j (best (is_candidate j) (outranks j) cur nodes)
unfolding choose best
choose-best j cur [] h a = refl
choose-best j cur (n ∷ ns) h a = elim (Bool-cases (is_candidate j n)) [
  | inl e ↦
      rw (e, consider-keep j n cur h)
        (choose-best j (some (keep (is_candidate j) (outranks j) n cur)) ns
          (keep-Named j n cur a.0 h) a.1)
  | inr e ↦ rw e (choose-best j cur ns h a.1)
]

select-best :
    (j : Job) (nodes : List Node)
    → All IsNamed nodes
    → select_node nodes j ≡ (as_choice j (best (is_candidate j) (outranks j) none nodes)).best
unfolding select_node
select-best j nodes a = ap (λ (c : Choice). c.best) (choose-best j none nodes tt a)

-- Among nodes with ids, selectNode answers no id exactly when no node is a candidate; otherwise it
-- answers the id of a candidate that no candidate outranks, by a higher score or, at the same score,
-- by a smaller id.
pub select_node_lem :
    (j : Job) (nodes : List Node)
    → All IsNamed nodes
    → ((select_node nodes j ≡ "") × All (λ n. is_candidate j n ≡ false) nodes)
      ⊎ ((n : Node) × (select_node nodes j ≡ node_id n)
          × IsNamed n
          × In n nodes
          × (is_candidate j n ≡ true)
          × All (λ m. is_candidate j m ≡ true → outranks j m n ≡ false) nodes)
select_node_lem j nodes a =
    go (best (is_candidate j) (outranks j) none nodes) (select-best j nodes a)
      (best-IsBest (is_candidate j) (outranks j) (outranks_trans j) (outranks_irrefl j) nodes)
  where
    go :
        (r : Option Node)
        → select_node nodes j ≡ (as_choice j r).best
        → IsBest (is_candidate j) (outranks j) nodes r
        → ((select_node nodes j ≡ "") × All (λ n. is_candidate j n ≡ false) nodes)
          ⊎ ((n : Node) × (select_node nodes j ≡ node_id n)
              × IsNamed n
              × In n nodes
              × (is_candidate j n ≡ true)
              × All (λ m. is_candidate j m ≡ true → outranks j m n ≡ false) nodes)
    go none e h = inl (e, h)
    go (some n) e h = inr (n, e, All-of_In IsNamed n nodes a h.0, h.0, h.1, h.2)
