-- ===== src/Routing/Picking.antt =====
-- PickFittingModel of internal/routing/router.go.
use houdry.Prelude.{
  ℕ, ◌≤◌, Bool, true, false, not, ◌&&◌, ◌≡◌, refl, ◌⊎◌, inl, inr, List, [], ◌∷◌, Option, none, some,
  arith, str_eq, if◌then◌else◌, is_empty, Bool-cases, All, All-weaken, In,
}
use houdry.Prelude.Best.{best, IsBest, best-IsBest, keep}
use houdry.Text.{trim_space}
use houdry.Model.{Model}
use houdry.Routing.Scoring.{CatalogEntry, NodeView, known_vram, entry_supports_tools}
use houdry.Routing.Catalog.{
  default_catalog, row_for, need_of, size_of, is_pickable, is_smaller, smaller, pick,
  pick_fitting_model,
}

-- The catalog that the choice reads.
abbrev pub rows : List CatalogEntry → List CatalogEntry
rows catalog = if is_empty catalog then default_catalog else catalog

module _ (catalog : List CatalogEntry) (tools : Bool) (avail : ℕ) where
  abbrev test : Model → Bool
  test = is_pickable catalog tools avail

  is_smaller_irrefl : (m : Model) → is_smaller catalog m m ≡ false
  unfolding is_smaller
  is_smaller_irrefl m = ground arith

  is_smaller_trans :
      (m b c : Model)
      → is_smaller catalog m b ≡ true
      → is_smaller catalog b c ≡ true
      → is_smaller catalog m c ≡ true
  unfolding is_smaller
  is_smaller_trans m b c p q = ground arith

  smaller-keep :
      (m : Model) (cur : Option Model)
      → smaller catalog m cur ≡ keep test (is_smaller catalog) m cur
  unfolding smaller
  smaller-keep m none = refl
  smaller-keep m (some b) = refl

  pick-best :
      (cur : Option Model) (ms : List Model)
      → pick catalog tools avail cur ms ≡ best test (is_smaller catalog) cur ms
  unfolding pick best
  pick-best cur [] = refl
  pick-best cur (m ∷ ms) = elim (Bool-cases (is_pickable catalog tools avail m)) [
    | inl e ↦
        rw (e, smaller-keep m cur) (pick-best (some (keep test (is_smaller catalog) m cur)) ms)
    | inr e ↦ rw e (pick-best cur ms)
  ]

-- The node's memory is unknown, or it holds the model and what its row of the catalog asks for; and
-- the row takes tools if they are asked for.
pub record IsHeld (n : NodeView) (tools : Bool) (catalog : List CatalogEntry) (m : Model)
    : Type 0 where
  pub named : str_eq (trim_space m.name) "" ≡ false
  pub held :
      (known_vram n ≡ 0)
      ⊎ ((m.size_bytes ≤ known_vram n) × (need_of (rows catalog) m ≤ known_vram n))
  pub able : (tools && not (entry_supports_tools (row_for (rows catalog) m))) ≡ false

pickable-IsHeld :
    (n : NodeView) (tools : Bool) (catalog : List CatalogEntry) (m : Model)
    → is_pickable (rows catalog) tools (known_vram n) m ≡ true
    → IsHeld n tools catalog m
unfolding is_pickable
pickable-IsHeld n tools catalog m h = record {
  named = ground arith;
  held = ground arith;
  able = ground arith;
}

not_smaller :
    (catalog : List CatalogEntry) (b m : Model)
    → is_smaller catalog b m ≡ false
    → size_of catalog m ≤ size_of catalog b
unfolding is_smaller
not_smaller catalog b m h = ground arith

-- PickFittingModel answers nothing exactly when every model of the node is passed over; otherwise it
-- answers a model of the node that is held, and every model that is not passed over is at least as
-- large.
pub pick_fitting_model_lem :
    (n : NodeView) (tools : Bool) (catalog : List CatalogEntry)
    → ((pick_fitting_model n tools catalog ≡ none)
        × All (λ m. is_pickable (rows catalog) tools (known_vram n) m ≡ false) n.models)
      ⊎ ((m : Model) × (pick_fitting_model n tools catalog ≡ some m)
          × In m n.models
          × IsHeld n tools catalog m
          × All
              (λ b.
                is_pickable (rows catalog) tools (known_vram n) b ≡ true
                → size_of (rows catalog) m ≤ size_of (rows catalog) b)
              n.models)
unfolding pick_fitting_model
pick_fitting_model_lem n tools catalog =
    go
      (best (is_pickable (rows catalog) tools (known_vram n)) (is_smaller (rows catalog)) none
        n.models)
      (pick-best (rows catalog) tools (known_vram n) none n.models)
      (best-IsBest (is_pickable (rows catalog) tools (known_vram n)) (is_smaller (rows catalog))
        (is_smaller_trans (rows catalog) tools (known_vram n))
        (is_smaller_irrefl (rows catalog) tools (known_vram n)) n.models)
  where
    go :
        (r : Option Model)
        → pick (rows catalog) tools (known_vram n) none n.models ≡ r
        → IsBest
            (is_pickable (rows catalog) tools (known_vram n))
            (is_smaller (rows catalog))
            n.models
            r
        → ((pick (rows catalog) tools (known_vram n) none n.models ≡ none)
            × All (λ m. is_pickable (rows catalog) tools (known_vram n) m ≡ false) n.models)
          ⊎ ((m : Model) × (pick (rows catalog) tools (known_vram n) none n.models ≡ some m)
              × In m n.models
              × IsHeld n tools catalog m
              × All
                  (λ b.
                    is_pickable (rows catalog) tools (known_vram n) b ≡ true
                    → size_of (rows catalog) m ≤ size_of (rows catalog) b)
                  n.models)
    go none e h = inl (e, h)
    go (some m) e h = inr (
      m,
      e,
      h.0,
      pickable-IsHeld n tools catalog m h.1,
      All-weaken _ _ n.models (λ b k p. not_smaller (rows catalog) b m (k p)) h.2,
    )
