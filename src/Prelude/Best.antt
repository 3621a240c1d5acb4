-- ===== src/Prelude/Best.antt =====
-- The loop that keeps the best of the entries that pass a test, the first of equals.
use mathlib.Core.Path.{◌≡◌, refl}
use mathlib.Core.Bool.{Bool, true, false}
use mathlib.Core.Option.{Option, none, some}
use mathlib.Core.Logic.{◌⊎◌, inl, inr}
use mathlib.Core.List.{List, [], ◌∷◌}
use houdry.Prelude.Tests.{if◌then◌else◌, Bool-cases}
use houdry.Prelude.Lists.{All, In}

module _ {A : Type 0} (test : A → Bool) (better : A → A → Bool) where
  abbrev pub keep : A → Option A → A
  keep x none = x
  keep x (some c) = if better x c then x else c

  unfoldable pub best : Option A → List A → Option A
  best cur [] = cur
  best cur (x ∷ xs) = best (if test x then some (keep x cur) else cur) xs

  -- A choice that passes the test and that no entry which passes it beats.
  abbrev pub IsBest : List A → Option A → Type 0
  IsBest xs none = All (λ x. test x ≡ false) xs
  IsBest xs (some c) = In c xs × (test c ≡ true) × All (λ x. test x ≡ true → better x c ≡ false) xs

  -- The same, from a choice made before.
  abbrev From : A → List A → Option A → Type 0
  From b xs none = ⊥
  From b xs (some c) =
      ((In c xs × (test c ≡ true)) ⊎ (b ≡ c))
      × ((b ≡ c) ⊎ (better c b ≡ true))
      × All (λ x. test x ≡ true → better x c ≡ false) xs

  module _ (trans : (x y z : A) → better x y ≡ true → better y z ≡ true → better x z ≡ true)
      (irrefl : (x : A) → better x x ≡ false) where
    -- What loses to `b` loses to whatever is chosen after `b`.
    still_loses :
        (x b c : A) → better x b ≡ false → (b ≡ c) ⊎ (better c b ≡ true) → better x c ≡ false
    still_loses x b c p (inl e) = rw e at p
    still_loses x b c p (inr q) = elim (Bool-cases (better x c)) [
      | inl t ↦ cc (trans x c b t q)
      | inr t ↦ t
    ]

    not_beaten : (b c : A) → (b ≡ c) ⊎ (better c b ≡ true) → better b c ≡ false
    not_beaten b c h = still_loses b b c (irrefl b) h

    after_better :
        (x b c : A)
        → better x b ≡ true
        → (x ≡ c) ⊎ (better c x ≡ true)
        → (b ≡ c) ⊎ (better c b ≡ true)
    after_better x b c p (inl e) = inr (rw e at p)
    after_better x b c p (inr q) = inr (trans c x b q p)

    taken :
        (x b : A) (xs : List A) (r : Option A)
        → test x ≡ true
        → better x b ≡ true
        → From x xs r
        → From b (x ∷ xs) r
    taken x b xs none e p h = h
    taken x b xs (some c) e p h = (
      inl (elim h.0 [ inl i ↦ (inr i.0, i.1) | inr q ↦ (inl q, rw q at e) ]),
      after_better x b c p h.1,
      ((λ _. not_beaten x c h.1), h.2),
    )

    left :
        (x b : A) (xs : List A) (r : Option A)
        → (test x ≡ true → better x b ≡ false)
        → From b xs r
        → From b (x ∷ xs) r
    left x b xs none p h = h
    left x b xs (some c) p h = (
      elim h.0 [ inl i ↦ inl (inr i.0, i.1) | inr q ↦ inr q ],
      h.1,
      ((λ t. still_loses x b c (p t) h.1), h.2),
    )

    from : (b : A) (xs : List A) → From b xs (best (some b) xs)
    unfolding best
    from b [] = (inr refl, inl refl, tt)
    from b (x ∷ xs) = elim (Bool-cases (test x)) [
      | inl e ↦ elim (Bool-cases (better x b)) [
        | inl p ↦ rw (e, p) (taken x b xs _ e p (from x xs))
        | inr p ↦ rw (e, p) (left x b xs _ (λ _. p) (from b xs))
      ]
      | inr e ↦ rw e (left x b xs _ (λ t. cc) (from b xs))
    ]

    first : (x : A) (xs : List A) (r : Option A) → test x ≡ true → From x xs r → IsBest (x ∷ xs) r
    first x xs none e h = absurd h
    first x xs (some c) e h = (
      elim h.0 [ inl i ↦ inr i.0 | inr q ↦ inl q ],
      elim h.0 [ inl i ↦ i.1 | inr q ↦ rw q at e ],
      ((λ _. not_beaten x c h.1), h.2),
    )

    skipped :
        (x : A) (xs : List A) (r : Option A) → test x ≡ false → IsBest xs r → IsBest (x ∷ xs) r
    skipped x xs none e h = (e, h)
    skipped x xs (some c) e h = (inr h.0, h.1, ((λ t. cc), h.2))

    -- For a transitive and irreflexive order the loop finds an entry that none beats, and finds one
    -- as soon as an entry passes the test.
    pub best-IsBest : (xs : List A) → IsBest xs (best none xs)
    unfolding best
    best-IsBest [] = tt
    best-IsBest (x ∷ xs) = elim (Bool-cases (test x)) [
      | inl e ↦ rw e (first x xs _ e (from x xs))
      | inr e ↦ rw e (skipped x xs _ e (best-IsBest xs))
    ]
