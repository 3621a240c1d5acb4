-- ===== src/Enrollment/Spending.antt =====
-- The uses of tokens in internal/enrollment/store.go, over single calls of Consume and over histories.
use houdry.Prelude.{
  ℕ, ◌+◌, ◌≤◌, ◌<◌, String, ◌≡◌, refl, ◌∙◌, sym, subst, ◌⊎◌, inl, inr, List, [], ◌∷◌, Option, none,
  some, arith, str_eq, eq_iff, ltb, ◌==◌, Bool-cases, Option-cases, In,
}
use houdry.Enrollment.{
  Record, Store, ConsumeError, unsaved, load, save, spent, refusal, Outcome, accepted, refused,
  settle, behind, spend, conclude, finish, consume,
}

-- The uses that are left on all records.
unfoldable pub total_uses : List Record → ℕ
total_uses [] = 0
total_uses (r ∷ rs) = r.uses + total_uses rs

-- What an accepted use has done: one use fewer in all, taken from a record of the token's hash that
-- had not expired and had a use left.
abbrev Spends : ℕ → String → List Record → Outcome → Type 0
Spends now want rs (refused e) = Unit
Spends now want rs (accepted ss) =
    (total_uses ss + 1 ≡ total_uses rs)
    × ((r : Record) × In r rs × (r.token_hash ≡ want) × (now ≤ r.expires) × (0 < r.uses))

settle-Spends :
    (now : ℕ) (want node : String) (r : Record) (rs : List Record)
    → r.token_hash ≡ want
    → Spends now want (r ∷ rs) (settle now node r rs (refusal now r))
unfolding settle refusal spent total_uses
settle-Spends now want node r rs h = elim (Bool-cases (ltb r.expires now)) [
  | inl e ↦ rw e tt
  | inr e ↦ elim (Bool-cases (r.uses == 0)) [
    | inl z ↦ rw (e, z) tt
    | inr z ↦ simp (e, z) ((ground arith, (r, inl refl, h, ground arith, ground arith)))
  ]
]

behind-Spends :
    (now : ℕ) (want : String) (r : Record) (rs : List Record) (o : Outcome)
    → Spends now want rs o
    → Spends now want (r ∷ rs) (behind r o)
unfolding behind total_uses
behind-Spends now want r rs (refused e) h = tt
behind-Spends now want r rs (accepted ss) h =
    let (k, i, p, q, u) = h.1 in (omega (arith, h.0), (k, inr i, p, q, u))

spend-Spends :
    (now : ℕ) (want node : String) (rs : List Record) → Spends now want rs (spend now want node rs)
unfolding spend
spend-Spends now want node [] = tt
spend-Spends now want node (r ∷ rs) = elim (Bool-cases (str_eq r.token_hash want)) [
  | inl e ↦ rw e (settle-Spends now want node r rs ((eq_iff r.token_hash want).0 e))
  | inr e ↦
      rw e (behind-Spends now want r rs (spend now want node rs) (spend-Spends now want node rs))
]

-- The uses that the next operation will find.
unfoldable pub left : Store → ℕ
left s = total_uses (load s).records

-- 1 for an answer without an error.
abbrev pub success : Option ConsumeError → ℕ
success none = 1
success (some e) = 0

loaded_form : (s : Store) → ((load s).disk ≡ none) ⊎ ((load s).disk ≡ some (load s).records)
unfolding load
loaded_form s = elim (Option-cases s.disk) [
  | inl e ↦ rw (e, load) (inl e)
  | inr (rs, e) ↦ rw (e, load) (inr e)
]

left_total : (s : Store) → left s ≡ total_uses (load s).records
unfolding left
left_total s = refl

left_unread : (t : Store) → t.disk ≡ none → left t ≡ total_uses t.records
unfolding left load
left_unread t e = ground arith

left_read : (t : Store) (rs : List Record) → t.disk ≡ some rs → left t ≡ total_uses rs
unfolding left load
left_read t rs e = ground arith

left-load : (s : Store) → left (load s) ≡ left s
left-load s = elim (loaded_form s) [
  | inl e ↦ left_unread (load s) e ∙ sym (left_total s)
  | inr e ↦ left_read (load s) (load s).records e ∙ sym (left_total s)
]

conclude_cases :
    (t : Store)
    → (conclude (save t) ≡ (record t { disk = some t.records }, none))
      ⊎ (conclude (save t) ≡ (t, some unsaved))
unfolding conclude save
conclude_cases t = elim (Bool-cases t.writable) [
  | inl e ↦ inl (simp e refl)
  | inr e ↦ inr (simp e refl)
]

module _ (now : ℕ) (want : String) (s : Store) where
  -- What an accepted use is known to come from.
  abbrev pub Valid : Type 0
  Valid =
      (r : Record) × In r (load s).records
      × (r.token_hash ≡ want)
      × (now ≤ r.expires)
      × (0 < r.uses)

  abbrev Accounted : Store × Option ConsumeError → Type 0
  Accounted (t, e) = (left t + success e ≤ left s) × (e ≡ none → (left t + 1 ≡ left s) × Valid)

  abbrev written : List Record → Store
  written ss = record (load s) { records = ss }

  saved :
      (ss : List Record)
      → Spends now want (load s).records (accepted ss)
      → Accounted (record (written ss) { disk = some ss }, none)
  saved ss h =
      let now_left = left_read (record (written ss) { disk = some ss }) ss refl in
      (
        omega (arith, h.0, now_left, left_total s),
        λ _. (omega (arith, h.0, now_left, left_total s), h.1),
      )

  unwritten :
      (ss : List Record)
      → Spends now want (load s).records (accepted ss)
      → left (written ss) + 0 ≤ left s
  unwritten ss h = elim (loaded_form s) [
    | inl e ↦ omega (arith, h.0, left_unread (written ss) e, left_total s)
    | inr e ↦ omega (arith, left_read (written ss) (load s).records e, left_total s)
  ]

  finish-Accounted :
      (o : Outcome) → Spends now want (load s).records o → Accounted (finish (load s) o)
  unfolding finish
  finish-Accounted (refused e) h = (omega (arith, left-load s), λ e. cc)
  finish-Accounted (accepted ss) h = elim (conclude_cases (written ss)) [
    | inl e ↦ subst Accounted (sym e) (saved ss h)
    | inr e ↦ subst Accounted (sym e) (unwritten ss h, λ p. cc)
  ]

module _ (hash : String → String) where
  -- A use that is accepted comes from a record of the token's hash that has not expired and has a use
  -- left, and takes one use; no other answer adds a use.
  consume_lem :
      (now : ℕ) (token node : String) (s : Store)
      → Accounted now (hash token) s (consume hash now token node s)
  unfolding consume
  consume_lem now token node s = elim (Bool-cases (str_eq token "")) [
    | inl e ↦ rw e ((omega arith, λ p. cc))
    | inr e ↦ rw e (
        finish-Accounted now (hash token) s (spend now (hash token) node (load s).records)
          (spend-Spends now (hash token) node (load s).records))
  ]

  -- When a use is accepted, some record of the token's hash had not expired and had a use left, and
  -- the uses that the next operation finds are one fewer.
  pub consume-accepted :
      (now : ℕ) (token node : String) (s : Store)
      → (consume hash now token node s).1 ≡ none
      → (left (consume hash now token node s).0 + 1 ≡ left s) × Valid now (hash token) s
  consume-accepted now token node s h = (consume_lem now token node s).1 h

  -- A history of attempts, each with its time, token and node, and how many of them were accepted.
  unfoldable pub attempts : Store → List (ℕ × String × String) → Store × ℕ
  attempts s [] = (s, 0)
  attempts s ((now, token, node) ∷ rest) =
      let (t, e) = consume hash now token node s in
      let (u, n) = attempts t rest in (u, success e + n)

  -- Over any history of attempts, with any tokens, at most as many are accepted as there were uses on
  -- record at its beginning, and what remains is accounted for.
  pub attempts_bounded :
      (s : Store) (history : List (ℕ × String × String))
      → left (attempts s history).0 + (attempts s history).1 ≤ left s
  unfolding attempts
  attempts_bounded s [] = omega arith
  attempts_bounded s ((now, token, node) ∷ rest) = omega (
    arith,
    (consume_lem now token node s).0,
    attempts_bounded (consume hash now token node s).0 rest,
  )
