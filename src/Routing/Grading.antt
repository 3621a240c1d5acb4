-- ===== src/Routing/Grading.antt =====
-- The profiles that Analyze of internal/routing/analyze.go gives, and Route of router.go on a prompt.
use houdry.Prelude.{
  ℕ, ◌≤◌, String, Bool, true, false, not, ◌&&◌, ◌||◌, ◌≡◌, refl, inl, inr, List, [], ◌∷◌, ◌++◌,
  some, arith, ltb, Bool-cases,
}
use houdry.Text.{
  codes, lower, trim_space, equal_fold, equal_fold_refl, eq_codes, lower_code, contains,
}
use houdry.Routing.Scoring.{
  Modality, complexity_rank, is_low, is_code, is_visual, TaskProfile, CatalogEntry, RouteRequest,
  Candidate, has_cap,
}
use houdry.Routing.Choosing.{route, adjusted, for_tools, for_image, Decision}
use houdry.Routing.Gates.{route-IsSuited}
use houdry.Routing.Analysis.{
  points, any_found, append_cap, complexity_for, clamp_score, pipeline, graded, settled, signalled,
  raw_score, code_or_text, weigh, analyze, code_cues, reasoning_cues, is_trivial, asks_for_vision,
  asks_for_document,
}

-- Route, with the profile that it derives from the prompt.
unfoldable pub route_prompt : List CatalogEntry → String → RouteRequest → Decision
route_prompt default prompt req = route default (analyze prompt) req

-- The score is a percentage, the complexity is its tier, and exactly the lowest tier is marked simple.
pub record IsGraded (p : TaskProfile) : Type 0 where
  pub bounded : p.score ≤ 100
  pub tiered : p.complexity ≡ complexity_for p.score
  pub marked : has_cap p.capabilities "simple" ≡ is_low p.complexity

clamp-le : (score : ℕ) → clamp_score score ≤ 100
unfolding clamp_score
clamp-le score = ground arith

pub has_cap-append :
    (caps : List String) (c w : String)
    → has_cap (caps ++ c ∷ []) w ≡ (has_cap caps w || equal_fold c w)
unfolding has_cap
has_cap-append [] c w = ground arith
has_cap-append (d ∷ caps) c w = ground (arith, has_cap-append caps c w)

has_cap-append_cap : (caps : List String) (c : String) → has_cap (append_cap caps c) c ≡ true
unfolding append_cap
has_cap-append_cap caps c = elim (Bool-cases (has_cap caps c)) [
  | inl e ↦ rw e e
  | inr e ↦ rw e (ground (arith, has_cap-append caps c c, equal_fold_refl c))
]

pipeline-IsGraded :
    (m : Modality) (caps : List String) → has_cap caps "simple" ≡ false → IsGraded (pipeline m caps)
unfolding pipeline complexity_for clamp_score
pipeline-IsGraded m caps h = record { bounded = omega arith; tiered = refl; marked = h }

graded-IsGraded :
    (m : Modality) (caps : List String) (score : ℕ)
    → (is_low (complexity_for (clamp_score score)) ≡ false → has_cap caps "simple" ≡ false)
    → IsGraded (graded m caps score)
unfolding graded
graded-IsGraded m caps score h = elim (Bool-cases (is_low (complexity_for (clamp_score score)))) [
  | inl e ↦ record {
    bounded = clamp-le score;
    tiered = refl;
    marked = rw e (has_cap-append_cap caps "simple");
  }
  | inr e ↦ record { bounded = clamp-le score; tiered = refl; marked = rw e (h e) }
]

signalled_plain : (a b : Bool) → has_cap (signalled a b) "simple" ≡ false
unfolding signalled append_cap has_cap equal_fold eq_codes lower lower_code
signalled_plain true true = refl
signalled_plain true false = refl
signalled_plain false true = refl
signalled_plain false false = refl

zero_low : {P : Type 0} → is_low (complexity_for (clamp_score 0)) ≡ false → P
unfolding complexity_for clamp_score
zero_low h = cc

settled-IsGraded :
    (trivial : Bool) (m : Modality) (caps : List String) (score : ℕ)
    → has_cap caps "simple" ≡ false
    → IsGraded (settled trivial m caps score)
unfolding settled
settled-IsGraded true m caps score h =
    graded-IsGraded m (append_cap caps "simple") 0 (λ k. zero_low k)
settled-IsGraded false m caps score h = graded-IsGraded m caps score (λ k. h)

weigh-IsGraded : (words lines : ℕ) (prompt text : List ℕ) → IsGraded (weigh words lines prompt text)
unfolding weigh
weigh-IsGraded words lines prompt text =
    let code = any_found (code_cues prompt text) in
    let reasoning = ltb 0 (points (reasoning_cues words text)) in
    let score = raw_score words lines prompt text in
    settled-IsGraded (is_trivial words text score) (code_or_text code) (signalled code reasoning)
      score (signalled_plain code reasoning)

-- For every prompt, the profile's score is at most 100, its complexity is the tier of its score, and
-- it has the capability `simple` exactly when its complexity is low.
pub analyze-IsGraded : (prompt : String) → IsGraded (analyze prompt)
unfolding analyze has_cap equal_fold eq_codes lower lower_code
analyze-IsGraded prompt =
    let p = codes (trim_space prompt) in
    elim (Bool-cases (asks_for_vision (lower p))) [
      | inl v ↦ rw v (pipeline-IsGraded _ _ refl)
      | inr v ↦ elim (Bool-cases (asks_for_document (lower p))) [
        | inl d ↦ rw (v, d) (pipeline-IsGraded _ _ refl)
        | inr d ↦ rw (v, d) (weigh-IsGraded _ _ p (lower p))
      ]
    ]

fence_points :
    (prompt text : List ℕ)
    → contains prompt (codes "```") ≡ true
    → (25 ≤ points (code_cues prompt text)) × (any_found (code_cues prompt text) ≡ true)
unfolding code_cues points any_found
fence_points prompt text h = rw h ((omega arith, refl))

not_trivial :
    (words : ℕ) (text : List ℕ) (score : ℕ) → 25 ≤ score → is_trivial words text score ≡ false
unfolding is_trivial
not_trivial words text score h = ground arith

clears_medium : (score : ℕ) → 20 ≤ score → 2 ≤ complexity_rank (complexity_for (clamp_score score))
unfolding clamp_score complexity_for complexity_rank
clears_medium score h = ground arith

-- What holds of a profile as code that is not of the lowest complexity.
abbrev IsWork : TaskProfile → Type 0
IsWork p = (is_code p.modality ≡ true) × (2 ≤ complexity_rank p.complexity)

settled-IsWork :
    (trivial : Bool) (code : Bool) (caps : List String) (score : ℕ)
    → trivial ≡ false
    → code ≡ true
    → 20 ≤ score
    → IsWork (settled trivial (code_or_text code) caps score)
unfolding settled graded
settled-IsWork trivial code caps score t c h = rw (t, c) ((refl, clears_medium score h))

weigh-IsWork :
    (words lines : ℕ) (prompt text : List ℕ)
    → contains prompt (codes "```") ≡ true
    → IsWork (weigh words lines prompt text)
unfolding weigh raw_score
weigh-IsWork words lines prompt text fence =
    let (worth, is_found) = fence_points prompt text fence in
    let score = raw_score words lines prompt text in
    let enough : 25 ≤ score = omega (arith, worth) in
    settled-IsWork (is_trivial words text score) (any_found (code_cues prompt text))
      (signalled (any_found (code_cues prompt text)) (ltb 0 (points (reasoning_cues words text))))
      score (not_trivial words text score enough) is_found (omega (arith, enough))

-- A prompt with a code fence that asks neither for vision nor for a document is profiled as code, and
-- never as of the lowest complexity, however short it is and whatever greeting it holds.
pub fenced-IsCode :
    (prompt : String)
    → contains (codes (trim_space prompt)) (codes "```") ≡ true
    → asks_for_vision (lower (codes (trim_space prompt))) ≡ false
    → asks_for_document (lower (codes (trim_space prompt))) ≡ false
    → (is_code (analyze prompt).modality ≡ true) × (2 ≤ complexity_rank (analyze prompt).complexity)
unfolding analyze
fenced-IsCode prompt fence v d =
    let p = codes (trim_space prompt) in rw (v, d) (weigh-IsWork _ _ p (lower p) fence)

adjusted_visual :
    (req : RouteRequest) (p : TaskProfile)
    → is_visual p.modality ≡ true
    → is_visual (adjusted req p).modality ≡ true
unfolding adjusted for_tools for_image
adjusted_visual req p h = ground arith

asks_visual :
    (prompt : String)
    → (asks_for_vision (lower (codes (trim_space prompt)))
        || asks_for_document (lower (codes (trim_space prompt))))
      ≡ true
    → is_visual (analyze prompt).modality ≡ true
unfolding analyze pipeline
asks_visual prompt asks =
    let text = lower (codes (trim_space prompt)) in
    elim (Bool-cases (asks_for_vision text)) [
      | inl v ↦ rw v refl
      | inr v ↦ let d : asks_for_document text ≡ true = ground arith in rw (v, d) refl
    ]

-- For a prompt that asks for vision or for a document, Route selects only an entry that can see,
-- whatever the request says of tools, images and nodes.
pub visual_prompt-sees :
    (default : List CatalogEntry) (prompt : String) (req : RouteRequest) (c : Candidate)
    → (asks_for_vision (lower (codes (trim_space prompt)))
        || asks_for_document (lower (codes (trim_space prompt))))
      ≡ true
    → (route_prompt default prompt req).selected ≡ some c
    → has_cap c.entry.capabilities "vision" ≡ true
unfolding route_prompt
visual_prompt-sees default prompt req c asks h =
    let seen = (route-IsSuited default (analyze prompt) req c h).sees in
    let visual = adjusted_visual req (analyze prompt) (asks_visual prompt asks) in
    seeing _ _ visual seen
  where
    seeing : (a b : Bool) → a ≡ true → (a && not b) ≡ false → b ≡ true
    seeing a b p q = ground arith
