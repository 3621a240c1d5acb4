-- ===== src/Inference/Context/Resolving.antt =====
-- resolveNumCtx and buildOptions of internal/modelruntime/ollama_context.go.
use houdry.Prelude.{
  ℕ, ◌<◌, String, Bool, true, false, ◌≡◌, ◌⊎◌, refl, ap, ◌∙◌, inl, inr, Option, some, ltb, eq_refl,
  Bool-cases, Option-cases, arith,
}
use houdry.Prelude.Int.{ℤ, pos, ltb_ℤ, ◌<ℤ◌, ◌≤ℤ◌}
use houdry.Prelude.Maps.{Map, get, put, get-put}
use houdry.Text.{append}
use houdry.Inference.{InferOptions}
use houdry.Inference.Context.{
  Shown, parse_num_ctx_env, show_context_length, detect, clamp_window, resolve_num_ctx,
  build_options, default_num_ctx_cap,
}

clamp_pos : (b : Bool) (n : ℕ) → 0 < clamp_window b n
unfolding clamp_window
clamp_pos b n = ground arith

resolve_pos :
    (env base ref : String) (answer : Option Shown) (requested : ℤ) (cache : Map ℕ)
    → ltb_ℤ (pos 0) (resolve_num_ctx env base answer ref requested cache).1 ≡ true
unfolding resolve_num_ctx
resolve_pos env base ref answer requested cache = ground (
  arith,
  clamp_pos (parse_num_ctx_env env).1 (detect (append base (append "|" ref)) answer cache).1,
)

-- The three ways in which a window is settled.
abbrev pub IsSettled : ℕ → Bool → ℤ → ℤ → Type 0
IsSettled value uncapped requested n =
    ((pos 0 <ℤ requested) × (n ≡ requested))
    ⊎ (((requested ≤ℤ pos 0) × (0 < value) × (n ≡ pos value))
        ⊎ ((requested ≤ℤ pos 0)
            × (value ≡ 0)
            × ((uncapped ≡ true) ⊎ (n ≤ℤ pos default_num_ctx_cap))))

clamp_le : (b : Bool) (n : ℕ) → (b ≡ true) ⊎ (pos (clamp_window b n) ≤ℤ pos default_num_ctx_cap)
unfolding clamp_window
clamp_le true n = inl refl
clamp_le false n = inr (ground arith)

resolve-IsSettled :
    (env base ref : String) (answer : Option Shown) (requested : ℤ) (cache : Map ℕ)
    → IsSettled
        (parse_num_ctx_env env).0
        (parse_num_ctx_env env).1
        requested
        (resolve_num_ctx env base answer ref requested cache).1
unfolding resolve_num_ctx
resolve-IsSettled env base ref answer requested cache =
    elim (Bool-cases (ltb_ℤ (pos 0) requested)) [
      | inl a ↦ rw a (inl (ground arith, refl))
      | inr a ↦ elim (Bool-cases (ltb 0 (parse_num_ctx_env env).0)) [
        | inl v ↦ rw (a, v) (inr (inl (ground arith, ground arith, refl)))
        | inr v ↦ rw (a, v) (inr (inr (ground arith, ground arith, clamp_le _ _)))
      ]
    ]

-- Every request to the daemon names a positive window: the one that was asked for, where that is
-- positive; else the operator's number, where there is one; and else at most 32768 tokens, unless the
-- operator lifts that cap.
pub build_options_lem :
    (env base ref : String) (answer : Option Shown) (o : InferOptions) (cache : Map ℕ)
    → (n : ℤ) × ((build_options env base answer ref o cache).1.num_ctx ≡ some n)
      × (pos 0 <ℤ n)
      × IsSettled (parse_num_ctx_env env).0 (parse_num_ctx_env env).1 o.num_ctx n
unfolding build_options
build_options_lem env base ref answer o cache =
    let positive = resolve_pos env base ref answer o.num_ctx cache in
    (
      (resolve_num_ctx env base answer ref o.num_ctx cache).1,
      rw positive refl,
      ground arith,
      resolve-IsSettled env base ref answer o.num_ctx cache,
    )

detect_again :
    (key : String) (first second : Option Shown) (cache : Map ℕ)
    → (detect key second (detect key first cache).0).1 ≡ (detect key first cache).1
unfolding detect
detect_again key first second cache = elim (Option-cases (get key cache)) [
  | inr (n, e) ↦ rw (e, detect) (rw e refl)
  | inl e ↦
      let found : get key (put key (show_context_length first) cache)
          ≡ some (show_context_length first) =
        get-put key key (show_context_length first) cache ∙ ground (arith, eq_refl key) in
      rw (e, detect) (rw found refl)
]

-- What was resolved for a reference is kept: resolving it again gives the same window, whatever the
-- daemon answers by then, and also where it gave no answer at first.
pub resolve_again :
    (env base ref : String) (first second : Option Shown) (requested : ℤ) (cache : Map ℕ)
    → (resolve_num_ctx env base second ref requested
        (resolve_num_ctx env base first ref requested cache).0).1
      ≡ (resolve_num_ctx env base first ref requested cache).1
unfolding resolve_num_ctx
resolve_again env base ref first second requested cache =
    elim (Bool-cases (ltb_ℤ (pos 0) requested)) [
      | inl a ↦ rw a refl
      | inr a ↦ elim (Bool-cases (ltb 0 (parse_num_ctx_env env).0)) [
        | inl v ↦ rw (a, v) refl
        | inr v ↦
            rw (a, v)
              (ap (λ n. pos (clamp_window (parse_num_ctx_env env).1 n))
                (detect_again (append base (append "|" ref)) first second cache))
      ]
    ]
