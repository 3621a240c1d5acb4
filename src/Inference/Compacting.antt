-- ===== src/Inference/Compacting.antt =====
-- compactSlowInference of internal/modelruntime/compact.go.
use houdry.Prelude.{
  ℕ, suc, zero, ◌+◌, ◌≤◌, ◌<◌, String, Bool, true, false, ◌≡◌, ◌≢◌, refl, sym, ap, ◌∙◌, inl, inr,
  List, [], ◌∷◌, none, ltb, if◌then◌else◌, Bool-cases, ltb→lt, map, All, arith,
}
use houdry.Prelude.Int.{ℤ, pos, negsuc, ◌≤ℤ◌}
use houdry.Text.{append, codes, lower, lower_code, eq_codes, eq_codes_iff, equal_fold}
use houdry.Inference.{ChatMessage, InferRequest}
use houdry.Inference.Compact.{
  text_length, text_take, system_chars, slow_num_ctx, cut_note, cut, cut_message, last_user_text,
  keep_tools_on_slow_runtime, slow_ctx, compact_to, compact_slow_inference,
}

length-append : (s t : String) → text_length (append s t) ≡ text_length s + text_length t
length-append String.[] t = omega arith
length-append (String.◌∷◌ c s) t = omega (arith, length-append s t)

length-take : (n : ℕ) (s : String) → n < text_length s → text_length (text_take n s) ≡ n
length-take n String.[] h = absurd (omega (arith, h))
length-take zero (String.◌∷◌ c s) h = refl
length-take (suc n) (String.◌∷◌ c s) h = omega (arith, length-take n s (omega (arith, h)))

take-append :
    (n : ℕ) (s t : String)
    → n < text_length s
    → text_take n (append (text_take n s) t) ≡ text_take n s
take-append n String.[] t h = absurd (omega (arith, h))
take-append zero (String.◌∷◌ c s) String.[] h = refl
take-append zero (String.◌∷◌ c s) (String.◌∷◌ d t) h = refl
take-append (suc n) (String.◌∷◌ c s) t h = ap (String.◌∷◌ c) (take-append n s t (omega (arith, h)))

note_length : text_length cut_note ≡ 36
note_length = refl

cut-le : (n : ℕ) (s : String) → text_length (cut n s) ≤ n + 36
unfolding cut
cut-le n s = elim (Bool-cases (ltb n (text_length s))) [
  | inl e ↦ rw e (
      omega (
        arith,
        length-append (text_take n s) cut_note,
        length-take n s (ltb→lt n _ e),
        note_length,
      ))
  | inr e ↦ rw e (ground arith)
]

cut_long : (n : ℕ) (s : String) → n < text_length s → cut n s ≡ append (text_take n s) cut_note
unfolding cut
cut_long n s h = let e : ltb n (text_length s) ≡ true = ground arith in rw e refl

cut_short : (n : ℕ) (s : String) → ltb n (text_length s) ≡ false → cut n s ≡ s
unfolding cut
cut_short n s e = rw e refl

cut_idem : (n : ℕ) (s : String) → cut n (cut n s) ≡ cut n s
cut_idem n s = elim (Bool-cases (ltb n (text_length s))) [
  | inr e ↦ ap (cut n) (cut_short n s e)
  | inl e ↦
      let h = ltb→lt n (text_length s) e in
      let long : n < text_length (append (text_take n s) cut_note) =
        omega (arith, length-append (text_take n s) cut_note, length-take n s h, note_length) in
      ap (cut n) (cut_long n s h)
      ∙ cut_long n (append (text_take n s) cut_note) long
      ∙ ap (λ t. append t cut_note) (take-append n s cut_note h)
      ∙ sym (cut_long n s h)
]

cut_message_idem : (n : ℕ) (m : ChatMessage) → cut_message n (cut_message n m) ≡ cut_message n m
unfolding cut_message
cut_message_idem n m = elim (Bool-cases (equal_fold m.role "system")) [
  | inr e ↦ rw e refl
  | inl e ↦ rw e (ap (λ t. record m { content = t }) (cut_idem n m.content))
]

map_idem :
    (n : ℕ) (ms : List ChatMessage)
    → map (cut_message n) (map (cut_message n) ms) ≡ map (cut_message n) ms
map_idem n [] = refl
map_idem n (m ∷ ms) = cc (cut_message_idem n m, map_idem n ms)

slow_ctx_idem : (c : ℤ) → slow_ctx (slow_ctx c) ≡ slow_ctx c
unfolding slow_ctx
slow_ctx_idem (pos c) = ground arith
slow_ctx_idem (negsuc c) = ground arith

compact_to_idem : (n : ℕ) (req : InferRequest) → compact_to n (compact_to n req) ≡ compact_to n req
unfolding compact_to
compact_to_idem n req =
    rw (map_idem n req.messages, cut_idem n req.prompt, slow_ctx_idem req.options.num_ctx)
      (twice (
        keep_tools_on_slow_runtime (last_user_text (map (cut_message n) req.messages))
          (cut n req.prompt)))
  where
    twice :
        (b : Bool)
        → record (compact_to n req) {
          tools = if b then (if b then req.tools else []) else [];
          tool_choice = if b then (if b then req.tool_choice else none) else none;
        }
          ≡ record (compact_to n req) {
            tools = if b then req.tools else [];
            tool_choice = if b then req.tool_choice else none;
          }
    twice true = refl
    twice false = refl

roles_apart : (r : String) → equal_fold r "user" ≡ true → equal_fold r "system" ≡ false
unfolding equal_fold lower lower_code eq_codes
roles_apart r h = elim (Bool-cases (equal_fold r "system")) [
  | inr e ↦ e
  | inl e ↦ absurd (
      words_apart (
        sym ((eq_codes_iff (lower (codes r)) (lower (codes "user"))).0 h)
        ∙ (eq_codes_iff (lower (codes r)) (lower (codes "system"))).0 e))
]
  where
    words_apart : lower (codes "user") ≢ lower (codes "system")
    words_apart e = ground (arith, e)

user_kept :
    (n : ℕ) (ms : List ChatMessage) → last_user_text (map (cut_message n) ms) ≡ last_user_text ms
unfolding last_user_text cut_message
user_kept n [] = refl
user_kept n (m ∷ ms) = elim (Bool-cases (equal_fold m.role "user")) [
  | inl u ↦ rw (user_kept n ms, roles_apart m.role u) refl
  | inr u ↦ rw (user_kept n ms, u) refl
]

systems_short :
    (n : ℕ) (ms : List ChatMessage)
    → All
        (λ (m : ChatMessage). equal_fold m.role "system" ≡ true → text_length m.content ≤ n + 36)
        (map (cut_message n) ms)
unfolding cut_message
systems_short n [] = tt
systems_short n (m ∷ ms) = (λ e. rw e (cut-le n m.content), systems_short n ms)

-- What a compacted request promises.
pub record IsCompact (req out : InferRequest) : Type 0 where
  pub prompt : text_length out.prompt ≤ system_chars + 36
  pub systems :
      All
        (λ (m : ChatMessage).
          equal_fold m.role "system" ≡ true → text_length m.content ≤ system_chars + 36)
        out.messages
  pub window : (pos 1 ≤ℤ out.options.num_ctx) × (out.options.num_ctx ≤ℤ pos slow_num_ctx)
  pub user : last_user_text out.messages ≡ last_user_text req.messages

slow_ctx_bounds : (c : ℤ) → (pos 1 ≤ℤ slow_ctx c) × (slow_ctx c ≤ℤ pos slow_num_ctx)
unfolding slow_ctx
slow_ctx_bounds (pos c) = (ground arith, ground arith)
slow_ctx_bounds (negsuc c) = (ground arith, ground arith)

-- A compacted request has at most 4000 characters and the note as its prompt and in each system
-- message, a context window of 1 to 4096 tokens, and the last text of the user that it had.
pub compact_slow_inference-IsCompact :
    (req : InferRequest) → IsCompact req (compact_slow_inference req)
unfolding compact_slow_inference compact_to
compact_slow_inference-IsCompact req = record {
  prompt = cut-le system_chars req.prompt;
  systems = systems_short system_chars req.messages;
  window = slow_ctx_bounds req.options.num_ctx;
  user = user_kept system_chars req.messages;
}

-- Compacting twice is compacting once.
pub compact_idem :
    (req : InferRequest)
    → compact_slow_inference (compact_slow_inference req) ≡ compact_slow_inference req
unfolding compact_slow_inference
compact_idem req = compact_to_idem system_chars req
