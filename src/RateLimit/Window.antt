-- ===== src/RateLimit/Window.antt =====
-- ipLimiter of internal/server/enroll.go, over the attempts that it accepted.
use houdry.Prelude.{
  ℕ, suc, ◌+◌, ◌-◌, ◌≤◌, String, true, false, ◌&&◌, ◌≡◌, refl, sym, ◌∙◌, ap, inl, inr, List, [],
  ◌∷◌, ◌++◌, arith, if◌then◌else◌, str_eq, eq_iff, Bool-cases, length, length-append, count_if,
  filter, ltb, ◌==◌,
}
use houdry.Prelude.Maps.{get, get-put}
use houdry.RateLimit.{Limiter, hits_of, recent, allow, new_limiter}

-- A minute, in nanoseconds.
abbrev pub minute : ℕ
minute = 60_000_000_000

-- The number of attempts that is allowed.
abbrev pub limit_of : ℕ → ℕ
limit_of max = if max == 0 then 5 else max

-- How many of the accepted attempts an address made in the minute before a time.
abbrev pub counted : String → ℕ → List (String × ℕ) → ℕ
counted ip now [] = 0
counted ip now ((address, time) ∷ log) =
    let earlier = counted ip now log in
    if str_eq address ip && ltb now (time + minute) then suc earlier else earlier

-- The limiter at a time, and the attempts that it accepted so far, the latest first. The clock does
-- not run backwards, and starts a minute after zero at least.
pub data History (max : ℕ) : ℕ → Limiter → List (String × ℕ) → Type 0 where
  begins : {now : ℕ} → minute ≤ now → History max now (new_limiter max) []
  accepts :
      {now : ℕ} {l : Limiter} {log : List (String × ℕ)} (later : ℕ) (ip : String)
      → History max now l log
      → now ≤ later
      → (allow later ip l).1 ≡ true
      → History max later (allow later ip l).0 ((ip, later) ∷ log)
  refuses :
      {now : ℕ} {l : Limiter} {log : List (String × ℕ)} (later : ℕ) (ip : String)
      → History max now l log
      → now ≤ later
      → (allow later ip l).1 ≡ false
      → History max later (allow later ip l).0 log

-- The times within the minute before `now`.
abbrev within : ℕ → List ℕ → ℕ
within now ts = count_if (λ t. ltb now (t + minute)) ts

within-append :
    (now t : ℕ) (ts : List ℕ)
    → within now (ts ++ t ∷ [])
      ≡ (if ltb now (t + minute) then suc (within now ts) else within now ts)
within-append now t [] = ground arith
within-append now t (x ∷ xs) = ground (arith, within-append now t xs)

within-le : (now : ℕ) (ts : List ℕ) → within now ts ≤ length ts
within-le now [] = omega arith
within-le now (t ∷ ts) = ground (arith, within-le now ts)

length-filter :
    (now : ℕ) (ts : List ℕ)
    → minute ≤ now
    → length (filter (λ t. ltb (now - minute) t) ts) ≡ within now ts
length-filter now [] h = refl
length-filter now (t ∷ ts) h = ground (arith, length-filter now ts h)

within-filter :
    (now later : ℕ) (ts : List ℕ)
    → minute ≤ now
    → now ≤ later
    → within later (filter (λ t. ltb (now - minute) t) ts) ≡ within later ts
within-filter now later [] h k = refl
within-filter now later (t ∷ ts) h k = ground (arith, within-filter now later ts h k)

-- What the limiter has on record agrees with the accepted attempts, now and later.
record IsRecorded (max now : ℕ) (l : Limiter) (log : List (String × ℕ)) : Type 0 where
  clock : minute ≤ now
  window : l.window ≡ minute
  allowed : l.max ≡ limit_of max
  counts :
      (ip : String) (later : ℕ) → now ≤ later → within later (hits_of ip l) ≡ counted ip later log
  short : (ip : String) → length (hits_of ip l) ≤ limit_of max

hits-allow :
    (now : ℕ) (ip k : String) (l : Limiter)
    → hits_of k (allow now ip l).0 ≡ (
        if str_eq ip k
        then if (allow now ip l).1 then recent now ip l ++ now ∷ [] else recent now ip l
        else hits_of k l)
unfolding allow hits_of
hits-allow now ip k l = ground (
  arith,
  get-put ip k (recent now ip l) l.hits,
  get-put ip k (recent now ip l ++ now ∷ []) l.hits,
)

settings-allow :
    (now : ℕ) (ip : String) (l : Limiter)
    → ((allow now ip l).0.window ≡ l.window) × ((allow now ip l).0.max ≡ l.max)
unfolding allow
settings-allow now ip l = (ground arith, ground arith)

module _ (max now later : ℕ) (ip : String) (l : Limiter) (log : List (String × ℕ))
    (h : IsRecorded max now l log) (after : now ≤ later) where
  recent-length : length (recent later ip l) ≡ counted ip later log
  unfolding recent
  recent-length =
      rw h.window (length-filter later (hits_of ip l) (omega (arith, h.clock, after)))
      ∙ h.counts ip later after

  recent-within : (end : ℕ) → later ≤ end → within end (recent later ip l) ≡ counted ip end log
  unfolding recent
  recent-within end e =
      rw h.window (within-filter later end (hits_of ip l) (omega (arith, h.clock, after)) e)
      ∙ h.counts ip end (omega (arith, after, e))

  answer : (allow later ip l).1 ≡ ltb (counted ip later log) (limit_of max)
  unfolding allow
  answer = rw (h.allowed, recent-length) (ground arith)

  counted_le : counted ip later log ≤ limit_of max
  counted_le = omega (arith, h.counts ip later after, within-le later (hits_of ip l), h.short ip)

  accepted_counts :
      (k : String) (end : ℕ)
      → later ≤ end
      → (allow later ip l).1 ≡ true
      → within end (hits_of k (allow later ip l).0) ≡ counted k end ((ip, later) ∷ log)
  accepted_counts k end e taken = elim (Bool-cases (str_eq ip k)) [
    | inr apart ↦ rw (hits-allow later ip k l, apart) (h.counts k end (omega (arith, after, e)))
    | inl here ↦
        let same : counted ip end log ≡ counted k end log =
          ap (λ x. counted x end log) ((eq_iff ip k).0 here) in
        rw (hits-allow later ip k l, here, taken, within-append end later (recent later ip l))
          (rw (recent-within end e ∙ same) refl)
  ]

  refused_counts :
      (k : String) (end : ℕ)
      → later ≤ end
      → (allow later ip l).1 ≡ false
      → within end (hits_of k (allow later ip l).0) ≡ counted k end log
  refused_counts k end e denied = elim (Bool-cases (str_eq ip k)) [
    | inr apart ↦ rw (hits-allow later ip k l, apart) (h.counts k end (omega (arith, after, e)))
    | inl here ↦
        rw (hits-allow later ip k l, here, denied)
          (recent-within end e ∙ ap (λ x. counted x end log) ((eq_iff ip k).0 here))
  ]

  short_after : (k : String) → length (hits_of k (allow later ip l).0) ≤ limit_of max
  short_after k = elim (Bool-cases (str_eq ip k)) [
    | inr apart ↦ rw (hits-allow later ip k l, apart) (h.short k)
    | inl here ↦ elim (Bool-cases (allow later ip l).1) [
      | inl taken ↦
          let room : ltb (counted ip later log) (limit_of max) ≡ true = sym answer ∙ taken in
          rw (hits-allow later ip k l, here, taken, length-append (recent later ip l) (later ∷ []))
            (ground (arith, recent-length, room))
      | inr denied ↦
          rw (hits-allow later ip k l, here, denied) (omega (arith, recent-length, counted_le))
    ]
  ]

History-IsRecorded :
    (max now : ℕ) (l : Limiter) (log : List (String × ℕ))
    → History max now l log
    → IsRecorded max now l log
unfolding new_limiter hits_of get
History-IsRecorded max now l log (begins start) = record {
  clock = start;
  window = refl;
  allowed = refl;
  counts = λ ip later k. refl;
  short = λ ip. omega arith;
}
History-IsRecorded max now l log
      (accepts {now = before} {l = m} {log = past} later ip past_history k taken) =
    let h = History-IsRecorded max before m past past_history in
    record {
      clock = omega (arith, h.clock, k);
      window = (settings-allow later ip m).0 ∙ h.window;
      allowed = (settings-allow later ip m).1 ∙ h.allowed;
      counts = λ a end e. accepted_counts max before later ip m past h k a end e taken;
      short = short_after max before later ip m past h k;
    }
History-IsRecorded max now l log
      (refuses {now = before} {l = m} {log = past} later ip past_history k denied) =
    let h = History-IsRecorded max before m past past_history in
    record {
      clock = omega (arith, h.clock, k);
      window = (settings-allow later ip m).0 ∙ h.window;
      allowed = (settings-allow later ip m).1 ∙ h.allowed;
      counts = λ a end e. refused_counts max before later ip m past h k a end e denied;
      short = short_after max before later ip m past h k;
    }

-- After any history of attempts, of a limiter that allows a number of them (5 if that is 0) and on a
-- clock that does not run backwards and starts a minute after zero at least, an attempt is accepted
-- exactly if fewer than that number were accepted from its address in the minute before; that many
-- are never exceeded, and no more times than that are on record for the address.
pub allow_lem :
    (max now later : ℕ) (ip : String) (l : Limiter) (log : List (String × ℕ))
    → History max now l log
    → now ≤ later
    → ((allow later ip l).1 ≡ ltb (counted ip later log) (limit_of max))
      × (counted ip later log ≤ limit_of max)
      × (length (hits_of ip (allow later ip l).0) ≤ limit_of max)
allow_lem max now later ip l log history k =
    let h = History-IsRecorded max now l log history in
    (
      answer max now later ip l log h k,
      counted_le max now later ip l log h k,
      short_after max now later ip l log h k ip,
    )
