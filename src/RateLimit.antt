-- ===== src/RateLimit.antt =====
-- ipLimiter of internal/server/enroll.go: at most `max` enrolment attempts an address and minute.
pub mod Window
use houdry.Prelude.{
  ℕ, ◌-◌, String, Bool, true, false, List, [], ◌∷◌, ◌++◌, Option, none, some, if◌then◌else◌, filter,
  length, ltb, leb, ◌==◌,
}
use houdry.Prelude.Maps.{Map, get, put}

-- Times of accepted attempts by address, oldest first; times are numbers of nanoseconds.
pub record Limiter : Type 0 where
  pub hits : Map (List ℕ)
  pub max : ℕ
  pub window : ℕ

-- newIPLimiter; a count that is not positive is 0 here.
unfoldable pub new_limiter : ℕ → Limiter
new_limiter max = record { hits = []; max = if max == 0 then 5 else max; window = 60_000_000_000 }

-- l.hits[ip], which is empty for an address that is not there.
unfoldable pub hits_of : String → Limiter → List ℕ
hits_of ip l = elim (get ip l.hits) [ none ↦ [] | some ts ↦ ts ]

-- The attempts of the last minute.
unfoldable pub recent : ℕ → String → Limiter → List ℕ
unfolding hits_of
recent now ip l = filter (λ t. ltb (now - l.window) t) (hits_of ip l)

-- allow
unfoldable pub allow : ℕ → String → Limiter → Limiter × Bool
unfolding recent
allow now ip l =
    let kept = recent now ip l in
    if leb l.max (length kept)
    then (record l { hits = put ip kept l.hits }, false)
    else (record l { hits = put ip (kept ++ now ∷ []) l.hits }, true)
