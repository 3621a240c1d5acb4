-- ===== src/Enrollment.antt =====
-- internal/enrollment/store.go: one-time join tokens. The hash of a token is SHA-256 in hexadecimal,
-- a parameter here; `create` takes the token and the record id that it draws. Each operation first
-- reads the file again, and `disk` is the list of records that enrollment.json decodes to.
pub mod Spending
use houdry.Prelude.{
  ℕ, ◌+◌, ◌-◌, String, Bool, true, false, List, [], ◌∷◌, ◌++◌, Option, none, some, if◌then◌else◌,
  ltb, str_eq, ◌==◌,
}

pub record Record : Type 0 where
  pub id : String
  pub token_hash : String
  pub expires : ℕ
  pub uses : ℕ
  pub created_at : ℕ
  pub consumed_at : ℕ
  pub node_id : String

pub record Store : Type 0 where
  pub records : List Record
  pub ttl : ℕ
  pub uses : ℕ
  pub disk : Option (List Record)
  pub writable : Bool

pub data ConsumeError : Type 0 where
  required expired used invalid unsaved : ConsumeError

-- NewStore; a duration or a count that is not positive is 0 here.
unfoldable pub new_store : ℕ → ℕ → Bool → Option (List Record) → Store
new_store ttl uses writable disk = record {
  records = elim disk [ none ↦ [] | some rs ↦ rs ];
  ttl = if ttl == 0 then 600_000_000_000 else ttl;
  uses = if uses == 0 then 1 else uses;
  disk = disk;
  writable = writable;
}

-- loadLocked; a missing file leaves the records as they are.
unfoldable pub load : Store → Store
load s = elim s.disk [ none ↦ s | some rs ↦ record s { records = rs } ]

-- saveLocked, with whether it succeeded.
unfoldable pub save : Store → Store × Bool
save s = if s.writable then (record s { disk = some s.records }, true) else (s, false)

module _ (hash : String → String) where
  -- Create, for the token and id that were drawn.
  unfoldable pub create : ℕ → String → String → Store → Store × Bool
  unfolding load save
  create now id token s =
      let loaded = load s in
      save (record loaded {
        records =
            loaded.records
            ++ record {
              id = id;
              token_hash = hash token;
              expires = now + loaded.ttl;
              uses = loaded.uses;
              created_at = now;
              consumed_at = 0;
              node_id = "";
            }
              ∷ [];
      })

-- The record that a successful use leaves.
unfoldable pub spent : ℕ → String → Record → Record
spent now node r = record r {
  uses = r.uses - 1;
  node_id = node;
  consumed_at = if r.uses - 1 == 0 then now else r.consumed_at;
}

-- Whether a record lets a node in now.
unfoldable pub refusal : ℕ → Record → Option ConsumeError
refusal now r = if ltb r.expires now then some expired else if r.uses == 0 then some used else none

-- The loop of Consume, which the first record of the hash decides: the records after the use, or the
-- reason why there is none.
pub data Outcome : Type 0 where
  accepted : List Record → Outcome
  refused : ConsumeError → Outcome

settle : ℕ → String → Record → List Record → Option ConsumeError → Outcome
settle now node r rs none = accepted (spent now node r ∷ rs)
settle now node r rs (some e) = refused e

behind : Record → Outcome → Outcome
behind r (accepted rs) = accepted (r ∷ rs)
behind r (refused e) = refused e

unfoldable pub spend : ℕ → String → String → List Record → Outcome
unfolding settle behind refusal spent
spend now want node [] = refused invalid
spend now want node (r ∷ rs) =
    if str_eq r.token_hash want
    then settle now node r rs (refusal now r)
    else behind r (spend now want node rs)

conclude : Store × Bool → Store × Option ConsumeError
conclude (s, true) = (s, none)
conclude (s, false) = (s, some unsaved)

finish : Store → Outcome → Store × Option ConsumeError
unfolding conclude save
finish s (accepted rs) = conclude (save (record s { records = rs }))
finish s (refused e) = (s, some e)

module _ (hash : String → String) where
  -- Consume; no error is `none`.
  unfoldable pub consume : ℕ → String → String → Store → Store × Option ConsumeError
  unfolding finish load spend
  consume now token node s =
      if str_eq token ""
      then (s, some required)
      else finish (load s) (spend now (hash token) node (load s).records)
