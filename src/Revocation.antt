-- ===== src/Revocation.antt =====
-- internal/pki/revoke.go: the denylist of certificate serials. Each operation first reads the file
-- again; `disk` is the list that revoked.json decodes to, and is missing where the file is not there
-- or cannot be read, which the operations ignore and go on with what is in memory.
pub mod Denylist
use houdry.Prelude.{
  ℕ, String, Bool, true, false, List, [], ◌∷◌, Option, none, some, if◌then◌else◌, is_some,
}
use houdry.Prelude.Maps.{Map, get, put}

pub record Revocation : Type 0 where
  pub serials : Map String
  pub disk : Option (List (String × String))
  pub writable : Bool

read_rows : Map String → List (String × String) → Map String
read_rows m [] = m
read_rows m ((serial, node) ∷ rows) = read_rows (put serial node m) rows

-- loadLocked
unfoldable pub load : Revocation → Revocation
unfolding read_rows
load r = elim r.disk [ none ↦ r | some rows ↦ record r { serials = read_rows [] rows } ]

-- saveLocked, with whether it succeeded. A map's entries are its rows.
unfoldable pub save : Revocation → Revocation × Bool
save r = if r.writable then (record r { disk = some r.serials }, true) else (r, false)

-- Revoke
unfoldable pub revoke : String → String → Revocation → Revocation × Bool
unfolding load save
revoke serial node r =
    let loaded = load r in save (record loaded { serials = put serial node loaded.serials })

-- IsRevoked, with the denylist as it was read again.
unfoldable pub is_revoked : String → Revocation → Bool
unfolding load
is_revoked serial r = is_some (get serial (load r).serials)
