-- ===== src/Nodes/Status.antt =====
-- The status and identity words of internal/server/store.go. A request may carry any text as its
-- status; `other` holds one that is none of the constants.
use houdry.Prelude.{String, Bool, true, false, ◌≡◌, arith, str_eq, eq_iff, if◌then◌else◌}

pub data NodeStatus : Type 0 where
  unset joined ready busy draining offline : NodeStatus
  other : String → NodeStatus

pub data Identity : Type 0 where
  absent unknown pending enrolling certified active suspended revoked : Identity

abbrev pub status_text : NodeStatus → String
status_text NodeStatus.unset = ""
status_text NodeStatus.joined = "JOINED"
status_text NodeStatus.ready = "READY"
status_text NodeStatus.busy = "BUSY"
status_text NodeStatus.draining = "DRAINING"
status_text NodeStatus.offline = "OFFLINE"
status_text (NodeStatus.other s) = s

abbrev pub is_unset : NodeStatus → Bool
is_unset NodeStatus.unset = true
is_unset _ = false

abbrev pub is_joined : NodeStatus → Bool
is_joined NodeStatus.joined = true
is_joined _ = false

abbrev pub is_ready : NodeStatus → Bool
is_ready NodeStatus.ready = true
is_ready _ = false

abbrev pub is_busy : NodeStatus → Bool
is_busy NodeStatus.busy = true
is_busy _ = false

abbrev pub is_draining : NodeStatus → Bool
is_draining NodeStatus.draining = true
is_draining _ = false

abbrev pub is_offline : NodeStatus → Bool
is_offline NodeStatus.offline = true
is_offline _ = false

abbrev pub no_id : Identity → Bool
no_id Identity.absent = true
no_id _ = false

abbrev pub is_active : Identity → Bool
is_active Identity.active = true
is_active _ = false

abbrev pub is_certified : Identity → Bool
is_certified Identity.certified = true
is_certified _ = false

abbrev pub is_suspended : Identity → Bool
is_suspended Identity.suspended = true
is_suspended _ = false

abbrev pub is_revoked : Identity → Bool
is_revoked Identity.revoked = true
is_revoked _ = false

-- The constant that a text in a request or in the file names.
unfoldable pub read_status : String → NodeStatus
read_status s =
    if str_eq s ""
    then NodeStatus.unset
    else if str_eq s "JOINED"
    then NodeStatus.joined
    else if str_eq s "READY"
    then NodeStatus.ready
    else if str_eq s "BUSY"
    then NodeStatus.busy
    else if str_eq s "DRAINING"
    then NodeStatus.draining
    else if str_eq s "OFFLINE"
    then NodeStatus.offline
    else NodeStatus.other s

-- Reading a status loses nothing.
pub status_text-read_status : (s : String) → status_text (read_status s) ≡ s
unfolding read_status
status_text-read_status s = ground (
  arith,
  eq_iff s "",
  eq_iff s "JOINED",
  eq_iff s "READY",
  eq_iff s "BUSY",
  eq_iff s "DRAINING",
  eq_iff s "OFFLINE",
)
