-- ===== src/Discovery/RoundTrip.antt =====
-- The UDP messages and TXT records of internal/discovery/protocol.go, written and read back.
use Prim.Native.Char.{code}
use houdry.Prelude.{
  ℕ, String, Bool, true, false, not, ◌&&◌, ◌||◌, ◌≡◌, refl, sym, ap, ◌∙◌, inl, inr, List, some,
  str_eq, ◌==◌, if◌then◌else◌, Bool-cases, arith,
}
use houdry.Prelude.Maps.{Map, get, put}
use houdry.Text.{append, trim_space, is_space}
use houdry.Text.Trim.{trim_space-first, cons_ne}
use houdry.Discovery.{
  Info, Endpoint, Ip, trim_slashes, starts_with_slash, first_non_blank, with_slash, complete, flag,
  cons_key, parse_from, cut_equals, advertise_payload, endpoint_from_udp, txt_records, parse_txt,
  field, pick_ip, http_url, endpoint_from_txt, default_path,
}

trim_slashes_idem : (s : String) → trim_slashes (trim_slashes s) ≡ trim_slashes s
unfolding trim_slashes
trim_slashes_idem String.[] = refl
trim_slashes_idem (String.◌∷◌ c s) =
    elim (Bool-cases (str_eq (trim_slashes s) "" && code c == b'/')) [
      | inl e ↦ rw e refl
      | inr e ↦ rw e (ground (arith, trim_slashes_idem s))
    ]

slash_kept : (p : String) → starts_with_slash (with_slash p) ≡ true
unfolding with_slash starts_with_slash
slash_kept p = elim (Bool-cases (starts_with_slash p)) [ inl e ↦ rw e e | inr e ↦ rw e refl ]

slashed : (p : String) → starts_with_slash p ≡ true → str_eq (trim_space p) "" ≡ false
unfolding starts_with_slash is_space
slashed String.[] h = cc
slashed (String.◌∷◌ c s) h = trim_space-first c s (ground arith)

-- An endpoint in the form that `complete` gives it.
pub record IsComplete (e : Endpoint) : Type 0 where
  pub reachable : str_eq e.url "" ≡ false
  pub trimmed : trim_slashes e.url ≡ e.url
  pub rooted : starts_with_slash e.path ≡ true
  pub whole : e.api ≡ append e.url e.path

present : (e : Endpoint) → IsComplete e → str_eq e.path "" ≡ false
unfolding starts_with_slash
present e h = go e.path h.rooted
  where
    go : (p : String) → starts_with_slash p ≡ true → str_eq p "" ≡ false
    go String.[] r = cc
    go (String.◌∷◌ c s) r = cons_ne c s

completed :
    (e : Endpoint) (source : String)
    → IsComplete e
    → complete (record e { url = trim_slashes e.url; api = ""; source = source })
      ≡ record e { source = source }
unfolding complete with_slash
completed e source h =
    let twice : trim_slashes (trim_slashes e.url) ≡ e.url = trim_slashes_idem e.url ∙ h.trimmed in
    rw (present e h, h.rooted, twice)
      (ap {A = String} (λ t. record e { api = t; source = source }) (sym h.whole))

blank_kept : (p q : String) → str_eq (trim_space p) "" ≡ false → first_non_blank p q ≡ p
unfolding first_non_blank
blank_kept p q h = rw h refl

-- What a control plane advertises is read back as it was, but for the source.
pub endpoint_from_udp-advertise :
    (e : Endpoint) (source : String)
    → IsComplete e
    → endpoint_from_udp (some (advertise_payload e)) source ≡ some (record e { source = source })
unfolding endpoint_from_udp advertise_payload
endpoint_from_udp-advertise e source h =
    let kept = blank_kept e.path default_path (slashed e.path h.rooted) in
    rw (h.reachable, kept, kept) (ap some (completed e source h))

-- What `complete` gives is in that form, if some of the URL is left.
pub complete-IsComplete :
    (e : Endpoint) → str_eq (trim_slashes e.url) "" ≡ false → IsComplete (complete e)
unfolding complete
complete-IsComplete e h = record {
  reachable = h;
  trimmed = trim_slashes_idem e.url;
  rooted = slash_kept (if str_eq e.path "" then default_path else e.path);
  whole = refl;
}

-- The records, as they are read back.
abbrev records_of : Info → Map String
records_of info = parse_txt (txt_records info)

auth_back :
    (b : Bool) → (str_eq (trim_space (flag b)) "1" || str_eq (trim_space (flag b)) "true") ≡ b
unfolding flag trim_space
auth_back true = refl
auth_back false = refl

openai_back :
    (b : Bool)
    → (not (str_eq (trim_space (flag b)) "0") && not (str_eq (trim_space (flag b)) "false")) ≡ b
unfolding flag trim_space
openai_back true = refl
openai_back false = refl

read_back :
    (info : Info)
    → (field "path" (records_of info) ≡ trim_space (first_non_blank info.path default_path))
      × (field "version" (records_of info) ≡ trim_space info.version)
      × ((str_eq (field "auth" (records_of info)) "1"
            || str_eq (field "auth" (records_of info)) "true")
          ≡ info.auth_required)
      × ((not (str_eq (field "openai" (records_of info)) "0")
            && not (str_eq (field "openai" (records_of info)) "false"))
          ≡ info.openai)
unfolding field parse_txt parse_from txt_records cut_equals cons_key get put trim_space flag
read_back info = (refl, refl, auth_back info.auth_required, openai_back info.openai)

-- What a control plane announces in its TXT records is read back: the path, spaces trimmed and with a
-- slash in front, the version, spaces trimmed, and both flags, at the address that is picked.
pub endpoint_from_txt-records :
    (show_port : ℕ → String) (info : Info) (instance_name host source : String) (port : ℕ)
    (ips : List Ip) (ip : Ip)
    → pick_ip ips ≡ some ip
    → (port == 0) ≡ false
    → (e : Endpoint) × (endpoint_from_txt show_port instance_name host port
          (txt_records info)
          ips
          source
        ≡ some e)
      × (e.url ≡ trim_slashes (http_url show_port ip port))
      × (e.path
          ≡ (complete (record e {
            path =
                first_non_blank (trim_space (first_non_blank info.path default_path)) default_path;
          })).path)
      × (e.version ≡ trim_space info.version)
      × (e.auth_required ≡ info.auth_required)
      × (e.openai ≡ info.openai)
unfolding endpoint_from_txt complete
endpoint_from_txt-records show_port info instance_name host source port ips ip picked open_port =
    let (path, version, auth, openai) = read_back info in
    rw (picked, endpoint_from_txt)
      (rw open_port (_, refl, refl, rw path refl, version, auth, openai))
