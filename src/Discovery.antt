-- ===== src/Discovery.antt =====
-- internal/discovery/protocol.go: what a control plane advertises and what a client reads of it. A UDP
-- message is what encoding/json decodes it to. Package net answers the text of an address and what
-- kind of address it is.
pub mod Endpoints
pub mod RoundTrip
use houdry.Prelude.{
  ℕ, String, Bool, true, false, not, ◌&&◌, ◌||◌, List, [], ◌∷◌, ◌++◌, Option, none, some, str_eq,
  ◌==◌, ltb, if◌then◌else◌, find, map, any,
}
use houdry.Prelude.Maps.{Map, get, put}
use houdry.Text.{append, cut_prefix, trim_space}
use Prim.Native.Char.{code}

abbrev pub default_path : String
default_path = "/v1"

pub record Info : Type 0 where
  pub name : String
  pub path : String
  pub version : String
  pub auth_required : Bool
  pub openai : Bool

pub record Endpoint : Type 0 where
  pub name : String
  pub url : String
  pub path : String
  pub api : String
  pub version : String
  pub auth_required : Bool
  pub openai : Bool
  pub source : String

pub record UdpMessage : Type 0 where
  pub houdry_kind : String
  pub v : ℕ
  pub url : String
  pub path : String
  pub version : String
  pub name : String
  pub auth : Bool
  pub openai : Bool

-- strings.TrimRight(s, "/")
unfoldable pub trim_slashes : String → String
trim_slashes String.[] = String.[]
trim_slashes (String.◌∷◌ c s) =
    let rest = trim_slashes s in
    if str_eq rest "" && code c == b'/' then String.[] else String.◌∷◌ c rest

-- strings.HasPrefix(s, "/")
unfoldable pub starts_with_slash : String → Bool
starts_with_slash String.[] = false
starts_with_slash (String.◌∷◌ c s) = code c == b'/'

-- firstNonEmpty of two values
unfoldable pub first_non_blank : String → String → String
first_non_blank a b =
    if not (str_eq (trim_space a) "") then a else if not (str_eq (trim_space b) "") then b else ""

-- Endpoint.APIBase
unfoldable pub api_base : Endpoint → String
api_base e =
    if not (str_eq e.api "")
    then e.api
    else append (trim_slashes e.url) (if str_eq e.path "" then default_path else e.path)

unfoldable pub with_slash : String → String
unfolding starts_with_slash
with_slash p = if starts_with_slash p then p else append "/" p

-- complete
unfoldable pub complete : Endpoint → Endpoint
unfolding with_slash trim_slashes
complete e =
    let path = with_slash (if str_eq e.path "" then default_path else e.path) in
    let url = trim_slashes e.url in record e { path = path; url = url; api = append url path }

-- probePayload
abbrev pub probe_payload : UdpMessage
probe_payload = record {
  houdry_kind = "discover";
  v = 1;
  url = "";
  path = "";
  version = "";
  name = "";
  auth = false;
  openai = false;
}

-- isProbe
unfoldable pub is_probe : Option UdpMessage → Bool
is_probe none = false
is_probe (some m) = str_eq m.houdry_kind "discover" && m.v == 1

-- advertisePayload
unfoldable pub advertise_payload : Endpoint → UdpMessage
unfolding first_non_blank
advertise_payload e = record {
  houdry_kind = "control-plane";
  v = 1;
  url = e.url;
  path = first_non_blank e.path default_path;
  version = e.version;
  name = e.name;
  auth = e.auth_required;
  openai = e.openai;
}

-- endpointFromUDP
unfoldable pub endpoint_from_udp : Option UdpMessage → String → Option Endpoint
unfolding complete first_non_blank
endpoint_from_udp none source = none
endpoint_from_udp (some m) source =
    if not (str_eq m.houdry_kind "control-plane") || not (m.v == 1) || str_eq m.url ""
    then none
    else some (
        complete (record {
          name = m.name;
          url = trim_slashes m.url;
          path = first_non_blank m.path default_path;
          api = "";
          version = m.version;
          auth_required = m.auth;
          openai = m.openai;
          source = source;
        }))

unfoldable pub flag : Bool → String
flag true = "1"
flag false = "0"

-- txtRecords
unfoldable pub txt_records : Info → List String
unfolding first_non_blank flag
txt_records info =
    "txtvers=1"
    ∷ append "path=" (first_non_blank info.path default_path)
    ∷ append "version=" info.version
    ∷ append "auth=" (flag info.auth_required)
    ∷ append "openai=" (flag info.openai)
    ∷ "proto=https"
    ∷ []

unfoldable pub cons_key : String → Option (String × String) → Option (String × String)
cons_key k none = none
cons_key k (some (a, b)) = some (append k a, b)

-- strings.Cut(t, "=")
unfoldable pub cut_equals : String → Option (String × String)
unfolding cons_key
cut_equals String.[] = none
cut_equals (String.◌∷◌ c s) =
    let rest = cons_key (String.◌∷◌ c String.[]) (cut_equals s) in
    if code c == b'=' then some (String.[], s) else rest

unfoldable pub parse_from : Map String → List String → Map String
unfolding cut_equals
parse_from m [] = m
parse_from m (t ∷ ts) =
    parse_from
      (elim (cut_equals t) [ none ↦ m | some (k, v) ↦ put (trim_space k) (trim_space v) m ]) ts

-- parseTXT
unfoldable pub parse_txt : List String → Map String
unfolding parse_from
parse_txt txt = parse_from [] txt

-- m[k], which is empty for a key that is not there
unfoldable pub field : String → Map String → String
field k m = elim (get k m) [ none ↦ "" | some v ↦ v ]

pub record Ip : Type 0 where
  pub shown : String
  pub is_v4 : Bool
  pub is_unspecified : Bool
  pub is_loopback : Bool

-- pickIP: an IPv4 address first, then IPv6, and a loopback address only if there is no other.
unfoldable pub pick_ip : List Ip → Option Ip
pick_ip ips =
    let outside = λ (ip : Ip). not ip.is_unspecified && not ip.is_loopback in
    elim (find (λ ip. outside ip && ip.is_v4) ips) [
      | some ip ↦ some ip
      | none ↦ elim (find outside ips) [
        | some ip ↦ some ip
        | none ↦ find (λ (ip : Ip). not ip.is_unspecified) ips
      ]
    ]

module _ (show_port : ℕ → String) where
  -- httpURL, with how a port is written
  unfoldable pub http_url : Ip → ℕ → String
  http_url ip port =
      let host = if ip.is_v4 then ip.shown else append "[" (append ip.shown "]") in
      append "https://" (append host (append ":" (show_port port)))

  -- endpointFromTXT; a port that is not positive is 0.
  unfoldable pub endpoint_from_txt :
      String → String → ℕ → List String → List Ip → String → Option Endpoint
  unfolding pick_ip parse_txt field first_non_blank http_url complete
  endpoint_from_txt instance_name host port txt ips source = elim (pick_ip ips) [
    | none ↦ none
    | some ip ↦
        if port == 0
        then none
        else let fields = parse_txt txt in
          some (
            complete (record {
              name = first_non_blank instance_name host;
              url = http_url ip port;
              path = first_non_blank (field "path" fields) default_path;
              api = "";
              version = field "version" fields;
              auth_required =
                  str_eq (field "auth" fields) "1" || str_eq (field "auth" fields) "true";
              openai =
                  not (str_eq (field "openai" fields) "0")
                  && not (str_eq (field "openai" fields) "false");
              source = source;
            }))
  ]

-- What unique does with an endpoint whose URL was seen: a named one takes the place of one without a
-- name, and keeps the source that was there if it has none.
unfoldable pub seen_again : Endpoint → Endpoint → Endpoint
seen_again old ep =
    if str_eq old.name "" && not (str_eq ep.name "")
    then record ep { source = if str_eq ep.source "" then old.source else ep.source }
    else old

unfoldable pub place : Endpoint → List Endpoint → List Endpoint
unfolding seen_again
place ep [] = ep ∷ []
place ep (o ∷ os) =
    let rest = place ep os in if str_eq o.url ep.url then seen_again o ep ∷ os else o ∷ rest

unfoldable pub unique_from : List Endpoint → List Endpoint → List Endpoint
unfolding place
unique_from out [] = out
unique_from out (ep ∷ eps) = unique_from (place ep out) eps

-- unique
unfoldable pub unique : List Endpoint → List Endpoint
unfolding unique_from
unique eps = unique_from [] eps
