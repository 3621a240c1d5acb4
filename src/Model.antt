-- ===== src/Model.antt =====
-- internal/modelruntime/identity.go and the inventory lookups of internal/modelruntime/runtime.go.
-- An identity is a name, a tag and a runtime; names compare without case and outer spaces.
pub mod Matching
pub mod Reference
use Prim.Native.Char.{code}
use houdry.Prelude.{
  ℕ, String, Bool, true, false, not, ◌&&◌, ◌||◌, List, Option, none, some, str_eq, find, is_empty,
  any, if◌then◌else◌, ◌==◌,
}
use houdry.Text.{append, codes, lower, trim_space, eq_codes, contains}

pub record Identity : Type 0 where
  pub name : String
  pub tag : String
  pub runtime : String

abbrev pub no_identity : Identity
no_identity = record { name = ""; tag = ""; runtime = "" }

pub record Model : Type 0 where
  pub name : String
  pub tag : String
  pub runtime : String
  pub state : String
  pub size_bytes : ℕ
  pub vram_bytes : ℕ
  pub digest : String
  pub family : String
  pub parameter_size : String

-- normalize: lower case, outer spaces dropped
unfoldable pub normalize : String → List ℕ
normalize s = lower (codes (trim_space s))

unfoldable pub equal_name_tag : Identity → Identity → Bool
equal_name_tag want have =
    if is_empty (normalize want.name) || is_empty (normalize have.name)
    then false
    else if not (eq_codes (normalize want.name) (normalize have.name))
    then false
    else if str_eq want.tag ""
    then true
    else eq_codes (normalize want.tag) (normalize have.tag)

unfoldable pub matches : Identity → Identity → Bool
matches want have =
    if not (equal_name_tag want have)
    then false
    else if not (str_eq want.runtime "")
        && not (eq_codes (normalize want.runtime) (normalize have.runtime))
    then false
    else true

-- Model.Identity
abbrev pub identity : Model → Identity
identity m = record { name = m.name; tag = m.tag; runtime = m.runtime }

-- Match: the first inventory row that satisfies the identity
unfoldable pub match : List Model → Identity → Option Model
match models want = find (λ m. matches want (identity m)) models

is_usable : String → Bool
is_usable state =
    str_eq state "AVAILABLE" || str_eq state "LOADED" || str_eq state "UNLOADED" || str_eq state ""

unfoldable pub has_model : List Model → Identity → Bool
unfolding is_usable
has_model models want = elim (match models want) [ none ↦ false | some m ↦ is_usable m.state ]

unfoldable pub is_loaded : List Model → Identity → Bool
is_loaded models want = elim (match models want) [ none ↦ false | some m ↦ str_eq m.state "LOADED" ]

-- strings.LastIndex(s, ":") with the parts before and after the colon
-- The scan from the right: a colon found further on is the last one.
colon_at : Bool → String → Option (String × String)
colon_at true s = some (String.[], s)
colon_at false s = none

unfoldable pub split_last_colon : String → Option (String × String)
unfolding colon_at
split_last_colon String.[] = none
split_last_colon (String.◌∷◌ c s) = elim (split_last_colon s) [
  | some (before, rest) ↦ some (String.◌∷◌ c before, rest)
  | none ↦ colon_at (code c == b':') s
]

-- What ParseRef does with a trimmed reference, by the place of its last colon; `lastColon <= 0`
-- is no colon or an empty part before it.
is_untagged : String → String → Bool
is_untagged name tag = str_eq name "" || str_eq tag "" || contains (codes tag) (codes "/")

parse_split : String → Option (String × String) → Identity
parse_split ref none = record { name = ref; tag = ""; runtime = "" }
parse_split ref (some (name, tag)) =
    if is_untagged name tag
    then record { name = ref; tag = ""; runtime = "" }
    else record { name = name; tag = tag; runtime = "" }

parse_trimmed : String → Identity
unfolding parse_split is_untagged
parse_trimmed ref = if str_eq ref "" then no_identity else parse_split ref (split_last_colon ref)

unfoldable pub parse_ref : String → Identity
unfolding parse_trimmed
parse_ref ref = parse_trimmed (trim_space ref)

join_ref : String → String → String
join_ref name tag =
    if str_eq name "" then "" else if str_eq tag "" then name else append name (append ":" tag)

-- Identity.Ref
unfoldable pub ref : Identity → String
unfolding join_ref
ref id = join_ref (trim_space id.name) (trim_space id.tag)
