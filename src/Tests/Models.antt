-- ===== src/Tests/Models.antt =====
-- The theorems on model names and requirements at concrete data.
use houdry.Prelude.{inl, false, ◌≡◌, ◌≢◌, refl, arith, eq_iff}
use houdry.Text.{codes, contains, is_space, has_prefix}
use houdry.Text.Trim.{IsSpaceless}
use houdry.Model.{Identity, parse_ref, ref}
use houdry.Model.Reference.{IsColonless, parse_ref-ref}
use houdry.Resources.{Requirements, model_identity, normalize_model_fields, no_requirements}
use houdry.Resources.Shorthand.{normalize-name}

abbrev llama : Identity
llama = record { name = "llama"; tag = "8b"; runtime = "" }

IsSpaceless-name : IsSpaceless "org/llama"
unfolding is_space
IsSpaceless-name = (refl, (refl, (refl, (refl, (refl, (refl, (refl, (refl, (refl, tt)))))))))

IsSpaceless-tag : IsSpaceless "8b"
unfolding is_space
IsSpaceless-tag = (refl, (refl, tt))

IsColonless-tag : IsColonless "8b"
IsColonless-tag = (refl, (refl, tt))

no_slash : contains (codes "8b") (codes "/") ≡ false
unfolding contains has_prefix
no_slash = refl

abbrev named_model : Identity
named_model = record { name = "org/llama"; tag = "8b"; runtime = "" }

has_name : named_model.name ≢ ""
has_name e = ground (arith, eq_iff "org/llama" "")

has_tag : named_model.tag ≢ ""
has_tag e = ground (arith, eq_iff "8b" "")

parse_ref-ref_example : parse_ref (ref named_model) ≡ named_model
parse_ref-ref_example =
    parse_ref-ref "org/llama" "8b" has_name IsSpaceless-name IsSpaceless-tag
      (inl (has_tag, IsColonless-tag, no_slash))

abbrev short_request : Requirements
short_request = record no_requirements { model = "llama:8b" }

normalize-name_example :
    (normalize_model_fields short_request).model_name ≡ (model_identity short_request).name
normalize-name_example = normalize-name short_request
