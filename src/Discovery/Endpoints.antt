-- ===== src/Discovery/Endpoints.antt =====
-- unique of internal/discovery/protocol.go.
use houdry.Prelude.{
  String, true, false, ◌≡◌, sym, ◌∙◌, inl, inr, ◌⊎◌, ◌↔◌, List, [], ◌∷◌, arith, str_eq, eq_iff,
  Bool-cases, All, Some,
}
use houdry.Discovery.{Endpoint, seen_again, place, unique_from, unique}

-- No URL stands twice.
abbrev pub IsDistinct : List Endpoint → Type 0
IsDistinct [] = Unit
IsDistinct (e ∷ es) = All (λ (o : Endpoint). str_eq o.url e.url ≡ false) es × IsDistinct es

seen_again_url : (o e : Endpoint) → str_eq o.url e.url ≡ true → (seen_again o e).url ≡ o.url
unfolding seen_again
seen_again_url o e h = ground (arith, eq_iff o.url e.url)

place_urls :
    (url : String) (e : Endpoint) (es : List Endpoint)
    → str_eq e.url url ≡ false
    → All (λ (o : Endpoint). str_eq o.url url ≡ false) es
    → All (λ (o : Endpoint). str_eq o.url url ≡ false) (place e es)
unfolding place
place_urls url e [] h a = (h, tt)
place_urls url e (o ∷ os) h a = elim (Bool-cases (str_eq o.url e.url)) [
  | inl s ↦ rw s ((rw (seen_again_url o e s) a.0, a.1))
  | inr s ↦ rw s ((a.0, place_urls url e os h a.1))
]

place-IsDistinct : (e : Endpoint) (es : List Endpoint) → IsDistinct es → IsDistinct (place e es)
unfolding place
place-IsDistinct e [] h = (tt, tt)
place-IsDistinct e (o ∷ os) h = elim (Bool-cases (str_eq o.url e.url)) [
  | inl s ↦ rw s ((rw (seen_again_url o e s) h.0, h.1))
  | inr s ↦ rw s (
      (
        place_urls o.url e os (ground (arith, eq_iff e.url o.url, eq_iff o.url e.url)) h.0,
        place-IsDistinct e os h.1,
      ))
]

abbrev pub HasUrl : String → List Endpoint → Type 0
HasUrl url es = Some (λ (o : Endpoint). o.url ≡ url) es

place-HasUrl :
    (url : String) (e : Endpoint) (es : List Endpoint)
    → HasUrl url (place e es) ↔ ((e.url ≡ url) ⊎ HasUrl url es)
unfolding place
place-HasUrl url e [] = (λ h. h, λ h. h)
place-HasUrl url e (o ∷ os) = elim (Bool-cases (str_eq o.url e.url)) [
  | inl s ↦
      let same = seen_again_url o e s in
      let is_e = (eq_iff o.url e.url).0 s in
      rw s (
        λ h. elim h [ inl u ↦ inr (inl (sym same ∙ u)) | inr t ↦ inr (inr t) ],
        λ h. elim h [
          | inl u ↦ inl (same ∙ (is_e ∙ u))
          | inr k ↦ elim k [ inl u ↦ inl (same ∙ u) | inr t ↦ inr t ]
        ],
      )
  | inr s ↦
      let ih = place-HasUrl url e os in
      rw s (
        λ h. elim h [
          | inl u ↦ inr (inl u)
          | inr t ↦ elim (ih.0 t) [ inl u ↦ inl u | inr k ↦ inr (inr k) ]
        ],
        λ h. elim h [
          | inl u ↦ inr (ih.1 (inl u))
          | inr k ↦ elim k [ inl u ↦ inl u | inr t ↦ inr (ih.1 (inr t)) ]
        ],
      )
]

from_lem :
    (url : String) (out eps : List Endpoint)
    → IsDistinct out
    → IsDistinct (unique_from out eps)
      × (HasUrl url (unique_from out eps) ↔ (HasUrl url out ⊎ HasUrl url eps))
unfolding unique_from
from_lem url out [] d = (d, (λ h. inl h, λ h. elim h [ inl t ↦ t | inr t ↦ absurd t ]))
from_lem url out (e ∷ eps) d =
    let (distinct, urls) = from_lem url (place e out) eps (place-IsDistinct e out d) in
    let at = place-HasUrl url e out in
    (
      distinct,
      (
        λ h. elim (urls.0 h) [
          | inl t ↦ elim (at.0 t) [ inl u ↦ inr (inl u) | inr k ↦ inl k ]
          | inr t ↦ inr (inr t)
        ],
        λ h. elim h [
          | inl t ↦ urls.1 (inl (at.1 (inr t)))
          | inr k ↦ elim k [ inl u ↦ urls.1 (inl (at.1 (inl u))) | inr t ↦ urls.1 (inr t) ]
        ],
      ),
    )

-- The endpoints that are kept have different URLs, and exactly the URLs that were found.
pub unique_lem :
    (url : String) (eps : List Endpoint)
    → IsDistinct (unique eps) × (HasUrl url (unique eps) ↔ HasUrl url eps)
unfolding unique
unique_lem url eps =
    let (distinct, urls) = from_lem url [] eps tt in
    (distinct, (λ h. elim (urls.0 h) [ inl t ↦ absurd t | inr t ↦ t ], λ h. urls.1 (inr h)))
