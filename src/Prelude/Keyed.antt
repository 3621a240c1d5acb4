-- ===== src/Prelude/Keyed.antt =====
-- A map whose entries stand under the key that their value names, each key once.
use Prim.Native.String.{String}
use mathlib.Core.Path.{◌≡◌, refl, sym, ◌∙◌}
use mathlib.Core.Option.{none, some}
use mathlib.Core.Logic.{inl, inr}
use mathlib.Core.List.{[], ◌∷◌}
use native.Mathlib.Omega.{arith}
use text.Mathlib.Text.{◌==◌ as str_eq}
use text.Mathlib.TextEquality.{eq_iff}
use text.Mathlib.TextPositions.{eq_refl}
use houdry.Prelude.Tests.{Bool-cases}
use houdry.Prelude.Lists.{All, In}
use houdry.Prelude.Maps.{
  Map, get, put, delete, values, map_values, get-put, get-delete, get-map_values,
}

module _ {V : Type 0} (key : V → String) where
  abbrev pub IsKeyed : Map V → Type 0
  IsKeyed [] = Unit
  IsKeyed ((j, v) ∷ m) = (key v ≡ j) × (get j m ≡ none) × IsKeyed m

  pub put-IsKeyed : (v : V) (m : Map V) → IsKeyed m → IsKeyed (put (key v) v m)
  unfolding put get
  put-IsKeyed v [] h = (refl, refl, tt)
  put-IsKeyed v ((j, w) ∷ m) h = elim (Bool-cases (str_eq j (key v))) [
    | inl e ↦ rw e ((sym ((eq_iff j (key v)).0 e), h.1, h.2))
    | inr e ↦ rw e (
        (
          h.0,
          ground (arith, get-put (key v) j v m, eq_iff j (key v), eq_iff (key v) j, h.1),
          put-IsKeyed v m h.2,
        ))
  ]

  pub delete-IsKeyed : (k : String) (m : Map V) → IsKeyed m → IsKeyed (delete k m)
  unfolding delete
  delete-IsKeyed k [] h = tt
  delete-IsKeyed k ((j, w) ∷ m) h = elim (Bool-cases (str_eq j k)) [
    | inl e ↦ rw e (delete-IsKeyed k m h.2)
    | inr e ↦ rw e ((h.0, ground (arith, get-delete k j m, h.1), delete-IsKeyed k m h.2))
  ]

  pub map_values-IsKeyed :
      (f : V → V)
      → ((v : V) → key (f v) ≡ key v)
      → (m : Map V) → IsKeyed m
      → IsKeyed (map_values f m)
  unfolding map_values
  map_values-IsKeyed f keeps [] h = tt
  map_values-IsKeyed f keeps ((j, w) ∷ m) h =
      (keeps w ∙ h.0, ground (arith, get-map_values f j m, h.1), map_values-IsKeyed f keeps m h.2)

  -- What the loop meets is what a lookup by its key finds, and the other way round.
  pub get_of_In : (v : V) (m : Map V) → IsKeyed m → In v (values m) → get (key v) m ≡ some v
  unfolding get values
  get_of_In v [] h i = absurd i
  get_of_In v ((j, w) ∷ m) h i = elim i [
    | inl e ↦ ground (arith, eq_refl j, h.0, e)
    | inr i' ↦ ground (arith, get_of_In v m h.2 i', eq_iff j (key v), h.1)
  ]

  pub key_of_get : (k : String) (v : V) (m : Map V) → IsKeyed m → get k m ≡ some v → key v ≡ k
  unfolding get
  key_of_get k v [] h e = cc
  key_of_get k v ((j, w) ∷ m) h e = ground (arith, eq_iff j k, key_of_get k v m h.2, h.0)

module _ {V : Type 0} where
  pub In-of_get : (k : String) (v : V) (m : Map V) → get k m ≡ some v → In v (values m)
  unfolding get values
  In-of_get k v [] e = cc
  In-of_get k v ((j, w) ∷ m) e = elim (Bool-cases (str_eq j k)) [
    | inl t ↦ inl (ground arith)
    | inr t ↦ inr (In-of_get k v m (ground arith))
  ]

  -- A property of every entry holds after a write, if it holds of the value written.
  pub All-put :
      (P : V → Type 0) (k : String) (v : V) (m : Map V)
      → P v
      → All P (values m)
      → All P (values (put k v m))
  unfolding put values
  All-put P k v [] p h = (p, tt)
  All-put P k v ((j, w) ∷ m) p h = elim (Bool-cases (str_eq j k)) [
    | inl t ↦ rw t ((p, h.1))
    | inr t ↦ rw t ((h.0, All-put P k v m p h.1))
  ]

  pub All-delete :
      (P : V → Type 0) (k : String) (m : Map V) → All P (values m) → All P (values (delete k m))
  unfolding delete values
  All-delete P k [] h = tt
  All-delete P k ((j, w) ∷ m) h = elim (Bool-cases (str_eq j k)) [
    | inl t ↦ rw t (All-delete P k m h.1)
    | inr t ↦ rw t ((h.0, All-delete P k m h.1))
  ]

  pub All-map_values :
      (P : V → Type 0) (f : V → V)
      → ((v : V) → P v → P (f v))
      → (m : Map V) → All P (values m)
      → All P (values (map_values f m))
  unfolding map_values values
  All-map_values P f keeps [] h = tt
  All-map_values P f keeps ((j, w) ∷ m) h = (keeps w h.0, All-map_values P f keeps m h.1)
