-- ===== src/Prelude/Maps.antt =====
-- Go maps with string keys, as association lists. The order of the list is the order in which the
-- map is ranged over; Go leaves it open, so a theorem holds for each order.
use mathlib.Core.Path.{◌≡◌, refl}
use mathlib.Core.Logic.{inl, inr}
use mathlib.Core.Option.{Option, none, some}
use mathlib.Core.List.{List, [], ◌∷◌}
use native.Mathlib.Omega.{arith}
use khulnasoft_lab_vulnmap_l.Prelude.Tests.{if◌then◌else◌, Bool-cases}
use khulnasoft_lab_vulnmap_l.Prelude.Strings.{Text, text_eq, text_eq_iff, text_eq_refl}

abbrev pub TextMap {ℓ} : Type ℓ → Type ℓ
TextMap V = List (Text × V)

module _ {ℓ} {V : Type ℓ} where
  -- `v, ok := m[k]`
  unfoldable pub lookup : Text → TextMap V → Option V
  lookup k [] = none
  lookup k ((j, v) ∷ m) = if text_eq j k then some v else lookup k m

  -- `m[k] = v`: a new key goes to the end.
  unfoldable pub store : Text → V → TextMap V → TextMap V
  store k v [] = (k, v) ∷ []
  store k v ((j, w) ∷ m) = if text_eq j k then (k, v) ∷ m else (j, w) ∷ store k v m

  -- `delete(m, k)`
  unfoldable pub delete : Text → TextMap V → TextMap V
  delete k [] = []
  delete k ((j, v) ∷ m) = let rest = delete k m in if text_eq j k then rest else (j, v) ∷ rest

  pub lookup-store :
      (k j : Text) (v : V) (m : TextMap V)
      → lookup j (store k v m) ≡ (if text_eq k j then some v else lookup j m)
  unfolding lookup store
  lookup-store k j v [] = refl
  lookup-store k j v ((i, w) ∷ m) =
      ground (arith, text_eq_iff k j, text_eq_iff i k, text_eq_iff i j, lookup-store k j v m)

  pub lookup-delete :
      (k j : Text) (m : TextMap V)
      → lookup j (delete k m) ≡ (if text_eq k j then none else lookup j m)
  unfolding lookup delete
  lookup-delete k j [] = ground arith
  lookup-delete k j ((i, v) ∷ m) =
      ground (arith, lookup-delete k j m, text_eq_iff i k, text_eq_iff i j, text_eq_iff k j)

  pub lookup-store_self : (k : Text) (v : V) (m : TextMap V) → lookup k (store k v m) ≡ some v
  lookup-store_self k v m = simp (lookup-store, text_eq_refl)

  -- Storing what is there changes nothing.
  pub store-lookup_self : (k : Text) (v : V) (m : TextMap V) → lookup k m ≡ some v → store k v m ≡ m
  unfolding lookup store
  store-lookup_self k v [] h = cc
  store-lookup_self k v ((j, w) ∷ m) h = ground (arith, text_eq_iff j k, store-lookup_self k v m)

  abbrev pub keys : TextMap V → List Text
  keys [] = []
  keys ((k, v) ∷ m) = k ∷ keys m

  -- Each key stands once, as in a Go map.
  abbrev pub UniqueKeys : TextMap V → Type ℓ
  UniqueKeys [] = Unit
  UniqueKeys ((k, v) ∷ m) = (lookup k m ≡ none) × UniqueKeys m

  pub UniqueKeys-store :
      (k : Text) (v : V) (m : TextMap V) → UniqueKeys m → UniqueKeys (store k v m)
  unfolding store lookup
  UniqueKeys-store k v [] u = (refl, tt)
  UniqueKeys-store k v ((j, w) ∷ m) u = elim (Bool-cases (text_eq j k)) [
    | inl e ↦ rw (e, ← (text_eq_iff j k).0 e) u
    | inr e ↦ rw e (
      ground (arith, lookup-store k j v m, text_eq_iff k j, text_eq_iff j k, u.0),
      UniqueKeys-store k v m u.1,
    )
  ]

  pub UniqueKeys-delete : (k : Text) (m : TextMap V) → UniqueKeys m → UniqueKeys (delete k m)
  unfolding delete
  UniqueKeys-delete k [] u = u
  UniqueKeys-delete k ((j, w) ∷ m) u = elim (Bool-cases (text_eq j k)) [
    | inl e ↦ rw e (UniqueKeys-delete k m u.1)
    | inr e ↦ rw e (ground (arith, lookup-delete k j m, u.0), UniqueKeys-delete k m u.1)
  ]

  -- A map in which every lookup fails is empty.
  pub empty_of_lookup : (m : TextMap V) → ((k : Text) → lookup k m ≡ none) → m ≡ []
  unfolding lookup
  empty_of_lookup [] h = refl
  empty_of_lookup ((k, v) ∷ m) h = ground (arith, h k, text_eq_refl k)
