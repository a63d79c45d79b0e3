-- ===== src/Base/Maps.antt =====
-- Go's `map[string]V` as an association list. Its order stands for the order of one iteration.
use mathlib.Core.Path.{◌≡◌, refl}
use mathlib.Core.Option.{Option, none, some}
use mathlib.Core.List.{List, [], ◌∷◌}
use native.Mathlib.Omega.{arith}
use the_family_vpn.Base.Tests.{if◌then◌else◌}
use the_family_vpn.Base.Text.{Bytes, text_eq, text_eq_iff, text_eq_refl}

abbrev pub Dict {ℓ} : Type ℓ → Type ℓ
Dict V = List (Bytes × V)

module _ {ℓ} {V : Type ℓ} where
  -- v, ok := m[k]
  unfoldable pub lookup : Bytes → Dict V → Option V
  lookup k [] = none
  lookup k ((j, v) ∷ m) = if text_eq j k then some v else lookup k m

  -- m[k] = v
  unfoldable pub insert : Bytes → V → Dict V → Dict V
  insert k v [] = (k, v) ∷ []
  insert k v ((j, w) ∷ m) = if text_eq j k then (k, v) ∷ m else (j, w) ∷ insert k v m

  -- delete(m, k)
  unfoldable pub delete : Bytes → Dict V → Dict V
  delete k [] = []
  delete k ((j, v) ∷ m) = let rest = delete k m in if text_eq j k then rest else (j, v) ∷ rest

  pub lookup-insert :
      (k j : Bytes) (v : V) (m : Dict V)
      → lookup j (insert k v m) ≡ (if text_eq k j then some v else lookup j m)
  unfolding lookup insert
  lookup-insert k j v [] = refl
  lookup-insert k j v ((i, w) ∷ m) =
      ground (arith, text_eq_iff k j, text_eq_iff i k, text_eq_iff i j, lookup-insert k j v m)

  pub lookup-delete :
      (k j : Bytes) (m : Dict V)
      → lookup j (delete k m) ≡ (if text_eq k j then none else lookup j m)
  unfolding lookup delete
  lookup-delete k j [] = ground arith
  lookup-delete k j ((i, v) ∷ m) =
      ground (arith, text_eq_iff k j, text_eq_iff i k, text_eq_iff i j, lookup-delete k j m)

  pub lookup-insert_self : (k : Bytes) (v : V) (m : Dict V) → lookup k (insert k v m) ≡ some v
  lookup-insert_self k v m = simp (lookup-insert, text_eq_refl)

module _ {ℓ} {V : Type ℓ} where
  -- UPDATE … WHERE key = k, or a write through the pointer m[k] if it is there
  unfoldable pub modify : Bytes → (V → V) → Dict V → Dict V
  modify k f [] = []
  modify k f ((j, v) ∷ m) = if text_eq j k then (j, f v) ∷ modify k f m else (j, v) ∷ modify k f m

  abbrev pub when_some : Option V → (V → V) → Option V
  when_some none f = none
  when_some (some v) f = some (f v)

  pub lookup-modify :
      (k j : Bytes) (f : V → V) (m : Dict V)
      → lookup j (modify k f m) ≡ (if text_eq k j then when_some (lookup j m) f else lookup j m)
  unfolding lookup modify
  lookup-modify k j f [] = ground arith
  lookup-modify k j f ((i, v) ∷ m) =
      ground (arith, text_eq_iff k j, text_eq_iff i k, text_eq_iff i j, lookup-modify k j f m)

  -- a write to every value
  unfoldable pub map_values : (V → V) → Dict V → Dict V
  map_values f [] = []
  map_values f ((j, v) ∷ m) = (j, f v) ∷ map_values f m

  pub lookup-map_values :
      (j : Bytes) (f : V → V) (m : Dict V) → lookup j (map_values f m) ≡ when_some (lookup j m) f
  unfolding lookup map_values
  lookup-map_values j f [] = refl
  lookup-map_values j f ((i, v) ∷ m) = ground (arith, lookup-map_values j f m)
