-- ===== src/Prelude/Maps.antt =====
-- Python's dict with numbers as keys: insertion order is kept, and an assignment to a key that is
-- there keeps its place.
use Prim.Native.Nat.{ℕ}
use mathlib.Core.Path.{◌≡◌, refl, ◌∙◌}
use mathlib.Core.Logic.{◌≢◌, inl, inr}
use mathlib.Core.Bool.{false}
use mathlib.Core.Option.{Option, none, some}
use mathlib.Core.List.{List, [], ◌∷◌}
use native.Mathlib.Omega.{arith}
use quantbot.Prelude.Tests.{if◌then◌else◌, ◌==◌, Bool-cases}

abbrev pub Dict {ℓ} : Type ℓ → Type ℓ
Dict V = List (ℕ × V)

pub ==→≢ : (j k : ℕ) → (j == k) ≡ false → j ≢ k
==→≢ j k h = ground arith

module _ {ℓ} {V : Type ℓ} where
  abbrev pub lookup : ℕ → Dict V → Option V
  lookup k [] = none
  lookup k ((j, v) ∷ d) = let rest = lookup k d in if j == k then some v else rest

  abbrev pub insert : ℕ → V → Dict V → Dict V
  insert k v [] = (k, v) ∷ []
  insert k v ((j, w) ∷ d) = let rest = insert k v d in if j == k then (j, v) ∷ d else (j, w) ∷ rest

  abbrev pub remove : ℕ → Dict V → Dict V
  remove k [] = []
  remove k ((j, w) ∷ d) = let rest = remove k d in if j == k then d else (j, w) ∷ rest

  abbrev pub values : Dict V → List V
  values [] = []
  values ((j, v) ∷ d) = v ∷ values d

  pub lookup-insert : (k : ℕ) (v : V) (d : Dict V) → lookup k (insert k v d) ≡ some v
  lookup-insert k v [] = ground arith
  lookup-insert k v ((j, w) ∷ d) = ground (arith, lookup-insert k v d)

  pub lookup-insert_other :
      (k j : ℕ) (v : V) (d : Dict V) → j ≢ k → lookup j (insert k v d) ≡ lookup j d
  lookup-insert_other k j v [] h = ground arith
  lookup-insert_other k j v ((i, w) ∷ d) h = ground (arith, lookup-insert_other k j v d h)

  pub lookup-remove_other : (k j : ℕ) (d : Dict V) → j ≢ k → lookup j (remove k d) ≡ lookup j d
  lookup-remove_other k j [] h = refl
  lookup-remove_other k j ((i, w) ∷ d) h = ground (arith, lookup-remove_other k j d h)

  -- Every key is there once.
  abbrev pub Unique : Dict V → Type ℓ
  Unique [] = Unit
  Unique ((j, v) ∷ d) = (lookup j d ≡ none) × Unique d

  pub lookup-remove : (k : ℕ) (d : Dict V) → Unique d → lookup k (remove k d) ≡ none
  lookup-remove k [] u = refl
  lookup-remove k ((j, w) ∷ d) u = ground (arith, u.0, lookup-remove k d u.1)

  pub Unique-insert : (k : ℕ) (v : V) (d : Dict V) → Unique d → Unique (insert k v d)
  Unique-insert k v [] u = (refl, tt)
  Unique-insert k v ((j, w) ∷ d) u = elim (Bool-cases (j == k)) [
    | inl same ↦ rw same u
    | inr other ↦
        rw other (lookup-insert_other k j v d (==→≢ j k other) ∙ u.0, Unique-insert k v d u.1)
  ]

  pub Unique-remove : (k : ℕ) (d : Dict V) → Unique d → Unique (remove k d)
  Unique-remove k [] u = u
  Unique-remove k ((j, w) ∷ d) u = elim (Bool-cases (j == k)) [
    | inl same ↦ rw same u.1
    | inr other ↦ rw other (lookup-remove_other k j d (==→≢ j k other) ∙ u.0, Unique-remove k d u.1)
  ]
