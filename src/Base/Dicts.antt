-- ===== src/Base/Dicts.antt =====
-- A dictionary keyed by identifiers, in insertion order: a Python dict, or a table by primary key.
use Prim.Native.Nat.{ℕ, ◌+◌}
use mathlib.Core.Path.{◌≡◌, refl}
use mathlib.Core.Option.{Option, none, some}
use mathlib.Core.List.{List, [], ◌∷◌}
use native.Mathlib.Omega.{arith}
use qiki.Base.Tests.{◌==◌, if◌then◌else◌}

abbrev pub Dict {ℓ} : Type ℓ → Type ℓ
Dict V = List (ℕ × V)

module _ {ℓ} {V : Type ℓ} where
  -- `d.get(k)`
  unfoldable pub lookup : ℕ → Dict V → Option V
  lookup k [] = none
  lookup k ((j, v) ∷ d) = if k == j then some v else lookup k d

  -- `d[k] = v`
  unfoldable pub insert : ℕ → V → Dict V → Dict V
  insert k v [] = (k, v) ∷ []
  insert k v ((j, w) ∷ d) = if k == j then (k, v) ∷ d else (j, w) ∷ insert k v d

  -- `del d[k]`
  unfoldable pub delete : ℕ → Dict V → Dict V
  delete k [] = []
  delete k ((j, w) ∷ d) = if k == j then delete k d else (j, w) ∷ delete k d

  -- The sum of `f v` over the values.
  unfoldable pub sum_values : (V → ℕ) → Dict V → ℕ
  sum_values f [] = 0
  sum_values f ((j, v) ∷ d) = f v + sum_values f d

  pub lookup-insert :
      (k j : ℕ) (v : V) (d : Dict V)
      → lookup j (insert k v d) ≡ (if j == k then some v else lookup j d)
  unfolding lookup insert
  lookup-insert k j v [] = refl
  lookup-insert k j v ((i, w) ∷ d) = ground (arith, lookup-insert k j v d)

  pub lookup-insert_self : (k : ℕ) (v : V) (d : Dict V) → lookup k (insert k v d) ≡ some v
  lookup-insert_self k v d = ground (arith, lookup-insert k k v d)

  pub lookup-delete :
      (k j : ℕ) (d : Dict V) → lookup j (delete k d) ≡ (if j == k then none else lookup j d)
  unfolding lookup delete
  lookup-delete k j [] = ground arith
  lookup-delete k j ((i, w) ∷ d) = ground (arith, lookup-delete k j d)

  pub sum_values-insert :
      (f : V → ℕ) (k : ℕ) (v old : V) (d : Dict V)
      → lookup k d ≡ some old
      → sum_values f (insert k v d) + f old ≡ sum_values f d + f v
  unfolding lookup insert sum_values
  sum_values-insert f k v old [] e = cc
  sum_values-insert f k v old ((j, w) ∷ d) e = grind (arith, sum_values-insert f k v old d)

  pub sum_values-insert_new :
      (f : V → ℕ) (k : ℕ) (v : V) (d : Dict V)
      → lookup k d ≡ none
      → sum_values f (insert k v d) ≡ sum_values f d + f v
  unfolding lookup insert sum_values
  sum_values-insert_new f k v [] e = omega arith
  sum_values-insert_new f k v ((j, w) ∷ d) e = grind (arith, sum_values-insert_new f k v d)

-- A table: every row stands under its own identifier, and no identifier stands twice.
module _ {ℓ} {V : Type ℓ} (id : V → ℕ) where
  abbrev pub IsTable : Dict V → Type ℓ
  IsTable [] = Unit
  IsTable ((k, v) ∷ d) = (k ≡ id v) × (lookup k d ≡ none) × IsTable d

  pub insert-IsTable : (v : V) (d : Dict V) → IsTable d → IsTable (insert (id v) v d)
  unfolding insert lookup
  insert-IsTable v [] h = (refl, refl, tt)
  insert-IsTable v ((j, w) ∷ d) h =
      ground (arith, insert-IsTable v d h.2, lookup-insert (id v) j v d)

  pub lookup-IsTable : (k : ℕ) (v : V) (d : Dict V) → IsTable d → lookup k d ≡ some v → k ≡ id v
  unfolding lookup
  lookup-IsTable k v [] h e = cc
  lookup-IsTable k v ((j, w) ∷ d) h e = ground (arith, lookup-IsTable k v d h.2)

-- No key stands twice.
module _ {ℓ} {V : Type ℓ} where
  abbrev pub HasKeysOnce : Dict V → Type ℓ
  HasKeysOnce [] = Unit
  HasKeysOnce ((k, v) ∷ d) = (lookup k d ≡ none) × HasKeysOnce d

  pub insert-HasKeysOnce : (k : ℕ) (v : V) (d : Dict V) → HasKeysOnce d → HasKeysOnce (insert k v d)
  unfolding insert lookup
  insert-HasKeysOnce k v [] h = (refl, tt)
  insert-HasKeysOnce k v ((j, w) ∷ d) h =
      ground (arith, insert-HasKeysOnce k v d h.1, lookup-insert k j v d)
