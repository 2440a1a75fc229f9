-- ===== src/Common/Maps.antt =====
-- Maps with unique keys as association lists in the order of their keys: `std::map`, and
-- `std::unordered_map` where the program does not read its order.
use Prim.Native.Nat.{ℕ, ◌<◌}
use mathlib.Core.Path.{◌≡◌, refl}
use mathlib.Core.Option.{Option, none, some}
use mathlib.Core.List.{List, [], ◌∷◌}
use native.Mathlib.Omega.{arith}
use cpp_matchmaking_mvp.Common.Tests.{◌==◌, ltb, if◌then◌else◌}

abbrev pub Dict {ℓ} : Type ℓ → Type ℓ
Dict V = List (ℕ × V)

module _ {ℓ} {V : Type ℓ} where
  -- `find`
  abbrev pub lookup : ℕ → Dict V → Option V
  lookup k [] = none
  lookup k ((j, v) ∷ m) = if k == j then some v else lookup k m

  -- `insert_or_assign`, and `emplace` where the key is absent
  abbrev pub insert : ℕ → V → Dict V → Dict V
  insert k v [] = (k, v) ∷ []
  insert k v ((j, w) ∷ m) =
      if k == j then (k, v) ∷ m else if ltb k j then (k, v) ∷ (j, w) ∷ m else (j, w) ∷ insert k v m

  -- `erase` by key
  abbrev pub erase : ℕ → Dict V → Dict V
  erase k [] = []
  erase k ((j, v) ∷ m) = if k == j then erase k m else (j, v) ∷ erase k m

  pub lookup-insert :
      (k j : ℕ) (v : V) (m : Dict V)
      → lookup j (insert k v m) ≡ (if k == j then some v else lookup j m)
  lookup-insert k j v [] = ground arith
  lookup-insert k j v ((i, w) ∷ m) = ground (arith, lookup-insert k j v m)

  pub lookup-erase :
      (k j : ℕ) (m : Dict V) → lookup j (erase k m) ≡ (if k == j then none else lookup j m)
  lookup-erase k j [] = ground arith
  lookup-erase k j ((i, w) ∷ m) = ground (arith, lookup-erase k j m)

  -- The keys of a map in order, each above `k`.
  abbrev pub Above : ℕ → Dict V → Type 0
  Above k [] = Unit
  Above k ((j, v) ∷ m) = (k < j) × Above j m

  -- A map whose keys stand in order, each once.
  abbrev pub IsOrdered : Dict V → Type 0
  IsOrdered [] = Unit
  IsOrdered ((j, v) ∷ m) = Above j m

  pub Above-mono : (i k : ℕ) (m : Dict V) → i < k → Above k m → Above i m
  Above-mono i k [] h a = tt
  Above-mono i k ((j, v) ∷ m) h a = (omega arith, a.1)

  pub Above-insert : (i k : ℕ) (v : V) (m : Dict V) → i < k → Above i m → Above i (insert k v m)
  Above-insert i k v [] h a = (h, tt)
  Above-insert i k v ((j, w) ∷ m) h a = ground (arith, Above-insert j k v m)

  pub IsOrdered-insert : (k : ℕ) (v : V) (m : Dict V) → IsOrdered m → IsOrdered (insert k v m)
  IsOrdered-insert k v [] a = tt
  IsOrdered-insert k v ((j, w) ∷ m) a = ground (arith, Above-insert j k v m)

  pub lookup-Above : (k : ℕ) (m : Dict V) → Above k m → lookup k m ≡ none
  lookup-Above k [] a = refl
  lookup-Above k ((j, v) ∷ m) a = ground (arith, lookup-Above k m (Above-mono k j m a.0 a.1))

  pub Above-IsOrdered : (k : ℕ) (m : Dict V) → Above k m → IsOrdered m
  Above-IsOrdered k [] a = tt
  Above-IsOrdered k ((j, v) ∷ m) a = a.1
