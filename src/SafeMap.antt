-- ===== src/SafeMap.antt =====
-- MM/common/TSafeMap.h: `TSafeMapBase` and `TSafeMap_Basic`, whose methods hold the map's own lock
-- throughout, so that each is one step. The callbacks that the program leaves empty are left out.
pub mod Laws
use cpp_matchmaking_mvp.Common.{
  ℕ, ◌≡◌, ◌↔◌, ℤ, eqb_ℤ, eqb_ℤ_iff, Bool, true, false, Option, none, some, List, [], ◌∷◌, ◌==◌,
  ==_iff, if◌then◌else◌, length,
}

pub record Eq (K : Type 0) : Type 0 where
  pub beq : K → K → Bool
  pub beq_iff : (a b : K) → (beq a b ≡ true) ↔ (a ≡ b)

instance abbrev pub nat_eq : Eq ℕ
nat_eq = record { beq = ◌==◌; beq_iff = ==_iff }

module _ {K V : Type 0} ⦃e : Eq K⦄ where
  -- `Find`
  abbrev pub find : K → List (K × V) → Option V
  find k [] = none
  find k ((j, v) ∷ m) = if e.beq k j then some v else find k m

  abbrev pub assign : K → V → List (K × V) → List (K × V)
  assign k v [] = (k, v) ∷ []
  assign k v ((j, w) ∷ m) = if e.beq k j then (k, v) ∷ m else (j, w) ∷ assign k v m

  abbrev pub remove : K → List (K × V) → List (K × V)
  remove k [] = []
  remove k ((j, v) ∷ m) = if e.beq k j then remove k m else (j, v) ∷ remove k m

  abbrev pub insert_at : K → V → (overwrite : Bool) → List (K × V) → Option V → List (K × V) × Bool
  insert_at k v overwrite m none = (assign k v m, true)
  insert_at k v true m (some w) = (assign k v m, true)
  insert_at k v false m (some w) = (m, false)

  -- `Insert`
  unfoldable pub safe_insert : K → V → (overwrite : Bool) → List (K × V) → List (K × V) × Bool
  safe_insert k v overwrite m = insert_at k v overwrite m (find k m)

  -- `Erase`, which returns what it erases.
  unfoldable pub safe_erase : K → List (K × V) → List (K × V) × Option V
  safe_erase k m = elim (find k m) [ none ↦ (m, none) | some v ↦ (remove k m, some v) ]

  -- The values in the order of the map, as `DoAll` takes its snapshot.
  abbrev pub values : List (K × V) → List V
  values [] = []
  values ((k, v) ∷ m) = v ∷ values m

  -- `GetCount`
  abbrev pub get_count : List (K × V) → ℕ
  get_count m = length m
