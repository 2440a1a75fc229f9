-- ===== src/Zones/Index.antt =====
-- Lookups of the instance manager, and when its index of players has no dangling entry.
use cpp_matchmaking_mvp.Common.{
  ℕ, ◌≡◌, ◌⊎◌, refl, true, Option, none, some, List, [], ◌∷◌, ◌==◌, if◌then◌else◌, contains, arith,
  Bool-cases, Option-cases, inl, inr,
}
use cpp_matchmaking_mvp.SafeMap.{nat_eq, find, assign, safe_erase}
use cpp_matchmaking_mvp.SafeMap.Laws.{find-assign, safe_insert-cases, safe_erase-find}
use cpp_matchmaking_mvp.Zones.{
  ZoneKey, zone_key_eq, eqb_zone_key, eqb_zone_key_iff, Zone, ZoneManager, insert_zone_players,
  erase_zone_players, erase_zone,
}

pub find-erase_zone_players :
    (k : ℕ) (ks : List ℕ) (m : List (ℕ × ZoneKey))
    → find k (erase_zone_players ks m) ≡ (if contains k ks then none else find k m)
unfolding erase_zone_players
find-erase_zone_players k [] m = refl
find-erase_zone_players k (j ∷ ks) m =
    ground (arith, find-erase_zone_players k ks (safe_erase j m).0, (safe_erase-find j k m).1)

-- Where an entry of the index comes from, after the loop of `Insert`.
pub insert_zone_players-origin :
    (z : ZoneKey) (ks : List ℕ) (m : List (ℕ × ZoneKey)) (k : ℕ) (y : ZoneKey)
    → find k (insert_zone_players z ks m).0 ≡ some y
    → ((y ≡ z) × (contains k ks ≡ true)) ⊎ (find k m ≡ some y)
unfolding insert_zone_players
insert_zone_players-origin z [] m k y h = inr h
insert_zone_players-origin z (j ∷ ks) m k y h = elim (safe_insert-cases j z m) [
  | inr (w, taken, e) ↦ inr (rw e at h)
  | inl (free, e) ↦ elim (insert_zone_players-origin z ks (assign j z m) k y (rw e at h)) [
    | inl (same, listed) ↦ inl (same, ground arith)
    | inr old ↦ elim (Bool-cases (j == k)) [
      | inl hit ↦ inl (ground (arith, find-assign j k z m), ground arith)
      | inr miss ↦ inr (ground (arith, find-assign j k z m))
    ]
  ]
]

pub record NoDangling (m : ZoneManager) : Type 0 where
  pub keyed : (z : ZoneKey) (zone : Zone) → find z m.zones ≡ some zone → zone.key ≡ z
  pub leads :
      (k : ℕ) (z : ZoneKey)
      → find k m.by_player ≡ some z
      → (zone : Zone) × (find z m.zones ≡ some zone) × (contains k zone.sessions ≡ true)

abbrev pub sessions_of : Option Zone → List ℕ
sessions_of none = []
sessions_of (some zone) = zone.sessions

-- What `Erase` does to lookups.
pub erase_zone-find :
    (z : ZoneKey) (m : ZoneManager) (y : ZoneKey) (k : ℕ)
    → ((erase_zone z m).1 ≡ find z m.zones)
      × (find y (erase_zone z m).0.zones ≡ (if eqb_zone_key z y then none else find y m.zones))
      × (find k (erase_zone z m).0.by_player
          ≡ (if contains k (sessions_of (find z m.zones)) then none else find k m.by_player))
unfolding erase_zone
erase_zone-find z m y k = elim (Option-cases (find z m.zones)) [
  | inl missing ↦
      rw (missing, erase_zone)
        (
          refl,
          elim (Bool-cases (eqb_zone_key z y)) [
            | inl hit ↦ rw hit (rw (← (eqb_zone_key_iff z y).0 hit) missing)
            | inr miss ↦ rw miss
          ],
          refl,
        )
  | inr (zone, found) ↦
      rw (found, erase_zone)
        (refl, (safe_erase-find z y m.zones).1, find-erase_zone_players k zone.sessions m.by_player)
]
