-- ===== src/Zones/Invariant.antt =====
-- `Insert` and `Erase` of MM/integration/IntegrationZoneInstanceManager.cpp and the index of
-- players.
use cpp_matchmaking_mvp.Common.{ℕ, sym, ap, ◌∙◌, contains, Bool-cases, inl, inr}
use cpp_matchmaking_mvp.Types.{IntegrationZoneInstanceInfo}
use cpp_matchmaking_mvp.SafeMap.{nat_eq, find}
use cpp_matchmaking_mvp.SafeMap.Laws.{find-assign, safe_insert-cases}
use cpp_matchmaking_mvp.Zones.{
  ZoneKey, zone_key_eq, eqb_zone_key, eqb_zone_key_iff, Zone, make_zone, ZoneManager, erase_zone,
  try_insert_zone, insert_zone,
}
use cpp_matchmaking_mvp.Zones.Index.{
  insert_zone_players-origin, NoDangling, sessions_of, erase_zone-find,
}

-- `Erase` leaves no dangling entry.
pub erase_zone-NoDangling :
    (z : ZoneKey) (m : ZoneManager) → NoDangling m → NoDangling (erase_zone z m).0
erase_zone-NoDangling z m good = record {
  keyed = λ y zone e. elim (Bool-cases (eqb_zone_key z y)) [
    | inl hit ↦ absurd (let e' = (erase_zone-find z m y 0).1 in cc)
    | inr miss ↦ good.keyed y zone (let e' = (erase_zone-find z m y 0).1 in cc)
  ];
  leads = λ k y e. elim (Bool-cases (contains k (sessions_of (find z m.zones)))) [
    | inl listed ↦ absurd (let e' = (erase_zone-find z m y k).2 in cc)
    | inr free ↦
        (let (zone, found, listed) = good.leads k y (let e' = (erase_zone-find z m y k).2 in cc) in
          (
            zone,
            elim (Bool-cases (eqb_zone_key z y)) [
              | inl hit ↦ absurd (
                  let same = (eqb_zone_key_iff z y).0 hit in
                  let found' = ap sessions_of (ap (λ x. find x m.zones) same ∙ found) in cc)
              | inr miss ↦ (let e' = (erase_zone-find z m y k).1 in cc)
            ],
            listed,
          ))
  ];
}

-- The invariant of the part of `Insert` that holds the lock, however it ends.
pub try_insert_zone-NoDangling :
    (zone : Zone) (m : ZoneManager) → NoDangling m → NoDangling (try_insert_zone zone m).0
unfolding try_insert_zone
try_insert_zone-NoDangling zone m good = elim (safe_insert-cases zone.key zone m.zones) [
  | inr (w, taken, e) ↦ rw e good
  | inl (free, e) ↦ rw e (record {
    keyed = λ y w h. elim (Bool-cases (eqb_zone_key zone.key y)) [
      | inl hit ↦
          (let same = (eqb_zone_key_iff zone.key y).0 hit in
            let h' = find-assign zone.key y zone m.zones in cc)
      | inr miss ↦ good.keyed y w (let h' = find-assign zone.key y zone m.zones in cc)
    ];
    leads = λ k y h. elim (insert_zone_players-origin zone.key zone.sessions m.by_player k y h) [
      | inl (same, listed) ↦ (
        zone,
        (let h' = find-assign zone.key y zone m.zones in
            let hit = (eqb_zone_key_iff zone.key y).1 (sym same) in cc),
        listed,
      )
      | inr old ↦
          (let (w, found, listed) = good.leads k y old in
            (
              w,
              elim (Bool-cases (eqb_zone_key zone.key y)) [
                | inl hit ↦ absurd (
                    let same = ap (λ x. find x m.zones) ((eqb_zone_key_iff zone.key y).0 hit) in cc)
                | inr miss ↦ (let h' = find-assign zone.key y zone m.zones in cc)
              ],
              listed,
            ))
    ];
  })
]

-- `Insert` leaves no dangling entry, whether it succeeds, finds its key taken or stops at a player
-- who is in another instance.
pub insert_zone-NoDangling :
    (now : ℕ) (info : IntegrationZoneInstanceInfo) (m : ZoneManager)
    → NoDangling m
    → NoDangling (insert_zone now info m).0
unfolding insert_zone
insert_zone-NoDangling now info m good =
    let tried = try_insert_zone-NoDangling (make_zone now info) m good in
    elim (Bool-cases (try_insert_zone (make_zone now info) m).1) [
      | inl done ↦ rw done (record { keyed = tried.keyed; leads = tried.leads })
      | inr failed ↦ rw failed (
          erase_zone-NoDangling (make_zone now info).key (try_insert_zone (make_zone now info) m).0
            tried)
    ]
