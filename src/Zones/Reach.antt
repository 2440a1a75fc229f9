-- ===== src/Zones/Reach.antt =====
-- The instance manager of MM/integration/IntegrationZoneInstanceManager.cpp as a step relation: the
-- calls and the closures of its worker, in any order and at any times.
use cpp_matchmaking_mvp.Common.{
  ℕ, ◌≡◌, refl, sym, ap, ◌∙◌, Bool, some, List, [], ◌∷◌, Bool-cases, Option-cases, inl, inr, ltb, ℤ,
}
use cpp_matchmaking_mvp.Types.{IntegrationZoneInstanceInfo}
use cpp_matchmaking_mvp.SafeMap.{find, nat_eq, values}
use cpp_matchmaking_mvp.SafeMap.Laws.{find-assign}
use cpp_matchmaking_mvp.Penalty.{PenaltyManager}
use cpp_matchmaking_mvp.Zones.{
  ZoneKey, zone_key_eq, eqb_zone_key, eqb_zone_key_iff, Zone, make_zone_manager, get_expire_time,
  expire, ZoneManager, schedule, erase_zone, insert_zone, find_zone, put_zone, find_zone_by_player,
  erase_by_player, is_closed_by, close_zones, process_server_closed, process_server_closed_async,
  process_zone_expire_async, process_player_leave, process_player_leaved, process_zone_info_updated,
  process_zone_terminated,
}
use cpp_matchmaking_mvp.Zones.Index.{NoDangling}
use cpp_matchmaking_mvp.Zones.Invariant.{erase_zone-NoDangling, insert_zone-NoDangling}
use cpp_matchmaking_mvp.Zones.Leave.{
  erase_by_player-NoDangling, process_player_leaved-zones, process_zone_terminated-NoDangling,
}

-- One call or one closure of the worker.
pub data ZoneStep : ZoneManager → ZoneManager → Type 0 where
  inserting :
      (now : ℕ) (info : IntegrationZoneInstanceInfo) {m : ZoneManager}
      → ZoneStep m (insert_zone now info m).0
  erasing : (z : ZoneKey) {m : ZoneManager} → ZoneStep m (erase_zone z m).0
  erasing_player : (k : ℕ) {m : ZoneManager} → ZoneStep m (erase_by_player k m).0
  server_closing :
      (now : ℕ) (session_key world_no : ℤ) {m : ZoneManager}
      → ZoneStep m (process_server_closed now session_key world_no m)
  server_closed_async :
      (session_key world_no : ℤ) {m : ZoneManager}
      → ZoneStep m (process_server_closed_async session_key world_no m)
  expiring :
      (now : ℕ) (z : ZoneKey) {m : ZoneManager} → ZoneStep m (process_zone_expire_async now z m)
  leaving :
      (now k : ℕ) (is_dodge : Bool) {m : ZoneManager}
      → ZoneStep m (process_player_leave now k is_dodge m).0
  leaved :
      (now k : ℕ) (is_dodge : Bool) (p : PenaltyManager) {m : ZoneManager}
      → ZoneStep m (process_player_leaved now k is_dodge m p).0
  updating :
      (now : ℕ) (z : ZoneKey) (info : IntegrationZoneInstanceInfo) {m : ZoneManager}
      → ZoneStep m (process_zone_info_updated now z info m)
  terminating :
      (now : ℕ) (info : IntegrationZoneInstanceInfo) (p : PenaltyManager) {m : ZoneManager}
      → ZoneStep m (process_zone_terminated now info m p).0

pub data Reachable : ZoneManager → Type 0 where
  start : Reachable make_zone_manager
  then_step : {m m' : ZoneManager} → Reachable m → ZoneStep m m' → Reachable m'

schedule-NoDangling :
    (t : ℕ) (z : ZoneKey) (m : ZoneManager) → NoDangling m → NoDangling (schedule t (expire z) m)
schedule-NoDangling t z m good = record { keyed = good.keyed; leads = good.leads }

close_zones-NoDangling :
    (session_key world_no : ℤ) (zs : List Zone) (m : ZoneManager)
    → NoDangling m
    → NoDangling (close_zones session_key world_no zs m)
unfolding close_zones
close_zones-NoDangling s w [] m good = good
close_zones-NoDangling s w (zone ∷ rest) m good = elim (Bool-cases (is_closed_by s w zone)) [
  | inl closed ↦ rw closed (
      close_zones-NoDangling s w rest (erase_zone zone.key m).0
        (erase_zone-NoDangling zone.key m good))
  | inr kept ↦ rw kept (close_zones-NoDangling s w rest m good)
]

process_zone_expire_async-NoDangling :
    (now : ℕ) (z : ZoneKey) (m : ZoneManager)
    → NoDangling m
    → NoDangling (process_zone_expire_async now z m)
unfolding process_zone_expire_async
process_zone_expire_async-NoDangling now z m good = elim (Option-cases (find_zone z m)) [
  | inl missing ↦ rw (missing, process_zone_expire_async) good
  | inr (zone, found) ↦ elim (Bool-cases (ltb now (get_expire_time zone))) [
    | inl early ↦
        rw (found, early, process_zone_expire_async)
          (schedule-NoDangling (get_expire_time zone) zone.key m good)
    | inr late ↦ rw (found, late, process_zone_expire_async) (erase_zone-NoDangling z m good)
  ]
]

process_player_leave-NoDangling :
    (now k : ℕ) (is_dodge : Bool) (m : ZoneManager)
    → NoDangling m
    → NoDangling (process_player_leave now k is_dodge m).0
unfolding process_player_leave
process_player_leave-NoDangling now k is_dodge m good =
    elim (Option-cases (find_zone_by_player k m)) [
      | inl missing ↦ rw (missing, process_player_leave) good
      | inr (zone, found) ↦
          rw (found, process_player_leave) (record { keyed = good.keyed; leads = good.leads })
    ]

-- A change of an instance that keeps its key and its players.
put_zone-NoDangling :
    (old new : Zone) (m : ZoneManager)
    → NoDangling m
    → find old.key m.zones ≡ some old
    → new.key ≡ old.key
    → new.sessions ≡ old.sessions
    → NoDangling (put_zone new m)
put_zone-NoDangling old new m good found same_key same_players = record {
  keyed = λ y w e. elim (Bool-cases (eqb_zone_key new.key y)) [
    | inl hit ↦
        (let same = (eqb_zone_key_iff new.key y).0 hit in
          let e' = find-assign new.key y new m.zones in cc)
    | inr miss ↦ good.keyed y w (let e' = find-assign new.key y new m.zones in cc)
  ];
  leads = λ k y e.
      let (w, w_found, listed) = good.leads k y e in
      let e' = find-assign new.key y new m.zones in
      elim (Bool-cases (eqb_zone_key new.key y)) [
        | inl hit ↦
            (let at_old =
                ap (λ x. find x m.zones) (sym same_key ∙ (eqb_zone_key_iff new.key y).0 hit) in
              (new, (cc), (cc)))
        | inr miss ↦ (w, (cc), listed)
      ];
}

process_zone_info_updated-NoDangling :
    (now : ℕ) (z : ZoneKey) (info : IntegrationZoneInstanceInfo) (m : ZoneManager)
    → NoDangling m
    → NoDangling (process_zone_info_updated now z info m)
unfolding process_zone_info_updated
process_zone_info_updated-NoDangling now z info m good = elim (Option-cases (find_zone z m)) [
  | inl missing ↦ rw (missing, process_zone_info_updated) good
  | inr (zone, found) ↦
      rw (found, process_zone_info_updated)
        (put_zone-NoDangling zone (record zone { info = info; update_time_msec = now }) m good
          (ap (λ x. find x m.zones) (good.keyed z zone found) ∙ found) refl refl)
]

step-NoDangling : {m m' : ZoneManager} → ZoneStep m m' → NoDangling m → NoDangling m'
unfolding process_server_closed process_server_closed_async
step-NoDangling {m} (inserting now info) good = insert_zone-NoDangling now info m good
step-NoDangling {m} (erasing z) good = erase_zone-NoDangling z m good
step-NoDangling {m} (erasing_player k) good = erase_by_player-NoDangling k m good
step-NoDangling {m} (server_closing now s w) good = record {
  keyed = good.keyed;
  leads = good.leads;
}
step-NoDangling {m} (server_closed_async s w) good =
    close_zones-NoDangling s w (values m.zones) m good
step-NoDangling {m} (expiring now z) good = process_zone_expire_async-NoDangling now z m good
step-NoDangling {m} (leaving now k is_dodge) good =
    process_player_leave-NoDangling now k is_dodge m good
step-NoDangling {m} (leaved now k is_dodge p) good =
    rw (process_player_leaved-zones now k is_dodge m p) (erase_by_player-NoDangling k m good)
step-NoDangling {m} (updating now z info) good =
    process_zone_info_updated-NoDangling now z info m good
step-NoDangling {m} (terminating now info p) good =
    process_zone_terminated-NoDangling now info m p good

-- In every state that the manager reaches, an entry of the index of players leads to an instance
-- that is in the map under its own key and lists the player.
pub Reachable-NoDangling : (m : ZoneManager) → Reachable m → NoDangling m
Reachable-NoDangling m start = record {
  keyed = λ z zone e. absurd (cc);
  leads = λ k z e. absurd (cc);
}
Reachable-NoDangling m' (then_step {m} before step) =
    step-NoDangling step (Reachable-NoDangling m before)
