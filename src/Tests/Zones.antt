-- ===== src/Tests/Zones.antt =====
-- MM/integration/IntegrationZoneInstanceManager.cpp: an instance of two players.
use cpp_matchmaking_mvp.Common.{◌≡◌, refl, pos, true, none, some, [], ◌∷◌, if◌then◌else◌}
use cpp_matchmaking_mvp.Types.{IntegrationZoneInstanceInfo}
use cpp_matchmaking_mvp.SafeMap.{find, safe_insert}
use cpp_matchmaking_mvp.Zones.{
  zone_key_eq, eqb_zone_key, key_of, make_zone, make_zone_manager, ZoneManager, insert_zone,
  try_insert_zone, insert_zone_players,
}
use cpp_matchmaking_mvp.Zones.Index.{NoDangling}
use cpp_matchmaking_mvp.Zones.Reach.{start, then_step, inserting, leaved, Reachable-NoDangling}
use cpp_matchmaking_mvp.Zones.Lifetime.{insert_zone-taken}
use cpp_matchmaking_mvp.Zones.{process_player_leaved}
use cpp_matchmaking_mvp.Penalty.{make_penalty_manager}

abbrev dungeon : IntegrationZoneInstanceInfo
dungeon = record {
  zone_guid = 1;
  world_no = pos 1;
  world_session_key = pos 1;
  match_id = 1;
  zone_id = 0;
  players = 7 ∷ 8 ∷ [];
  enter_players = [];
  paid_players = 7 ∷ [];
}

abbrev with_dungeon : ZoneManager
with_dungeon = (insert_zone 1000 dungeon make_zone_manager).0

dungeon_found : find (key_of dungeon) with_dungeon.zones ≡ some (make_zone 1000 dungeon)
unfolding insert_zone try_insert_zone insert_zone_players safe_insert make_zone
dungeon_found = refl

Reachable-NoDangling_example :
    NoDangling (process_player_leaved 2000 8 true with_dungeon make_penalty_manager).0
Reachable-NoDangling_example =
    Reachable-NoDangling (process_player_leaved 2000 8 true with_dungeon make_penalty_manager).0 (
      then_step (then_step start (inserting 1000 dungeon))
        (leaved 2000 8 true make_penalty_manager))

insert_zone-taken_example :
    ((insert_zone 2000 dungeon with_dungeon).1 ≡ none)
    × (find (key_of dungeon) (insert_zone 2000 dungeon with_dungeon).0.zones ≡ (
        if eqb_zone_key (key_of dungeon) (key_of dungeon)
        then none
        else find (key_of dungeon) with_dungeon.zones))
insert_zone-taken_example =
    insert_zone-taken 2000 dungeon (make_zone 1000 dungeon) (key_of dungeon) with_dungeon
      dungeon_found
