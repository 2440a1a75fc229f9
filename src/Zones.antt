-- ===== src/Zones.antt =====
-- MM/integration/IntegrationZoneInstance.h and .cpp, IntegrationZoneInstanceManager.h and .cpp.
-- An instance is shared only through the map, so the model keeps it there by value. The methods
-- that read the clock take `now`.
pub mod Index
pub mod Invariant
pub mod Leave
pub mod Reach
pub mod Lifetime
use cpp_matchmaking_mvp.Common.{
  ℕ, ◌+◌, ℤ, eqb_ℤ, eqb_ℤ_iff, ◌≡◌, ◌↔◌, is_negative, Bool, true, false, not, ◌&&◌, ◌||◌, Option,
  none, some, List, [], ◌∷◌, ◌==◌, if◌then◌else◌, ltb, contains, Dict, lookup, insert, erase, arith,
  ==_iff,
}
use cpp_matchmaking_mvp.Types.{IntegrationZoneInstanceInfo}
use cpp_matchmaking_mvp.SafeMap.{Eq, nat_eq, find, assign, safe_insert, safe_erase, values}
use cpp_matchmaking_mvp.Jobs.{Group, make_group, do_async_job}
use cpp_matchmaking_mvp.Penalty.{PenaltyManager, add_dodge_penalty}

-- `IntegrationZoneInstanceKey`
pub record ZoneKey : Type 0 where
  pub world_no : ℤ
  pub zone_guid : ℕ

abbrev pub eqb_zone_key : ZoneKey → ZoneKey → Bool
eqb_zone_key a b = eqb_ℤ a.world_no b.world_no && a.zone_guid == b.zone_guid

pub eqb_zone_key_iff : (a b : ZoneKey) → (eqb_zone_key a b ≡ true) ↔ (a ≡ b)
eqb_zone_key_iff a b =
    ground (arith, eqb_ℤ_iff a.world_no b.world_no, ==_iff a.zone_guid b.zone_guid)

instance abbrev pub zone_key_eq : Eq ZoneKey
zone_key_eq = record { beq = eqb_zone_key; beq_iff = eqb_zone_key_iff }

-- `CIntegrationZoneInstance`; `sessions` are the keys of `m_PlayerSessions`.
pub record Zone : Type 0 where
  pub key : ZoneKey
  pub world_session_key : ℤ
  pub zone_id : ℕ
  pub sessions : List ℕ
  pub info : IntegrationZoneInstanceInfo
  pub update_time_msec : ℕ

-- `kExpireDelayMsec`
abbrev pub expire_delay_msec : ℕ
expire_delay_msec = 10000

abbrev pub key_of : IntegrationZoneInstanceInfo → ZoneKey
key_of info = record { world_no = info.world_no; zone_guid = info.zone_guid }

-- The constructor.
unfoldable pub make_zone : (now : ℕ) → IntegrationZoneInstanceInfo → Zone
make_zone now info = record {
  key = key_of info;
  world_session_key = info.world_session_key;
  zone_id = info.zone_id;
  sessions = info.players;
  info = info;
  update_time_msec = now;
}

-- `GetExpireTimeMsec`
abbrev pub get_expire_time : Zone → ℕ
get_expire_time z = z.update_time_msec + expire_delay_msec

abbrev pub remove_key : ℕ → List ℕ → List ℕ
remove_key k [] = []
remove_key k (j ∷ ks) = if k == j then remove_key k ks else j ∷ remove_key k ks

-- `RemovePlayerSession`
unfoldable pub remove_player_session : ℕ → Zone → Zone
remove_player_session k z = record z { sessions = remove_key k z.sessions }

-- `EmptyPlayerSession`
abbrev pub is_empty : List ℕ → Bool
is_empty [] = true
is_empty (_ ∷ _) = false

-- The closures that the manager hands to its worker.
pub data ZoneJob : Type 0 where
  expire : ZoneKey → ZoneJob
  server_closed : (session_key world_no : ℤ) → ZoneJob
  player_leaved : (player : ℕ) (is_dodge : Bool) → ZoneJob

-- `CIntegrationZoneInstanceManager`
pub record ZoneManager : Type 0 where
  pub zones : List (ZoneKey × Zone)
  pub by_player : List (ℕ × ZoneKey)
  pub jobs : Group ZoneJob
  pub is_running : Bool

abbrev pub make_zone_manager : ZoneManager
make_zone_manager = record { zones = []; by_player = []; jobs = make_group 1; is_running = false }

abbrev pub schedule : (time : ℕ) → ZoneJob → ZoneManager → ZoneManager
schedule t j m = record m { jobs = (do_async_job t j m.jobs).0 }

-- The inner loop of `Insert`: what is inserted before a key that is taken stays.
unfoldable pub insert_zone_players :
    ZoneKey → (players : List ℕ) → List (ℕ × ZoneKey) → List (ℕ × ZoneKey) × Bool
insert_zone_players z [] m = (m, true)
insert_zone_players z (k ∷ ks) m =
    let (m', done) = safe_insert k z false m in
    let rest = insert_zone_players z ks m' in if done then rest else (m', false)

-- The inner loop of `Erase`.
unfoldable pub erase_zone_players : (players : List ℕ) → List (ℕ × ZoneKey) → List (ℕ × ZoneKey)
erase_zone_players [] m = m
erase_zone_players (k ∷ ks) m = erase_zone_players ks (safe_erase k m).0

-- `Erase`
unfoldable pub erase_zone : ZoneKey → ZoneManager → ZoneManager × Option Zone
erase_zone z m = elim (find z m.zones) [
  | none ↦ (m, none)
  | some zone ↦ (
    record m {
      zones = (safe_erase z m.zones).0;
      by_player = erase_zone_players zone.sessions m.by_player;
    },
    some zone,
  )
]

-- The part of `Insert` that runs under the lock of the map.
unfoldable pub try_insert_zone : Zone → ZoneManager → ZoneManager × Bool
try_insert_zone zone m =
    let (zones, done) = safe_insert zone.key zone false m.zones in
    let (by_player, all_done) = insert_zone_players zone.key zone.sessions m.by_player in
    if done then (record m { zones = zones; by_player = by_player }, all_done) else (m, false)

-- `Insert`
unfoldable pub insert_zone :
    (now : ℕ) → IntegrationZoneInstanceInfo → ZoneManager → ZoneManager × Option Zone
insert_zone now info m =
    let zone = make_zone now info in
    let (m', inserted) = try_insert_zone zone m in
    if inserted
    then (schedule (get_expire_time zone) (expire zone.key) m', some zone)
    else ((erase_zone zone.key m').0, none)

-- `Find`
abbrev pub find_zone : ZoneKey → ZoneManager → Option Zone
find_zone z m = find z m.zones

-- `FindByPlayerKey`
unfoldable pub find_zone_by_player : ℕ → ZoneManager → Option Zone
find_zone_by_player k m = elim (find k m.by_player) [ none ↦ none | some z ↦ find_zone z m ]

-- The instance in the map after a method has changed it.
abbrev pub put_zone : Zone → ZoneManager → ZoneManager
put_zone zone m = record m { zones = assign zone.key zone m.zones }

-- `EraseByPlayerKey`
unfoldable pub erase_by_player : ℕ → ZoneManager → ZoneManager × Option Zone
erase_by_player k m = elim (find_zone_by_player k m) [
  | none ↦ (m, none)
  | some zone ↦
      (let zone' = remove_player_session k zone in
        let left = put_zone zone' m in
        let kept = if is_empty zone'.sessions then (erase_zone zone'.key left).0 else left in
        (record kept { by_player = (safe_erase k kept.by_player).0 }, some zone'))
]

-- `Process_IntegrationServerClosed`
unfoldable pub process_server_closed :
    (now : ℕ) (session_key world_no : ℤ) → ZoneManager → ZoneManager
process_server_closed now session_key world_no = schedule now (server_closed session_key world_no)

-- The test of one instance in `Process_IntegrationServerClosedAsync`.
abbrev pub is_closed_by : (session_key world_no : ℤ) → Zone → Bool
is_closed_by session_key world_no zone =
    eqb_ℤ zone.key.world_no world_no
    && not (is_negative zone.world_session_key || is_negative session_key)
    && eqb_ℤ zone.world_session_key session_key

-- Its loop, over the snapshot that `DoAll` takes.
unfoldable pub close_zones : (session_key world_no : ℤ) → List Zone → ZoneManager → ZoneManager
close_zones session_key world_no [] m = m
close_zones session_key world_no (zone ∷ rest) m =
    close_zones session_key world_no rest
      (if is_closed_by session_key world_no zone then (erase_zone zone.key m).0 else m)

-- `Process_IntegrationServerClosedAsync`
unfoldable pub process_server_closed_async : (session_key world_no : ℤ) → ZoneManager → ZoneManager
process_server_closed_async session_key world_no m =
    close_zones session_key world_no (values m.zones) m

-- `Process_ZoneInstanceExpireAsync`
unfoldable pub process_zone_expire_async : (now : ℕ) → ZoneKey → ZoneManager → ZoneManager
process_zone_expire_async now z m = elim (find_zone z m) [
  | none ↦ m
  | some zone ↦
      if ltb now (get_expire_time zone)
      then schedule (get_expire_time zone) (expire zone.key) m
      else (erase_zone z m).0
]

-- `Process_PlayerLeave_ToIntegrationServer`
unfoldable pub process_player_leave :
    (now player : ℕ) (is_dodge : Bool) → ZoneManager → ZoneManager × Bool
process_player_leave now k is_dodge m = elim (find_zone_by_player k m) [
  | none ↦ (m, false)
  | some _ ↦ (schedule now (player_leaved k is_dodge) m, true)
]

-- `Process_PlayerLeaved_FromIntegrationServer`
unfoldable pub process_player_leaved :
    (now player : ℕ) (is_dodge : Bool) → ZoneManager → PenaltyManager → ZoneManager × PenaltyManager
process_player_leaved now k is_dodge m p =
    let (m', erased) = erase_by_player k m in
    elim erased [
      | none ↦ (m', p)
      | some _ ↦ (m', if is_dodge then add_dodge_penalty k (now + 15000) p else p)
    ]

-- `Process_ZoneInstanceInfoUpdated_FromIntegrationServer`
unfoldable pub process_zone_info_updated :
    (now : ℕ) → ZoneKey → IntegrationZoneInstanceInfo → ZoneManager → ZoneManager
process_zone_info_updated now z info m = elim (find_zone z m) [
  | none ↦ m
  | some zone ↦ put_zone (record zone { info = info; update_time_msec = now }) m
]

-- The loop of `Process_ZoneInstanceTerminated_FromIntegrationServer`: who has not paid, dodged.
unfoldable pub leave_all :
    (now : ℕ) (paid players : List ℕ) → ZoneManager → PenaltyManager → ZoneManager × PenaltyManager
leave_all now paid [] m p = (m, p)
leave_all now paid (k ∷ ks) m p =
    let (m', p') = process_player_leaved now k (not (contains k paid)) m p in
    leave_all now paid ks m' p'

-- `Process_ZoneInstanceTerminated_FromIntegrationServer`
unfoldable pub process_zone_terminated :
    (now : ℕ)
    → IntegrationZoneInstanceInfo
    → ZoneManager
    → PenaltyManager
    → ZoneManager × PenaltyManager
process_zone_terminated now info m p = elim (find_zone (key_of info) m) [
  | none ↦ (m, p)
  | some _ ↦
      (let (m', p') = leave_all now info.paid_players info.players m p in
        ((erase_zone (key_of info) m').0, p'))
]
