-- ===== src/Zones/Lifetime.antt =====
-- When MM/integration/IntegrationZoneInstanceManager.cpp gives up an instance: the expiry check,
-- and an insertion under a key that is in use.
use cpp_matchmaking_mvp.Common.{
  ℕ, ◌≡◌, refl, true, false, none, some, if◌then◌else◌, Bool-cases, inl, inr, ltb, arith, ◌+◌, ◌<◌,
}
use cpp_matchmaking_mvp.Types.{IntegrationZoneInstanceInfo}
use cpp_matchmaking_mvp.SafeMap.{find}
use cpp_matchmaking_mvp.SafeMap.Laws.{safe_insert-cases}
use cpp_matchmaking_mvp.Zones.{
  ZoneKey, zone_key_eq, eqb_zone_key, Zone, key_of, make_zone, get_expire_time, ZoneManager,
  schedule, expire, try_insert_zone, insert_zone, process_zone_expire_async,
}
use cpp_matchmaking_mvp.Zones.Index.{erase_zone-find}

-- The expiry check of an instance on file keeps every instance as long as its time is not over, and
-- then takes that instance alone.
pub process_zone_expire_async-find :
    (now : ℕ) (z y : ZoneKey) (zone : Zone) (m : ZoneManager)
    → find z m.zones ≡ some zone
    → find y (process_zone_expire_async now z m).zones ≡ (
        if ltb now (zone.update_time_msec + 10000)
        then find y m.zones
        else if eqb_zone_key z y
        then none
        else find y m.zones)
unfolding process_zone_expire_async
process_zone_expire_async-find now z y zone m found =
    elim (Bool-cases (ltb now (get_expire_time zone))) [
      | inl early ↦ rw (found, early, process_zone_expire_async) refl
      | inr late ↦ rw (found, late, process_zone_expire_async) (erase_zone-find z m y 0).1
    ]

-- An expiry check that comes too early is scheduled again for the time at which the instance's
-- present lease ends.
pub process_zone_expire_async-schedules :
    (now : ℕ) (z : ZoneKey) (zone : Zone) (m : ZoneManager)
    → find z m.zones ≡ some zone
    → now < zone.update_time_msec + 10000
    → process_zone_expire_async now z m
      ≡ schedule (zone.update_time_msec + 10000) (expire zone.key) m
unfolding process_zone_expire_async
process_zone_expire_async-schedules now z zone m found early =
    let e : ltb now (get_expire_time zone) ≡ true = ground arith in
    rw (found, e, process_zone_expire_async) refl

try_insert_zone-taken :
    (zone old : Zone) (m : ZoneManager)
    → find zone.key m.zones ≡ some old
    → try_insert_zone zone m ≡ (m, false)
unfolding try_insert_zone
try_insert_zone-taken zone old m taken = elim (safe_insert-cases zone.key zone m.zones) [
  | inl (free, e) ↦ absurd (cc)
  | inr (w, found, e) ↦ rw e refl
]

-- An insertion under a key that is in use returns nothing, and takes the instance that was there
-- out of the map.
pub insert_zone-taken :
    (now : ℕ) (info : IntegrationZoneInstanceInfo) (old : Zone) (y : ZoneKey) (m : ZoneManager)
    → find (key_of info) m.zones ≡ some old
    → ((insert_zone now info m).1 ≡ none)
      × (find y (insert_zone now info m).0.zones
          ≡ (if eqb_zone_key (key_of info) y then none else find y m.zones))
unfolding insert_zone make_zone
insert_zone-taken now info old y m taken =
    rw (try_insert_zone-taken (make_zone now info) old m taken)
      (refl, (erase_zone-find (key_of info) m y 0).1)
