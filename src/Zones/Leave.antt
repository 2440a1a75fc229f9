-- ===== src/Zones/Leave.antt =====
-- A player leaves an instance: `EraseByPlayerKey` and its callers in
-- MM/integration/IntegrationZoneInstanceManager.cpp.
use cpp_matchmaking_mvp.Common.{
  ℕ, ◌≡◌, refl, sym, ap, ◌∙◌, Bool, true, false, not, none, some, List, [], ◌∷◌, ◌==◌,
  if◌then◌else◌, contains, arith, Bool-cases, Option-cases, inl, inr,
}
use cpp_matchmaking_mvp.Types.{IntegrationZoneInstanceInfo}
use cpp_matchmaking_mvp.SafeMap.{nat_eq, find, safe_erase}
use cpp_matchmaking_mvp.SafeMap.Laws.{find-assign, safe_erase-find}
use cpp_matchmaking_mvp.Penalty.{PenaltyManager}
use cpp_matchmaking_mvp.Zones.{
  ZoneKey, zone_key_eq, eqb_zone_key, eqb_zone_key_iff, Zone, key_of, ZoneManager, erase_zone,
  find_zone, put_zone, remove_key, remove_player_session, is_empty, find_zone_by_player,
  erase_by_player, process_player_leaved, leave_all, process_zone_terminated,
}
use cpp_matchmaking_mvp.Zones.Index.{NoDangling, erase_zone-find}
use cpp_matchmaking_mvp.Zones.Invariant.{erase_zone-NoDangling}

contains-remove_key :
    (k j : ℕ) (ks : List ℕ)
    → contains k (remove_key j ks) ≡ (if j == k then false else contains k ks)
contains-remove_key k j [] = ground arith
contains-remove_key k j (i ∷ ks) = ground (arith, contains-remove_key k j ks)

is_empty-contains : (k : ℕ) (ks : List ℕ) → is_empty ks ≡ true → contains k ks ≡ false
is_empty-contains k [] e = refl
is_empty-contains k (_ ∷ _) e = absurd (cc)

still_indexed :
    (k j : ℕ) (z : ZoneKey) (m : List (ℕ × ZoneKey))
    → find j (safe_erase k m).0 ≡ some z
    → ((k == j) ≡ false) × (find j m ≡ some z)
still_indexed k j z m e =
    let gone = (safe_erase-find k j m).1 in
    elim (Bool-cases (k == j)) [ inl hit ↦ absurd (cc) | inr miss ↦ (miss, (cc)) ]

-- The invariant is about lookups only.
NoDangling-by-lookups :
    (m m' : ZoneManager)
    → ((z : ZoneKey) → find z m'.zones ≡ find z m.zones)
    → ((k : ℕ) → find k m'.by_player ≡ find k m.by_player)
    → NoDangling m
    → NoDangling m'
NoDangling-by-lookups m m' zones players good = record {
  keyed = λ z zone e. good.keyed z zone (sym (zones z) ∙ e);
  leads = λ k z e.
      let (zone, found, listed) = good.leads k z (sym (players k) ∙ e) in
      (zone, zones z ∙ found, listed);
}

-- What is left when a player has gone from the instance and from the index.
abbrev without_player : ℕ → Zone → ZoneManager → ZoneManager
without_player k zone m = record (put_zone (remove_player_session k zone) m) {
  by_player = (safe_erase k m.by_player).0;
}

without_player-NoDangling :
    (k : ℕ) (zone : Zone) (m : ZoneManager)
    → NoDangling m
    → find zone.key m.zones ≡ some zone
    → NoDangling (without_player k zone m)
unfolding remove_player_session
without_player-NoDangling k zone m good found = record {
  keyed = λ y w e. elim (Bool-cases (eqb_zone_key zone.key y)) [
    | inl hit ↦
        (let same = (eqb_zone_key_iff zone.key y).0 hit in
          let e' = find-assign zone.key y (remove_player_session k zone) m.zones in cc)
    | inr miss ↦
        good.keyed y w
          (let e' = find-assign zone.key y (remove_player_session k zone) m.zones in cc)
  ];
  leads = λ j y e.
      let (other, was) = still_indexed k j y m.by_player e in
      let (w, w_found, listed) = good.leads j y was in
      let e' = find-assign zone.key y (remove_player_session k zone) m.zones in
      elim (Bool-cases (eqb_zone_key zone.key y)) [
        | inl hit ↦
            (let same = ap (λ x. find x m.zones) ((eqb_zone_key_iff zone.key y).0 hit) in
              (
                remove_player_session k zone,
                (cc),
                (let dropped = contains-remove_key j k zone.sessions in cc),
              ))
        | inr miss ↦ (w, (cc), listed)
      ];
}

-- `EraseByPlayerKey` on a player whom the index leads to `zone`.
abbrev pub after_leave : ℕ → Zone → ZoneManager → ZoneManager
after_leave k zone m =
    let zone' = remove_player_session k zone in
    let left = put_zone zone' m in
    let kept = if is_empty zone'.sessions then (erase_zone zone'.key left).0 else left in
    record kept { by_player = (safe_erase k kept.by_player).0 }

erase_by_player-found :
    (k : ℕ) (zone : Zone) (m : ZoneManager)
    → find_zone_by_player k m ≡ some zone
    → erase_by_player k m ≡ (after_leave k zone m, some (remove_player_session k zone))
unfolding erase_by_player
erase_by_player-found k zone m e = rw (e, erase_by_player)

erase_by_player-missing :
    (k : ℕ) (m : ZoneManager) → find_zone_by_player k m ≡ none → erase_by_player k m ≡ (m, none)
unfolding erase_by_player
erase_by_player-missing k m e = rw (e, erase_by_player)

-- The instance that the index leads to is in the map under its own key.
pub find_zone_by_player-keyed :
    (k : ℕ) (zone : Zone) (m : ZoneManager)
    → NoDangling m
    → find_zone_by_player k m ≡ some zone
    → (find k m.by_player ≡ some zone.key) × (find zone.key m.zones ≡ some zone)
unfolding find_zone_by_player
find_zone_by_player-keyed k zone m good e = elim (Option-cases (find k m.by_player)) [
  | inl gone ↦ absurd (let e' = rw (gone, find_zone_by_player) at e in cc)
  | inr (z, led) ↦
      (let e' = rw (led, find_zone_by_player) at e in
        let key = good.keyed z zone e' in
        (led ∙ ap some (sym key), ap (λ x. find x m.zones) key ∙ e'))
]

find-put_zone : (zone : Zone) (m : ZoneManager) → find zone.key (put_zone zone m).zones ≡ some zone
find-put_zone zone m =
    let e = find-assign zone.key zone.key zone m.zones in
    let same = (eqb_zone_key_iff zone.key zone.key).1 refl in cc

-- Whether the erased instance was taken from the index before or after makes no difference: it
-- has no player left.
emptied-players :
    (k j : ℕ) (zone : Zone) (m : ZoneManager)
    → is_empty (remove_player_session k zone).sessions ≡ true
    → find j
        (safe_erase k
          (erase_zone zone.key (put_zone (remove_player_session k zone) m)).0.by_player).0
      ≡ find j (erase_zone zone.key (without_player k zone m)).0.by_player
unfolding remove_player_session
emptied-players k j zone m none_left =
    let zone' = remove_player_session k zone in
    let put = find-put_zone zone' m in
    let gone = is_empty-contains j zone'.sessions none_left in
    let here = (erase_zone-find zone.key (put_zone zone' m) zone.key j).2 in
    let there = (erase_zone-find zone.key (without_player k zone m) zone.key j).2 in
    let out = (safe_erase-find k j (erase_zone zone.key (put_zone zone' m)).0.by_player).1 in
    let first = (safe_erase-find k j m.by_player).1 in
    let here' = rw (put, gone) at here in let there' = rw (put, gone) at there in cc

after_leave-NoDangling :
    (k : ℕ) (zone : Zone) (m : ZoneManager)
    → NoDangling m
    → find zone.key m.zones ≡ some zone
    → NoDangling (after_leave k zone m)
unfolding remove_player_session
after_leave-NoDangling k zone m good found =
    let zone' = remove_player_session k zone in
    let base = without_player-NoDangling k zone m good found in
    elim (Bool-cases (is_empty zone'.sessions)) [
      | inr some_left ↦ rw some_left base
      | inl none_left ↦ rw none_left (
          NoDangling-by-lookups (erase_zone zone.key (without_player k zone m)).0
            (let kept = (erase_zone zone'.key (put_zone zone' m)).0 in
              record kept { by_player = (safe_erase k kept.by_player).0 })
            (λ y.
              (erase_zone-find zone.key (put_zone zone' m) y 0).1
              ∙ sym (erase_zone-find zone.key (without_player k zone m) y 0).1)
            (λ j. emptied-players k j zone m none_left)
            (erase_zone-NoDangling zone.key (without_player k zone m) base))
    ]

-- `EraseByPlayerKey` leaves no dangling entry, whether or not the player was the last one.
pub erase_by_player-NoDangling :
    (k : ℕ) (m : ZoneManager) → NoDangling m → NoDangling (erase_by_player k m).0
erase_by_player-NoDangling k m good = elim (Option-cases (find_zone_by_player k m)) [
  | inl missing ↦ rw (erase_by_player-missing k m missing) good
  | inr (zone, found) ↦
      rw (erase_by_player-found k zone m found)
        (after_leave-NoDangling k zone m good (find_zone_by_player-keyed k zone m good found).1)
]

-- `Process_PlayerLeaved_FromIntegrationServer` does to the instances what `EraseByPlayerKey` does.
pub process_player_leaved-zones :
    (now k : ℕ) (is_dodge : Bool) (m : ZoneManager) (p : PenaltyManager)
    → (process_player_leaved now k is_dodge m p).0 ≡ (erase_by_player k m).0
unfolding process_player_leaved
process_player_leaved-zones now k is_dodge m p = elim (Option-cases (erase_by_player k m).1) [
  | inl missing ↦ rw (missing, process_player_leaved) refl
  | inr (zone, found) ↦ rw (found, process_player_leaved) refl
]

leave_all-NoDangling :
    (now : ℕ) (paid ks : List ℕ) (m : ZoneManager) (p : PenaltyManager)
    → NoDangling m
    → NoDangling (leave_all now paid ks m p).0
unfolding leave_all
leave_all-NoDangling now paid [] m p good = good
leave_all-NoDangling now paid (k ∷ ks) m p good =
    let (m', p') = process_player_leaved now k (not (contains k paid)) m p in
    leave_all-NoDangling now paid ks m' p' (
      rw (process_player_leaved-zones now k (not (contains k paid)) m p)
        (erase_by_player-NoDangling k m good))

-- The termination of an instance leaves no dangling entry.
pub process_zone_terminated-NoDangling :
    (now : ℕ) (info : IntegrationZoneInstanceInfo) (m : ZoneManager) (p : PenaltyManager)
    → NoDangling m
    → NoDangling (process_zone_terminated now info m p).0
unfolding process_zone_terminated
process_zone_terminated-NoDangling now info m p good =
    elim (Option-cases (find_zone (key_of info) m)) [
      | inl missing ↦ rw (missing, process_zone_terminated) good
      | inr (zone, found) ↦
          rw (found, process_zone_terminated)
            (erase_zone-NoDangling (key_of info)
              (leave_all now info.paid_players info.players m p).0
              (leave_all-NoDangling now info.paid_players info.players m p good))
    ]
