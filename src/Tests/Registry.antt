-- ===== src/Tests/Registry.antt =====
-- The registries of the managers: a party of two under the id 1, and a solo player.
use cpp_matchmaking_mvp.Common.{
  ℕ, ◌≡◌, refl, true, none, some, List, [], ◌∷◌, contains, if◌then◌else◌, ◌==◌,
}
use cpp_matchmaking_mvp.Registry.{
  Registry, empty_registry, insert_entry, insert_players, erase_entry, find_by_player,
}
use cpp_matchmaking_mvp.Registry.Invariant.{
  IsIndexed, empty-IsIndexed, insert_entry-IsIndexed, erase_entry-IsIndexed,
}
use cpp_matchmaking_mvp.Registry.Lookup.{find_by_player-insert_entry, find_by_player-erase_entry}

abbrev party_and_solo : ℕ → List ℕ
party_and_solo p = if p == 100 then 7 ∷ 8 ∷ [] else 9 ∷ []

abbrev with_party : Registry
with_party = record { entries = (1, 100) ∷ []; by_player = (7, 1) ∷ (8, 1) ∷ [] }

inserting_party : insert_entry 1 100 (party_and_solo 100) empty_registry ≡ (with_party, true)
unfolding insert_entry insert_players
inserting_party = refl

with_party-IsIndexed : IsIndexed party_and_solo with_party
with_party-IsIndexed =
    let h =
      insert_entry-IsIndexed party_and_solo 1 100 empty_registry (empty-IsIndexed party_and_solo) in
    rw inserting_party at h

inserting_solo : (insert_entry 2 200 (party_and_solo 200) with_party).1 ≡ true
unfolding insert_entry insert_players
inserting_solo = refl

insert_entry-IsIndexed_example :
    IsIndexed party_and_solo (insert_entry 2 200 (party_and_solo 200) with_party).0
insert_entry-IsIndexed_example =
    insert_entry-IsIndexed party_and_solo 2 200 with_party with_party-IsIndexed

erase_entry-IsIndexed_example : IsIndexed party_and_solo (erase_entry party_and_solo 1 with_party).0
erase_entry-IsIndexed_example =
    erase_entry-IsIndexed party_and_solo 1 with_party with_party-IsIndexed

find_by_player-insert_entry_example :
    find_by_player 9 (insert_entry 2 200 (party_and_solo 200) with_party).0
    ≡ (if contains 9 (party_and_solo 200) then some 200 else find_by_player 9 with_party)
find_by_player-insert_entry_example =
    find_by_player-insert_entry party_and_solo 2 200 9 with_party with_party-IsIndexed
      inserting_solo

find_by_player-erase_entry_example :
    find_by_player 8 (erase_entry party_and_solo 1 with_party).0
    ≡ (if contains 8 (party_and_solo 100) then none else find_by_player 8 with_party)
find_by_player-erase_entry_example =
    find_by_player-erase_entry party_and_solo 1 100 8 with_party with_party-IsIndexed refl
