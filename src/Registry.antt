-- ===== src/Registry.antt =====
-- The two maps that the solo manager, the party manager and the session manager each keep: objects
-- by their id, and ids by player (`m_MatchTicketMap` with `m_MatchTicketFindMapByPlayerKey`, and
-- `m_MatchSessionMap` with `m_MatchSessionFindMapByPlayerKey`). The three files write the same
-- loops, which stand here once, over the pointers of the objects. `keys p` are the players of the
-- object at `p`.
pub mod Players
pub mod Outcome
pub mod Invariant
pub mod Lookup
use cpp_matchmaking_mvp.Common.{
  ℕ, Bool, true, false, Option, none, some, List, [], ◌∷◌, ◌++◌, ◌==◌, if◌then◌else◌, Dict, lookup,
  insert, erase, length,
}

pub record Registry : Type 0 where
  pub entries : Dict ℕ
  pub by_player : Dict ℕ

abbrev pub empty_registry : Registry
empty_registry = record { entries = []; by_player = [] }

-- `for (inserted_player_key : inserted_player_keys) map.erase(inserted_player_key);`
unfoldable pub erase_players : List ℕ → Dict ℕ → Dict ℕ
erase_players [] m = m
erase_players (k ∷ ks) m = erase_players ks (erase k m)

-- The loop over the players of a new object: a key that is taken undoes the loop.
unfoldable pub insert_players : (id : ℕ) (inserted keys : List ℕ) → Dict ℕ → Dict ℕ × Bool
insert_players id inserted [] m = (m, true)
insert_players id inserted (k ∷ ks) m =
    let rest = insert_players id (inserted ++ k ∷ []) ks (insert k id m) in
    elim (lookup k m) [ none ↦ rest | some _ ↦ (erase_players inserted m, false) ]

-- The body of the loop over the players of an object that goes: a key is erased if it leads to it.
unfoldable pub release_player : (id player : ℕ) → Dict ℕ → Dict ℕ
release_player id k m = elim (lookup k m) [ none ↦ m | some j ↦ if j == id then erase k m else m ]

unfoldable pub release_players : (id : ℕ) (keys : List ℕ) → Dict ℕ → Dict ℕ
release_players id [] m = m
release_players id (k ∷ ks) m = release_players id ks (release_player id k m)

abbrev pub commit_players : (id ptr : ℕ) (r : Registry) → Dict ℕ × Bool → Registry × Bool
commit_players id ptr r (m, true) =
    (record { entries = insert id ptr r.entries; by_player = m }, true)
commit_players id ptr r (m, false) =
    (record { entries = erase id (insert id ptr r.entries); by_player = m }, false)

-- `InsertMatchTicket` and `InsertMatchSession`
unfoldable pub insert_entry : (id ptr : ℕ) (keys : List ℕ) → Registry → Registry × Bool
insert_entry id ptr keys r = elim (lookup id r.entries) [
  | none ↦ commit_players id ptr r (insert_players id [] keys r.by_player)
  | some _ ↦ (r, false)
]

-- `EraseMatchTicket` and `EraseMatchSession`
unfoldable pub erase_entry : (keys : ℕ → List ℕ) (id : ℕ) → Registry → Registry × Option ℕ
erase_entry keys id r = elim (lookup id r.entries) [
  | none ↦ (r, none)
  | some ptr ↦ (
    record { entries = erase id r.entries; by_player = release_players id (keys ptr) r.by_player },
    some ptr,
  )
]

-- `FindMatchTicket` and `FindMatchSession`
abbrev pub find_entry : (id : ℕ) → Registry → Option ℕ
find_entry id r = lookup id r.entries

-- `FindMatchTicketByPlayerKey` and `FindMatchSessionByPlayerKey`
unfoldable pub find_by_player : (player : ℕ) → Registry → Option ℕ
find_by_player k r = elim (lookup k r.by_player) [ none ↦ none | some id ↦ find_entry id r ]
