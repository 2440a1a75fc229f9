-- ===== src/Registry/Outcome.antt =====
-- What an insertion and an erasure do to the lookups of a registry.
use cpp_matchmaking_mvp.Common.{
  ℕ, ◌≡◌, refl, sym, ap, Bool, true, false, Option, none, some, List, [], ◌==◌, ==_iff,
  if◌then◌else◌, Dict, lookup, insert, erase, lookup-insert, lookup-erase, contains, arith,
  Bool-cases, Option-cases, inl, inr,
}
use cpp_matchmaking_mvp.Registry.{
  Registry, insert_players, release_players, commit_players, insert_entry, erase_entry,
}
use cpp_matchmaking_mvp.Registry.Players.{
  insert_players-fails, insert_players-succeeds, kept, lookup-release_players,
}

-- The two ways that an insertion may end.
pub insert_entry-taken :
    (id ptr old : ℕ) (ks : List ℕ) (r : Registry)
    → lookup id r.entries ≡ some old
    → insert_entry id ptr ks r ≡ (r, false)
unfolding insert_entry
insert_entry-taken id ptr old ks r e = rw (e, insert_entry)

insert_entry-free :
    (id ptr : ℕ) (ks : List ℕ) (r : Registry)
    → lookup id r.entries ≡ none
    → insert_entry id ptr ks r ≡ commit_players id ptr r (insert_players id [] ks r.by_player)
unfolding insert_entry
insert_entry-free id ptr ks r e = rw (e, insert_entry)

-- What an insertion has done, by how it ended.
pub record Inserted (id ptr : ℕ) (ks : List ℕ) (r r' : Registry) : Type 0 where
  pub was_free : lookup id r.entries ≡ none
  pub players_free : (k : ℕ) → contains k ks ≡ true → lookup k r.by_player ≡ none
  pub entry : (j : ℕ) → lookup j r'.entries ≡ (if id == j then some ptr else lookup j r.entries)
  pub players :
      (k : ℕ) → lookup k r'.by_player ≡ (if contains k ks then some id else lookup k r.by_player)

pub record Unchanged (r r' : Registry) : Type 0 where
  pub entry : (j : ℕ) → lookup j r'.entries ≡ lookup j r.entries
  pub players : (k : ℕ) → lookup k r'.by_player ≡ lookup k r.by_player

abbrev pub InsertOutcome : (id ptr : ℕ) (ks : List ℕ) (r : Registry) → Registry × Bool → Type 0
InsertOutcome id ptr ks r (r', true) = Inserted id ptr ks r r'
InsertOutcome id ptr ks r (r', false) = Unchanged r r'

commit_players-InsertOutcome :
    (id ptr : ℕ) (ks : List ℕ) (r : Registry) (m : Dict ℕ) (done : Bool)
    → lookup id r.entries ≡ none
    → insert_players id [] ks r.by_player ≡ (m, done)
    → InsertOutcome id ptr ks r (commit_players id ptr r (m, done))
commit_players-InsertOutcome id ptr ks r m true free e =
    let ok : (insert_players id [] ks r.by_player).1 ≡ true = ap (λ t. t.1) e in
    let all = insert_players-succeeds id [] ks r.by_player ok in
    record {
      was_free = free;
      players_free = λ k. (all k).1;
      entry = λ j. lookup-insert id j ptr r.entries;
      players = λ k. rw e at (all k).0;
    }
commit_players-InsertOutcome id ptr ks r m false free e =
    let failed : (insert_players id [] ks r.by_player).1 ≡ false = ap (λ t. t.1) e in
    record {
      entry = λ j. undone j;
      players = λ k. rw e at (insert_players-fails id ks r.by_player failed k);
    }
  where
    undone : (j : ℕ) → lookup j (erase id (insert id ptr r.entries)) ≡ lookup j r.entries
    undone j = elim (Bool-cases (id == j)) [
      | inl hit ↦ ground (
        arith,
        lookup-erase id j (insert id ptr r.entries),
        ap (λ (t : ℕ). lookup t r.entries) ((==_iff id j).0 hit),
      )
      | inr miss ↦
          ground
            (arith, lookup-erase id j (insert id ptr r.entries), lookup-insert id j ptr r.entries)
    ]

-- An insertion adds the object under its id and its players, none of whom led anywhere; or it fails
-- and changes no lookup.
pub insert_entry-InsertOutcome :
    (id ptr : ℕ) (ks : List ℕ) (r : Registry) → InsertOutcome id ptr ks r (insert_entry id ptr ks r)
insert_entry-InsertOutcome id ptr ks r = elim (Option-cases (lookup id r.entries)) [
  | inl free ↦
      rw (insert_entry-free id ptr ks r free)
        (commit_players-InsertOutcome id ptr ks r _ _ free refl)
  | inr (old, taken) ↦
      rw (insert_entry-taken id ptr old ks r taken)
        (record { entry = λ j. refl; players = λ k. refl })
]

abbrev pub ptr_keys : (keys : ℕ → List ℕ) → Option ℕ → List ℕ
ptr_keys keys none = []
ptr_keys keys (some ptr) = keys ptr

-- What an erasure has done.
pub record Erased (keys : ℕ → List ℕ) (id : ℕ) (r r' : Registry) : Type 0 where
  pub entry : (j : ℕ) → lookup j r'.entries ≡ (if id == j then none else lookup j r.entries)
  pub players :
      (k : ℕ)
      → lookup k r'.by_player
        ≡ kept id (contains k (ptr_keys keys (lookup id r.entries))) (lookup k r.by_player)

erase_entry-found :
    (keys : ℕ → List ℕ) (id ptr : ℕ) (r : Registry)
    → lookup id r.entries ≡ some ptr
    → erase_entry keys id r ≡ (
      record {
        entries = erase id r.entries;
        by_player = release_players id (keys ptr) r.by_player;
      },
      some ptr,
    )
unfolding erase_entry
erase_entry-found keys id ptr r e = rw (e, erase_entry)

erase_entry-missing :
    (keys : ℕ → List ℕ) (id : ℕ) (r : Registry)
    → lookup id r.entries ≡ none
    → erase_entry keys id r ≡ (r, none)
unfolding erase_entry
erase_entry-missing keys id r e = rw (e, erase_entry)

kept-false : (id : ℕ) (o : Option ℕ) → o ≡ kept id false o
kept-false id none = refl
kept-false id (some i) = refl

-- An erasure takes the object and the players that led to it, and returns it.
pub erase_entry-Erased :
    (keys : ℕ → List ℕ) (id : ℕ) (r : Registry)
    → Erased keys id r (erase_entry keys id r).0 × ((erase_entry keys id r).1 ≡ lookup id r.entries)
erase_entry-Erased keys id r = elim (Option-cases (lookup id r.entries)) [
  | inl missing ↦ rw (erase_entry-missing keys id r missing) (
    record {
      entry = λ j. same missing j;
      players = λ k. rw missing (kept-false id (lookup k r.by_player));
    },
    sym missing,
  )
  | inr (ptr, found) ↦ rw (erase_entry-found keys id ptr r found) (
    record {
      entry = λ j. lookup-erase id j r.entries;
      players = λ k. rw found (lookup-release_players id k (keys ptr) r.by_player);
    },
    sym found,
  )
]
  where
    same :
        lookup id r.entries ≡ none
        → (j : ℕ) → lookup j r.entries ≡ (if id == j then none else lookup j r.entries)
    same missing j = elim (Bool-cases (id == j)) [
      | inl hit ↦ ground (arith, ap (λ (t : ℕ). lookup t r.entries) ((==_iff id j).0 hit))
      | inr miss ↦ rw miss
    ]
