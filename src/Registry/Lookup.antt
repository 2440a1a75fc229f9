-- ===== src/Registry/Lookup.antt =====
-- A registry as a partial map from players to objects.
use cpp_matchmaking_mvp.Common.{
  ℕ, ◌≡◌, sym, ◌∙◌, Bool, true, false, none, some, List, ◌==◌, ==_iff, if◌then◌else◌, lookup,
  contains, arith, Bool-cases, Option-cases, inl, inr,
}
use cpp_matchmaking_mvp.Registry.{Registry, insert_entry, erase_entry, find_by_player}
use cpp_matchmaking_mvp.Registry.Players.{kept}
use cpp_matchmaking_mvp.Registry.Invariant.{IsIndexed, insert_entry-IsIndexed}
use cpp_matchmaking_mvp.Registry.Outcome.{
  Inserted, Erased, InsertOutcome, insert_entry-InsertOutcome, erase_entry-Erased,
}

find_by_player-none :
    (k : ℕ) (r : Registry) → lookup k r.by_player ≡ none → find_by_player k r ≡ none
unfolding find_by_player
find_by_player-none k r e = rw (e, find_by_player)

find_by_player-some :
    (k id : ℕ) (r : Registry)
    → lookup k r.by_player ≡ some id
    → find_by_player k r ≡ lookup id r.entries
unfolding find_by_player
find_by_player-some k id r e = rw (e, find_by_player)

-- In a registry whose maps agree, a player that leads to an id always finds an object, and the
-- object lists the player.
pub find_by_player-listed :
    (keys : ℕ → List ℕ) (k p : ℕ) (r : Registry)
    → IsIndexed keys r
    → find_by_player k r ≡ some p
    → contains k (keys p) ≡ true
find_by_player-listed keys k p r v e = elim (Option-cases (lookup k r.by_player)) [
  | inl missing ↦ absurd (cc (find_by_player-none k r missing))
  | inr (id, at_id) ↦
      let (q, found, has) = v.leads k id at_id in
      let same : q ≡ p = cc (find_by_player-some k id r at_id) in rw same at has
]

-- Whoever an object on file lists finds that object.
pub listed-find_by_player :
    (keys : ℕ → List ℕ) (k id p : ℕ) (r : Registry)
    → IsIndexed keys r
    → lookup id r.entries ≡ some p
    → contains k (keys p) ≡ true
    → find_by_player k r ≡ some p
listed-find_by_player keys k id p r v e c = find_by_player-some k id r (v.listed k id p e c) ∙ e

Inserted-find_by_player :
    (keys : ℕ → List ℕ) (id ptr k : ℕ) (r r' : Registry)
    → IsIndexed keys r
    → IsIndexed keys r'
    → Inserted id ptr (keys ptr) r r'
    → find_by_player k r' ≡ (if contains k (keys ptr) then some ptr else find_by_player k r)
Inserted-find_by_player keys id ptr k r r' v v' n = elim (Bool-cases (contains k (keys ptr))) [
  | inl mine ↦ rw mine (listed-find_by_player keys k id ptr r' v' (ground (arith, n.entry id)) mine)
  | inr other ↦ rw other (elim (Option-cases (lookup k r.by_player)) [
    | inl missing ↦
        find_by_player-none k r' (n.players k ∙ rw other missing)
        ∙ sym (find_by_player-none k r missing)
    | inr (i, at_i) ↦
        let (p, found, _) = v.leads k i at_i in
        find_by_player-some k i r' (n.players k ∙ rw other at_i)
        ∙ n.entry i
        ∙ rw (elsewhere i p found) (sym (find_by_player-some k i r at_i))
  ])
]
  where
    elsewhere : (i p : ℕ) → lookup i r.entries ≡ some p → (id == i) ≡ false
    elsewhere i p found = elim (Bool-cases (id == i)) [
      | inl hit ↦ let same : id ≡ i = (==_iff id i).0 hit in absurd (cc (n.was_free))
      | inr miss ↦ miss
    ]

-- Where the two maps agreed, after a successful insertion the players of the object find it, and
-- every other player finds what it found before.
pub find_by_player-insert_entry :
    (keys : ℕ → List ℕ) (id ptr k : ℕ) (r : Registry)
    → IsIndexed keys r
    → (insert_entry id ptr (keys ptr) r).1 ≡ true
    → find_by_player k (insert_entry id ptr (keys ptr) r).0
      ≡ (if contains k (keys ptr) then some ptr else find_by_player k r)
find_by_player-insert_entry keys id ptr k r v done =
    Inserted-find_by_player keys id ptr k r _ v (insert_entry-IsIndexed keys id ptr r v) (
      by_success (insert_entry id ptr (keys ptr) r) done
        (insert_entry-InsertOutcome id ptr (keys ptr) r))
  where
    by_success :
        (o : Registry × Bool)
        → o.1 ≡ true
        → InsertOutcome id ptr (keys ptr) r o
        → Inserted id ptr (keys ptr) r o.0
    by_success (r', true) e h = h
    by_success (r', false) e h = absurd (cc)

Erased-find_by_player :
    (keys : ℕ → List ℕ) (id ptr k : ℕ) (r r' : Registry)
    → IsIndexed keys r
    → lookup id r.entries ≡ some ptr
    → Erased keys id r r'
    → find_by_player k r' ≡ (if contains k (keys ptr) then none else find_by_player k r)
Erased-find_by_player keys id ptr k r r' v at_id n = elim (Bool-cases (contains k (keys ptr))) [
  | inl mine ↦ rw mine (
      find_by_player-none k r'
        (n.players k ∙ rw (at_id, mine, v.listed k id ptr at_id mine) (dropped id)))
  | inr other ↦ rw other (elim (Option-cases (lookup k r.by_player)) [
    | inl missing ↦
        find_by_player-none k r' (n.players k ∙ rw missing) ∙ sym (find_by_player-none k r missing)
    | inr (i, at_i) ↦
        let (p, found, has) = v.leads k i at_i in
        find_by_player-some k i r' (n.players k ∙ rw (at_id, other, at_i))
        ∙ n.entry i
        ∙ rw (elsewhere other i p found has) (sym (find_by_player-some k i r at_i))
  ])
]
  where
    dropped : (i : ℕ) → kept i true (some i) ≡ none
    dropped i = ground arith

    elsewhere :
        contains k (keys ptr) ≡ false
        → (i p : ℕ) → lookup i r.entries ≡ some p
        → contains k (keys p) ≡ true
        → (id == i) ≡ false
    elsewhere other i p found has = elim (Bool-cases (id == i)) [
      | inl hit ↦ let same : id ≡ i = (==_iff id i).0 hit in let one : p ≡ ptr = cc in absurd (cc)
      | inr miss ↦ miss
    ]

-- Where the two maps agreed, after the erasure of an object on file the players of the object find
-- nothing, and every other player finds what it found before.
pub find_by_player-erase_entry :
    (keys : ℕ → List ℕ) (id ptr k : ℕ) (r : Registry)
    → IsIndexed keys r
    → lookup id r.entries ≡ some ptr
    → find_by_player k (erase_entry keys id r).0
      ≡ (if contains k (keys ptr) then none else find_by_player k r)
find_by_player-erase_entry keys id ptr k r v at_id =
    Erased-find_by_player keys id ptr k r _ v at_id (erase_entry-Erased keys id r).0
