-- ===== src/Registry/Players.antt =====
-- The loops over players, key by key.
use mathlib.Core.Bool.{false≢true}
use cpp_matchmaking_mvp.Common.{
  ℕ, ◌≡◌, refl, Bool, true, false, ◌||◌, ◌&&◌, Option, none, some, List, [], ◌∷◌, ◌++◌, ◌==◌,
  if◌then◌else◌, Dict, lookup, insert, erase, lookup-insert, lookup-erase, contains,
  contains-append, arith, Option-cases, inl, inr,
}
use cpp_matchmaking_mvp.Registry.{erase_players, insert_players, release_player, release_players}

pub lookup-erase_players :
    (j : ℕ) (ks : List ℕ) (m : Dict ℕ)
    → lookup j (erase_players ks m) ≡ (if contains j ks then none else lookup j m)
unfolding erase_players
lookup-erase_players j [] m = refl
lookup-erase_players j (k ∷ ks) m =
    ground (arith, lookup-erase_players j ks (erase k m), lookup-erase k j m)

insert_players-taken :
    (id k v : ℕ) (inserted ks : List ℕ) (m : Dict ℕ)
    → lookup k m ≡ some v
    → insert_players id inserted (k ∷ ks) m ≡ (erase_players inserted m, false)
unfolding insert_players
insert_players-taken id k v inserted ks m e = rw (e, insert_players)

insert_players-free :
    (id k : ℕ) (inserted ks : List ℕ) (m : Dict ℕ)
    → lookup k m ≡ none
    → insert_players id inserted (k ∷ ks) m
      ≡ insert_players id (inserted ++ k ∷ []) ks (insert k id m)
unfolding insert_players
insert_players-free id k inserted ks m e = rw (e, insert_players)

-- A loop that fails leaves the map that it began with.
insert_players-undo :
    (id : ℕ) (inserted ks : List ℕ) (m before : Dict ℕ)
    → ((j : ℕ) → lookup j (erase_players inserted m) ≡ lookup j before)
    → (insert_players id inserted ks m).1 ≡ false
    → (j : ℕ) → lookup j (insert_players id inserted ks m).0 ≡ lookup j before
unfolding insert_players
insert_players-undo id inserted [] m before same h j = cc
insert_players-undo id inserted (k ∷ ks) m before same h j = elim (Option-cases (lookup k m)) [
  | inr (v, taken) ↦ rw (insert_players-taken id k v inserted ks m taken) (same j)
  | inl free ↦
      let step = insert_players-free id k inserted ks m free in
      rw step (
        insert_players-undo id (inserted ++ k ∷ []) ks (insert k id m) before (λ i. undone i free)
          (rw step at h) j)
]
  where
    undone :
        (i : ℕ)
        → lookup k m ≡ none
        → lookup i (erase_players (inserted ++ k ∷ []) (insert k id m)) ≡ lookup i before
    undone i free = ground (
      arith,
      same i,
      lookup-erase_players i (inserted ++ k ∷ []) (insert k id m),
      lookup-erase_players i inserted m,
      lookup-insert k i id m,
      contains-append i inserted (k ∷ []),
    )

pub insert_players-fails :
    (id : ℕ) (ks : List ℕ) (m : Dict ℕ)
    → (insert_players id [] ks m).1 ≡ false
    → (j : ℕ) → lookup j (insert_players id [] ks m).0 ≡ lookup j m
unfolding erase_players
insert_players-fails id ks m = insert_players-undo id [] ks m m (λ j. refl)

-- A loop that succeeds adds the players, who were all free.
pub insert_players-succeeds :
    (id : ℕ) (inserted ks : List ℕ) (m : Dict ℕ)
    → (insert_players id inserted ks m).1 ≡ true
    → (j : ℕ)
    → (lookup j (insert_players id inserted ks m).0
        ≡ (if contains j ks then some id else lookup j m))
      × (contains j ks ≡ true → lookup j m ≡ none)
unfolding insert_players
insert_players-succeeds id inserted [] m h j = (refl, λ e. cc)
insert_players-succeeds id inserted (k ∷ ks) m h j = elim (Option-cases (lookup k m)) [
  | inr (v, taken) ↦ absurd (false≢true (rw (insert_players-taken id k v inserted ks m taken) at h))
  | inl free ↦
      let step = insert_players-free id k inserted ks m free in
      let later =
        insert_players-succeeds id (inserted ++ k ∷ []) ks (insert k id m) (rw step at h) j in
      rw step (added free later.0, was_free free later.1)
]
  where
    added :
        lookup k m ≡ none
        → lookup j (insert_players id (inserted ++ k ∷ []) ks (insert k id m)).0
          ≡ (if contains j ks then some id else lookup j (insert k id m))
        → lookup j (insert_players id (inserted ++ k ∷ []) ks (insert k id m)).0
          ≡ (if contains j (k ∷ ks) then some id else lookup j m)
    added free e = ground (arith, lookup-insert k j id m)

    was_free :
        lookup k m ≡ none
        → (contains j ks ≡ true → lookup j (insert k id m) ≡ none)
        → contains j (k ∷ ks) ≡ true
        → lookup j m ≡ none
    was_free free f c = ground (arith, lookup-insert k j id m)

-- What is left of an entry when the loop has passed over its player (`hit`) or not.
abbrev pub kept : (id : ℕ) (hit : Bool) → Option ℕ → Option ℕ
kept id hit none = none
kept id hit (some i) = if hit && i == id then none else some i

lookup-release_player :
    (id j k : ℕ) (m : Dict ℕ) → lookup j (release_player id k m) ≡ kept id (j == k) (lookup j m)
unfolding release_player
lookup-release_player id j k m = ground (arith, lookup-erase k j m)

kept-kept : (id : ℕ) (a b : Bool) (o : Option ℕ) → kept id b (kept id a o) ≡ kept id (a || b) o
kept-kept id a b none = refl
kept-kept id a b (some i) = ground arith

-- The loop takes the players' entries that lead to the object, and no others.
pub lookup-release_players :
    (id j : ℕ) (ks : List ℕ) (m : Dict ℕ)
    → lookup j (release_players id ks m) ≡ kept id (contains j ks) (lookup j m)
unfolding release_players
lookup-release_players id j [] m = ground arith
lookup-release_players id j (k ∷ ks) m =
    rw (lookup-release_players id j ks (release_player id k m), lookup-release_player id j k m)
      (kept-kept id (j == k) (contains j ks) (lookup j m))
