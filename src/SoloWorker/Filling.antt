-- ===== src/SoloWorker/Filling.antt =====
-- MM/matching/workers/SoloMatchmakingWorker.cpp: the loop that fills the progressing list.
use cpp_matchmaking_mvp.Common.{
  ℕ, suc, ◌≤◌, ◌<◌, ◌≡◌, ◌⊎◌, refl, ap, Bool, true, ◌||◌, some, [], ◌∷◌, ◌++◌, ◌==◌, ==_iff, All,
  Among, has_value, lookup-insert, leb, length, Dict, lookup, insert, arith, Bool-cases,
  Option-cases, inl, inr,
}
use cpp_matchmaking_mvp.SoloWorker.{fill}
use cpp_matchmaking_mvp.Request.{Request, emplace}

length-insert : (k : ℕ) (r : Request) (m : Dict Request) → length (insert k r m) ≤ suc (length m)
length-insert k r [] = omega arith
length-insert k r ((j, v) ∷ m) = ground (arith, length-insert k r m)

length-emplace :
    (k : ℕ) (r : Request) (m : Dict Request) → length (emplace k r m).0 ≤ suc (length m)
length-emplace k r m = elim (Option-cases (lookup k m)) [
  | inl free ↦ rw (free, emplace) (length-insert k r m)
  | inr (old, taken) ↦ rw (taken, emplace) (omega arith)
]

-- How the loop ends: the list is just full, or all who wait are on it and it is not over-full.
abbrev pub Filled : (limit : ℕ) (waiting progressing : Dict Request) → Type 0
Filled limit waiting p = (length p ≡ limit) ⊎ ((waiting ≡ []) × (length p < limit))

-- A request that is offered is on the list then, or another of its id is; what is on the list stays, and
-- nothing else joins.
emplace-has_value :
    (k : ℕ) (r : Request) (m : Dict Request) → has_value (lookup k (emplace k r m).0) ≡ true
emplace-has_value k r m = elim (Option-cases (lookup k m)) [
  | inl free ↦ rw (free, emplace) (ground (arith, lookup-insert k k r m))
  | inr (old, taken) ↦ rw (taken, emplace) (rw taken refl)
]

emplace-kept :
    (k j : ℕ) (r q : Request) (m : Dict Request)
    → lookup j m ≡ some q
    → lookup j (emplace k r m).0 ≡ some q
emplace-kept k j r q m e = elim (Option-cases (lookup k m)) [
  | inl free ↦
      rw (free, emplace)
        (elim (Bool-cases (k == j)) [
          | inl hit ↦ let same : k ≡ j = (==_iff k j).0 hit in absurd (cc)
          | inr miss ↦ rw (lookup-insert k j r m, miss) e
        ])
  | inr (old, taken) ↦ rw (taken, emplace) e
]

emplace-from :
    (k j : ℕ) (r q : Request) (m : Dict Request)
    → lookup j (emplace k r m).0 ≡ some q
    → (lookup j m ≡ some q) ⊎ (q ≡ r)
emplace-from k j r q m e = elim (Option-cases (lookup k m)) [
  | inr (old, taken) ↦ inl (rw (taken, emplace) at e)
  | inl free ↦
      let e' : lookup j (insert k r m) ≡ some q = rw (free, emplace) at e in
      ground (arith, lookup-insert k j r m)
]

-- What has been taken from the waiting queue to the list: its first requests, in one piece. Each is on
-- the list, or another of its id is; what was on the list is there, and nothing else is.
abbrev pub Taken : (waiting progressing waiting' progressing' : Dict Request) → Type 0
Taken waiting p waiting' p' =
    (moved : Dict Request) × (waiting ≡ moved ++ waiting')
    × All (λ e. has_value (lookup e.1.ticket_id p') ≡ true) moved
    × ((k : ℕ) (r : Request) → lookup k p ≡ some r → lookup k p' ≡ some r)
    × ((k : ℕ) (r : Request)
        → lookup k p' ≡ some r
        → (lookup k p ≡ some r) ⊎ ((id : ℕ) × Among (id, r) moved))

has_value-kept :
    (k : ℕ) (m m' : Dict Request)
    → ((j : ℕ) (r : Request) → lookup j m ≡ some r → lookup j m' ≡ some r)
    → has_value (lookup k m) ≡ true
    → has_value (lookup k m') ≡ true
has_value-kept k m m' kept h = elim (Option-cases (lookup k m)) [
  | inl missing ↦ absurd (cc (rw missing at h))
  | inr (r, found) ↦ rw (kept k r found) refl
]

Taken-next :
    (id : ℕ) (r : Request) (waiting p waiting' p' : Dict Request)
    → Taken waiting (emplace r.ticket_id r p).0 waiting' p'
    → Taken ((id, r) ∷ waiting) p waiting' p'
Taken-next id r waiting p waiting' p' (moved, e, listed, kept, from) = (
  (id, r) ∷ moved,
  ap (λ l. (id, r) ∷ l) e,
  (
    has_value-kept r.ticket_id (emplace r.ticket_id r p).0 p' kept
        (emplace-has_value r.ticket_id r p),
    listed,
  ),
  λ k q at_k. kept k q (emplace-kept r.ticket_id k r q p at_k),
  λ k q at_k. elim (from k q at_k) [
    | inr (j, among) ↦ inr (j, inr among)
    | inl before ↦ elim (emplace-from r.ticket_id k r q p before) [
      | inl old ↦ inl old
      | inr new ↦ inr (id, inl (rw new refl))
    ]
  ],
)

Taken-none : (waiting p : Dict Request) → Taken waiting p waiting p
Taken-none waiting p = ([], refl, tt, λ k r e. e, λ k r e. inl e)

abbrev FillOutcome :
    (limit : ℕ) (waiting progressing : Dict Request) → Dict Request × Dict Request × Bool → Type 0
FillOutcome limit waiting p (waiting', p', sent) =
    Taken waiting p waiting' p' × Filled limit waiting' p'

pub fill-FillOutcome :
    (limit : ℕ) (waiting p : Dict Request) (sent : Bool)
    → length p ≤ limit
    → FillOutcome limit waiting p (fill limit waiting p sent)
unfolding fill
fill-FillOutcome limit [] p sent h = elim (Bool-cases (leb limit (length p))) [
  | inl full ↦ (Taken-none [] p, inl (ground arith))
  | inr short ↦ (Taken-none [] p, inr (refl, ground arith))
]
fill-FillOutcome limit ((id, r) ∷ rest) p sent h = elim (Bool-cases (leb limit (length p))) [
  | inl full ↦ rw full (Taken-none ((id, r) ∷ rest) p, inl (ground arith))
  | inr room ↦
      (let more = length-emplace r.ticket_id r p in
        let p1 = (emplace r.ticket_id r p).0 in
        let sent1 = sent || (emplace r.ticket_id r p).1 in
        let (taken, filled) = fill-FillOutcome limit rest p1 sent1 (ground arith) in
        rw room (Taken-next id r rest p _ _ taken, filled))
]
