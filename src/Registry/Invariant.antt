-- ===== src/Registry/Invariant.antt =====
-- What it means that the two maps of a registry agree, and insertions and erasures.
use cpp_matchmaking_mvp.Common.{
  ℕ, ◌≡◌, refl, sym, ap, ◌∙◌, Bool, true, false, ◌&&◌, Option, none, some, List, ◌==◌, ==_iff,
  if◌then◌else◌, lookup, contains, arith, Bool-cases, inl, inr,
}
use cpp_matchmaking_mvp.Registry.{Registry, empty_registry, insert_entry, erase_entry}
use cpp_matchmaking_mvp.Registry.Players.{kept}
use cpp_matchmaking_mvp.Registry.Outcome.{
  Erased, InsertOutcome, Inserted, Unchanged, erase_entry-Erased, insert_entry-InsertOutcome,
  ptr_keys,
}

-- A player leads to the object that lists the player, and every listed player leads there.
pub record IsIndexed (keys : ℕ → List ℕ) (r : Registry) : Type 0 where
  pub leads :
      (k id : ℕ)
      → lookup k r.by_player ≡ some id
      → (ptr : ℕ) × (lookup id r.entries ≡ some ptr) × (contains k (keys ptr) ≡ true)
  pub listed :
      (k id ptr : ℕ)
      → lookup id r.entries ≡ some ptr
      → contains k (keys ptr) ≡ true
      → lookup k r.by_player ≡ some id

pub empty-IsIndexed : (keys : ℕ → List ℕ) → IsIndexed keys empty_registry
empty-IsIndexed keys = record {
  leads = λ k id e. absurd (cc);
  listed = λ k id ptr e c. absurd (cc);
}

Inserted-IsIndexed :
    (keys : ℕ → List ℕ) (id ptr : ℕ) (r r' : Registry)
    → IsIndexed keys r
    → Inserted id ptr (keys ptr) r r'
    → IsIndexed keys r'
Inserted-IsIndexed keys id ptr r r' v n = record { leads = leads; listed = listed }
  where
    leads :
        (k i : ℕ)
        → lookup k r'.by_player ≡ some i
        → (p : ℕ) × (lookup i r'.entries ≡ some p) × (contains k (keys p) ≡ true)
    leads k i e = elim (Bool-cases (contains k (keys ptr))) [
      | inl mine ↦ (ptr, ground (arith, n.players k, n.entry i), mine)
      | inr other ↦
          let (p, at_p, has) = v.leads k i (ground (arith, n.players k)) in
          (
            p,
            elim (Bool-cases (id == i)) [
              | inl hit ↦
                  ground
                    (arith, n.was_free, ap (λ (t : ℕ). lookup t r.entries) ((==_iff id i).0 hit))
              | inr miss ↦ ground (arith, n.entry i)
            ],
            has,
          )
    ]

    listed :
        (k i p : ℕ)
        → lookup i r'.entries ≡ some p
        → contains k (keys p) ≡ true
        → lookup k r'.by_player ≡ some i
    listed k i p e c = elim (Bool-cases (id == i)) [
      | inl hit ↦ ground (
        arith,
        n.entry i,
        n.players k,
        ap (λ (t : ℕ). contains k (keys t)) {x = p} {y = ptr} (ground (arith, n.entry i)),
      )
      | inr miss ↦
          let old = v.listed k i p (ground (arith, n.entry i)) c in
          ground (arith, n.players k, n.players_free k)
    ]

Unchanged-IsIndexed :
    (keys : ℕ → List ℕ) (r r' : Registry) → IsIndexed keys r → Unchanged r r' → IsIndexed keys r'
Unchanged-IsIndexed keys r r' v u = record {
  leads = λ k i e.
      let (p, at_p, has) = v.leads k i (sym (u.players k) ∙ e) in (p, u.entry i ∙ at_p, has);
  listed = λ k i p e c. u.players k ∙ v.listed k i p (sym (u.entry i) ∙ e) c;
}

InsertOutcome-IsIndexed :
    (keys : ℕ → List ℕ) (id ptr : ℕ) (r r' : Registry) (done : Bool)
    → IsIndexed keys r
    → InsertOutcome id ptr (keys ptr) r (r', done)
    → IsIndexed keys r'
InsertOutcome-IsIndexed keys id ptr r r' true v o = Inserted-IsIndexed keys id ptr r r' v o
InsertOutcome-IsIndexed keys id ptr r r' false v o = Unchanged-IsIndexed keys r r' v o

-- Two maps that agree still agree after an insertion, whether it succeeds or fails.
pub insert_entry-IsIndexed :
    (keys : ℕ → List ℕ) (id ptr : ℕ) (r : Registry)
    → IsIndexed keys r
    → IsIndexed keys (insert_entry id ptr (keys ptr) r).0
insert_entry-IsIndexed keys id ptr r v =
    InsertOutcome-IsIndexed keys id ptr r _ (insert_entry id ptr (keys ptr) r).1 v
      (insert_entry-InsertOutcome id ptr (keys ptr) r)

kept-some :
    (id i : ℕ) (hit : Bool) (o : Option ℕ)
    → kept id hit o ≡ some i
    → (o ≡ some i) × ((hit && i == id) ≡ false)
kept-some id i hit none e = absurd (cc)
kept-some id i hit (some j) e = ground arith

kept-some_ne :
    (id i : ℕ) (hit : Bool) (o : Option ℕ) → o ≡ some i → (id == i) ≡ false → kept id hit o ≡ some i
kept-some_ne id i hit none e ne = cc
kept-some_ne id i hit (some j) e ne = ground arith

guarded_some :
    (b : Bool) (p : ℕ) (o : Option ℕ)
    → (if b then none else o) ≡ some p
    → (b ≡ false) × (o ≡ some p)
guarded_some true p o e = absurd (cc)
guarded_some false p o e = (refl, e)

-- A player that is left does not lead to the object that went.
kept_elsewhere :
    (keys : ℕ → List ℕ) (id i p k : ℕ) (r : Registry)
    → lookup i r.entries ≡ some p
    → contains k (keys p) ≡ true
    → (contains k (ptr_keys keys (lookup id r.entries)) && i == id) ≡ false
    → (id == i) ≡ false
kept_elsewhere keys id i p k r at_p has rest = elim (Bool-cases (id == i)) [
  | inr miss ↦ miss
  | inl hit ↦
      let same : id ≡ i = (==_iff id i).0 hit in let gone = rw (same, at_p) at rest in ground arith
]

Erased-IsIndexed :
    (keys : ℕ → List ℕ) (id : ℕ) (r r' : Registry)
    → IsIndexed keys r
    → Erased keys id r r'
    → IsIndexed keys r'
Erased-IsIndexed keys id r r' v n = record { leads = leads; listed = listed }
  where
    leads :
        (k i : ℕ)
        → lookup k r'.by_player ≡ some i
        → (p : ℕ) × (lookup i r'.entries ≡ some p) × (contains k (keys p) ≡ true)
    leads k i e =
        let (was, rest) = kept-some id i _ (lookup k r.by_player) (sym (n.players k) ∙ e) in
        let (p, at_p, has) = v.leads k i was in
        let miss = kept_elsewhere keys id i p k r at_p has rest in
        (p, n.entry i ∙ rw miss at_p, has)

    listed :
        (k i p : ℕ)
        → lookup i r'.entries ≡ some p
        → contains k (keys p) ≡ true
        → lookup k r'.by_player ≡ some i
    listed k i p e c =
        let (miss, was) = guarded_some (id == i) p (lookup i r.entries) (sym (n.entry i) ∙ e) in
        n.players k ∙ kept-some_ne id i _ (lookup k r.by_player) (v.listed k i p was c) miss

-- Two maps that agree still agree after an erasure.
pub erase_entry-IsIndexed :
    (keys : ℕ → List ℕ) (id : ℕ) (r : Registry)
    → IsIndexed keys r
    → IsIndexed keys (erase_entry keys id r).0
erase_entry-IsIndexed keys id r v = Erased-IsIndexed keys id r _ v (erase_entry-Erased keys id r).0
