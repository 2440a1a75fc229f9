-- ===== src/PartyWorker/Queues.antt =====
-- MM/matching/workers/PartyMatchmakingWorker.cpp: how the three maps of a worker belong together.
use cpp_matchmaking_mvp.Common.{
  ℕ, suc, ◌-◌, ◌≡◌, refl, ap, none, some, [], ◌∷◌, ◌==◌, ==_iff, if◌then◌else◌, length, leb, Dict,
  lookup, insert, erase, lookup-insert, lookup-erase, IsOrdered, Above, Above-mono, Above-IsOrdered,
  lookup-Above, Bool-cases, Option-cases, inl, inr, arith,
}
use cpp_matchmaking_mvp.Request.{Request}
use cpp_matchmaking_mvp.Rule.{count_of}
use cpp_matchmaking_mvp.PartyWorker.{queue_of, discount}

module _ {V : Type 0} where
  pub length-insert_new :
      (k : ℕ) (v : V) (m : Dict V) → lookup k m ≡ none → length (insert k v m) ≡ suc (length m)
  length-insert_new k v [] e = omega arith
  length-insert_new k v ((j, w) ∷ m) e = ground (arith, length-insert_new k v m)

  pub erase-Above : (i k : ℕ) (m : Dict V) → Above i m → Above i (erase k m)
  erase-Above i k [] a = tt
  erase-Above i k ((j, w) ∷ m) a =
      ground (arith, erase-Above i k m, erase-Above j k m, Above-mono i j m)

  pub IsOrdered-erase : (k : ℕ) (m : Dict V) → IsOrdered m → IsOrdered (erase k m)
  IsOrdered-erase k [] o = tt
  IsOrdered-erase k ((j, w) ∷ m) o =
      ground (arith, erase-Above j k m o, IsOrdered-erase k m (Above-IsOrdered j m o))

  pub length-erase_absent : (k : ℕ) (m : Dict V) → lookup k m ≡ none → length (erase k m) ≡ length m
  length-erase_absent k [] e = refl
  length-erase_absent k ((j, w) ∷ m) e = ground (arith, length-erase_absent k m)

  pub length-erase :
      (k : ℕ) (m : Dict V) (v : V)
      → IsOrdered m
      → lookup k m ≡ some v
      → suc (length (erase k m)) ≡ length m
  length-erase k [] v o e = absurd (cc)
  length-erase k ((j, w) ∷ m) v o e = elim (Bool-cases (k == j)) [
    | inl hit ↦
        let same : k ≡ j = (==_iff k j).0 hit in
        rw hit (ap suc (length-erase_absent k m (lookup-Above k m (rw same o))))
    | inr miss ↦ rw miss (ap suc (length-erase k m v (Above-IsOrdered j m o) (rw miss at e)))
  ]

  erase_absent : (k : ℕ) (m : Dict V) → lookup k m ≡ none → erase k m ≡ m
  erase_absent k [] e = refl
  erase_absent k ((j, q) ∷ m) e = ground (arith, erase_absent k m)

  pub erase-insert : (k : ℕ) (v : V) (m : Dict V) → lookup k m ≡ none → erase k (insert k v m) ≡ m
  erase-insert k v [] e = ground arith
  erase-insert k v ((j, q) ∷ m) e = ground (arith, erase-insert k v m, erase_absent k m)

pub queue_of-insert :
    (k j : ℕ) (q : Dict Request) (m : Dict (Dict Request))
    → queue_of j (insert k q m) ≡ (if k == j then q else queue_of j m)
queue_of-insert k j q m = elim (Bool-cases (k == j)) [
  | inl e ↦ ground (arith, lookup-insert k j q m)
  | inr e ↦ ground (arith, lookup-insert k j q m)
]

pub count_of-insert :
    (k j n : ℕ) (m : Dict ℕ) → count_of j (insert k n m) ≡ (if k == j then n else count_of j m)
count_of-insert k j n m = elim (Bool-cases (k == j)) [
  | inl e ↦ ground (arith, lookup-insert k j n m)
  | inr e ↦ ground (arith, lookup-insert k j n m)
]

pub count_of-erase :
    (k j : ℕ) (m : Dict ℕ) → count_of j (erase k m) ≡ (if k == j then 0 else count_of j m)
count_of-erase k j m = elim (Bool-cases (k == j)) [
  | inl e ↦ ground (arith, lookup-erase k j m)
  | inr e ↦ ground (arith, lookup-erase k j m)
]

pub count_of-discount :
    (k j : ℕ) (m : Dict ℕ)
    → count_of j (discount k m) ≡ (if k == j then count_of k m - 1 else count_of j m)
unfolding discount
count_of-discount k j m = elim (Option-cases (lookup k m)) [
  | inl missing ↦
      rw (missing, discount)
        (elim (Bool-cases (k == j)) [
          | inl hit ↦
              let same : k ≡ j = (==_iff k j).0 hit in
              let unused : count_of k m ≡ 0 = rw (missing, count_of) refl in
              rw (hit, ← same, unused) refl
          | inr miss ↦ rw miss refl
        ])
  | inr (n, found) ↦ elim (Bool-cases (leb n 1)) [
    | inl last ↦ rw (found, discount) (rw last (ground (arith, count_of-erase k j m)))
    | inr more ↦ rw (found, discount) (rw more (ground (arith, count_of-insert k j (n - 1) m)))
  ]
]
