-- ===== src/Penalty/Observe.antt =====
-- What a caller sees of the penalties.
use cpp_matchmaking_mvp.Common.{
  ℕ, ◌≤◌, ◌≡◌, refl, ◌↔◌, false, List, [], ◌∷◌, ◌==◌, ==_iff, ltb, if◌then◌else◌, lookup-insert,
  lookup-erase, All, arith, Bool-cases, inl, inr,
}
use cpp_matchmaking_mvp.Penalty.{
  PenaltyManager, add_dodge_penalty, expire_dodge_penalty, has_dodge_penalty, any_dodge_penalty,
}

-- A new penalty of a player decides alone until when that player is penalized, and the other
-- players keep theirs.
pub has_dodge_penalty-add_dodge_penalty :
    (k j expire now : ℕ) (p : PenaltyManager)
    → has_dodge_penalty j now (add_dodge_penalty k expire p)
      ≡ (if k == j then ltb now expire else has_dodge_penalty j now p)
unfolding has_dodge_penalty add_dodge_penalty
has_dodge_penalty-add_dodge_penalty k j expire now p = elim (Bool-cases (k == j)) [
  | inl hit ↦ ground (
    arith,
    lookup-insert k j (record { player_key = k; penalty_expire_time_msec = expire }) p.penalty_map,
  )
  | inr miss ↦ ground (
    arith,
    lookup-insert k j (record { player_key = k; penalty_expire_time_msec = expire }) p.penalty_map,
  )
]

-- The job that clears an expired penalty changes no answer at its own time or later, whenever it
-- runs and whoever is asked about.
pub has_dodge_penalty-expire_dodge_penalty :
    (k j now later : ℕ) (p : PenaltyManager)
    → now ≤ later
    → has_dodge_penalty j later (expire_dodge_penalty now k p) ≡ has_dodge_penalty j later p
unfolding has_dodge_penalty expire_dodge_penalty
has_dodge_penalty-expire_dodge_penalty k j now later p h = elim (Bool-cases (k == j)) [
  | inl hit ↦
      let same : k ≡ j = (==_iff k j).0 hit in
      rw same (ground (arith, lookup-erase j j p.penalty_map))
  | inr miss ↦ ground (arith, lookup-erase k j p.penalty_map)
]

-- A request is free of penalties exactly when each of its players is.
pub any_dodge_penalty-false :
    (ks : List ℕ) (now : ℕ) (p : PenaltyManager)
    → (any_dodge_penalty ks now p ≡ false) ↔ All (λ k. has_dodge_penalty k now p ≡ false) ks
unfolding any_dodge_penalty
any_dodge_penalty-false [] now p = (λ _. tt, λ _. refl)
any_dodge_penalty-false (k ∷ ks) now p =
    let (to, from) = any_dodge_penalty-false ks now p in
    elim (Bool-cases (has_dodge_penalty k now p)) [
      | inl marked ↦ (λ h. absurd (cc), λ h. absurd (cc (h.0)))
      | inr clear ↦ (λ h. (clear, to (rw clear at h)), λ h. rw clear (from h.1))
    ]
