-- ===== src/Rule/Groups.antt =====
-- A combination seats as many players as the parts that it was made from.
use cpp_matchmaking_mvp.Common.{
  ℕ, ◌+◌, ◌*◌, ◌≤◌, ◌≡◌, refl, sym, ap, ◌∙◌, true, false, List, [], ◌∷◌, arith, key-cases,
  Above-mono, Above-IsOrdered, key-cases, Above-mono, Above-IsOrdered, inl, inr, ◌==◌, sum, All,
  insert, Above, IsOrdered, IsOrdered-insert, lookup-Above,
}
use cpp_matchmaking_mvp.Rule.{Combination, count_of, grouped}

-- The players that a combination seats.
abbrev pub players : Combination → ℕ
players [] = 0
players ((size, count) ∷ c) = size * count + players c

pub grouped-IsOrdered : (l : List ℕ) → IsOrdered (grouped l)
unfolding grouped
grouped-IsOrdered [] = tt
grouped-IsOrdered (p ∷ ps) = IsOrdered-insert p _ (grouped ps) (grouped-IsOrdered ps)

count_of_hit : (p j w : ℕ) (c : Combination) → (p == j) ≡ true → count_of p ((j, w) ∷ c) ≡ w
count_of_hit p j w c h = ground arith

count_of_miss :
    (p j w : ℕ) (c : Combination) → (p == j) ≡ false → count_of p ((j, w) ∷ c) ≡ count_of p c
count_of_miss p j w c h = ground arith

count_of-Above : (p : ℕ) (c : Combination) → Above p c → count_of p c ≡ 0
count_of-Above p c h = ground (arith, lookup-Above p c h)

players-increment :
    (p n : ℕ) (c : Combination)
    → IsOrdered c
    → count_of p c ≡ n
    → players (insert p (n + 1) c) ≡ players c + p
players-increment p n [] o e = omega (arith, ap (λ (t : ℕ). p * t) e)
players-increment p n ((j, w) ∷ c) o e = elim (key-cases p j) [
  | inl (hit, same) ↦
      let w-is-n : w ≡ n = sym (count_of_hit p j w c hit) ∙ e in
      rw (hit, ← w-is-n) (omega (arith, ap (λ (t : ℕ). t * (w + 1)) same))
  | inr (inl (miss, before, le)) ↦
      let none_yet : 0 ≡ n =
        sym (count_of-Above p c (Above-mono p j c le o)) ∙ sym (count_of_miss p j w c miss) ∙ e in
      rw (miss, before, ← none_yet) (omega arith)
  | inr (inr (miss, after, le)) ↦
      rw (miss, after)
        (omega (
          arith,
          players-increment p n c (Above-IsOrdered j c o) (sym (count_of_miss p j w c miss) ∙ e),
        ))
]

players-grouped : (l : List ℕ) → players (grouped l) ≡ sum l
unfolding grouped
players-grouped [] = refl
players-grouped (p ∷ ps) = omega (
  arith,
  players-increment p (count_of p (grouped ps)) (grouped ps) (grouped-IsOrdered ps) refl,
  players-grouped ps,
)

-- What a recorded combination satisfies: it seats `n` players in parties that may exist.
abbrev pub Fits : (n largest : ℕ) → Combination → Type 0
Fits n largest c = (players c ≡ n) × All (λ e. (1 ≤ e.0) × (e.0 ≤ largest) × (1 ≤ e.1)) c

abbrev pub InRange : ℕ → List ℕ → Type 0
InRange largest l = All (λ p. (1 ≤ p) × (p ≤ largest)) l

All-insert :
    (P : ℕ × ℕ → Type 0) (k v : ℕ) (c : Combination) → P (k, v) → All P c → All P (insert k v c)
All-insert P k v [] h a = (h, tt)
All-insert P k v ((j, w) ∷ c) h a = elim (key-cases k j) [
  | inl (hit, same) ↦ rw hit (h, a.1)
  | inr (inl (miss, before, le)) ↦ rw (miss, before) (h, a)
  | inr (inr (miss, after, le)) ↦ rw (miss, after) (a.0, All-insert P k v c h a.1)
]

grouped-InRange :
    (largest : ℕ) (l : List ℕ)
    → InRange largest l
    → All (λ e. (1 ≤ e.0) × (e.0 ≤ largest) × (1 ≤ e.1)) (grouped l)
unfolding grouped
grouped-InRange largest [] h = tt
grouped-InRange largest (p ∷ ps) h =
    All-insert (λ e. (1 ≤ e.0) × (e.0 ≤ largest) × (1 ≤ e.1)) p _ (grouped ps)
      (h.0.0, h.0.1, omega arith) (grouped-InRange largest ps h.1)

pub grouped-Fits :
    (n largest : ℕ) (l : List ℕ) → sum l ≡ n → InRange largest l → Fits n largest (grouped l)
grouped-Fits n largest l s r = (players-grouped l ∙ s, grouped-InRange largest l r)
