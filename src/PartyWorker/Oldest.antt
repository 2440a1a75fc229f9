-- ===== src/PartyWorker/Oldest.antt =====
-- MM/matching/workers/PartyMatchmakingWorker.cpp: which candidate the search prefers.
use cpp_matchmaking_mvp.Common.{
  ℕ, suc, ◌≤◌, ◌≡◌, ◌≢◌, refl, ap, true, false, Option, none, some, List, [], ◌∷◌, ◌==◌, length,
  Dict, Among, Bool-cases, inl, inr, arith,
}
use cpp_matchmaking_mvp.Types.QueueTime.{llong_max}
use cpp_matchmaking_mvp.Ticket.{Tickets}
use cpp_matchmaking_mvp.Request.{Request}
use cpp_matchmaking_mvp.Rule.{Combination, MatchmakingRule, get_combination}
use cpp_matchmaking_mvp.PartyWorker.{
  Worker, build_candidate, sum_player_count, oldest_ticket_id, Best, is_empty, weigh, weigh_some,
  try_combinations, try_sizes, no_best, make_matchmaking,
}

-- The id that is kept is that of the list that is kept.
abbrev Dated : Best → Type 0
Dated best = best.oldest ≡ oldest_ticket_id best.matching_list

-- There is a match, and none of its tickets is younger than all of `l`.
abbrev Beats : List Request → Best → Type 0
Beats l best = (is_empty best.matching_list ≡ false) × (best.oldest ≤ oldest_ticket_id l)

-- A candidate that the search accepts.
abbrev pub Fills : (n : ℕ) → List Request → Type 0
Fills n l = (sum_player_count l ≡ n) × (oldest_ticket_id l ≢ llong_max)

oldest_of-empty : (l : List Request) → is_empty l ≡ true → oldest_ticket_id l ≡ llong_max
unfolding oldest_ticket_id
oldest_of-empty [] h = refl
oldest_of-empty (r ∷ l) h = absurd (cc)

weigh-Dated : (n : ℕ) (l : List Request) (best : Best) → Dated best → Dated (weigh n l best)
unfolding weigh
weigh-Dated n l best d = ground arith

weigh-Beats :
    (n : ℕ) (l l' : List Request) (best : Best) → Beats l' best → Beats l' (weigh n l best)
unfolding weigh
weigh-Beats n l l' best b = ground (arith, oldest_of-empty l)

-- An accepted candidate is beaten as soon as it has been weighed.
weigh-Beats_self : (n : ℕ) (l : List Request) (best : Best) → Fills n l → Beats l (weigh n l best)
unfolding weigh
weigh-Beats_self n l best f = ground (arith, oldest_of-empty l)

weigh_some-Beats :
    (n : ℕ) (o : Option (List Request)) (l' : List Request) (best : Best)
    → Beats l' best
    → Beats l' (weigh_some n o best)
weigh_some-Beats n none l' best b = b
weigh_some-Beats n (some l) l' best b = weigh-Beats n l l' best b

weigh_some-Beats_self :
    (n : ℕ) (o : Option (List Request)) (l : List Request) (best : Best)
    → o ≡ some l
    → Fills n l
    → Beats l (weigh_some n o best)
weigh_some-Beats_self n o l best e f = rw e (weigh-Beats_self n l best f)

weigh_some-Dated :
    (n : ℕ) (o : Option (List Request)) (best : Best) → Dated best → Dated (weigh_some n o best)
weigh_some-Dated n none best d = d
weigh_some-Dated n (some l) best d = weigh-Dated n l best d

module _ (n : ℕ) (w : Worker) (s : Tickets) where
  try_combinations-Dated :
      (cs : List Combination) (best : Best) → Dated best → Dated (try_combinations n cs w s best)
  unfolding try_combinations
  try_combinations-Dated [] best d = d
  try_combinations-Dated (c ∷ cs) best d =
      try_combinations-Dated cs _ (weigh_some-Dated n (build_candidate c w s) best d)

  try_combinations-Beats :
      (cs : List Combination) (l : List Request) (best : Best)
      → Beats l best
      → Beats l (try_combinations n cs w s best)
  unfolding try_combinations
  try_combinations-Beats [] l best b = b
  try_combinations-Beats (c ∷ cs) l best b =
      try_combinations-Beats cs l _ (weigh_some-Beats n (build_candidate c w s) l best b)

  try_combinations-Beats_each :
      (cs : List Combination) (c : Combination) (l : List Request) (best : Best)
      → Among c cs
      → build_candidate c w s ≡ some l
      → Fills n l
      → Beats l (try_combinations n cs w s best)
  unfolding try_combinations
  try_combinations-Beats_each [] c l best m e f = absurd m
  try_combinations-Beats_each (c' ∷ cs) c l best (inl is) e f =
      try_combinations-Beats cs l _
        (weigh_some-Beats_self n (build_candidate c' w s) l best (rw is at e) f)
  try_combinations-Beats_each (c' ∷ cs) c l best (inr m) e f =
      try_combinations-Beats_each cs c l _ m e f

module _ (rule : MatchmakingRule) (w : Worker) (s : Tickets) where
  try_sizes-Dated :
      (visited : Dict ℕ) (best : Best) → Dated best → Dated (try_sizes rule visited w s best)
  unfolding try_sizes
  try_sizes-Dated [] best d = d
  try_sizes-Dated ((k, n) ∷ rest) best d = try_sizes-Dated rest _ (elim (Bool-cases (n == 0)) [
    | inl used_up ↦ rw used_up d
    | inr left ↦
        rw left (try_combinations-Dated rule.match_player_count w s (get_combination rule k) best d)
  ])

  try_sizes-Beats :
      (visited : Dict ℕ) (l : List Request) (best : Best)
      → Beats l best
      → Beats l (try_sizes rule visited w s best)
  unfolding try_sizes
  try_sizes-Beats [] l best b = b
  try_sizes-Beats ((k, n) ∷ rest) l best b = try_sizes-Beats rest l _ (elim (Bool-cases (n == 0)) [
    | inl used_up ↦ rw used_up b
    | inr left ↦
        rw left
          (try_combinations-Beats rule.match_player_count w s (get_combination rule k) l best b)
  ])

  try_sizes-Beats_each :
      (visited : Dict ℕ) (k m : ℕ) (c : Combination) (l : List Request) (best : Best)
      → Among (k, suc m) visited
      → Among c (get_combination rule k)
      → build_candidate c w s ≡ some l
      → Fills rule.match_player_count l
      → Beats l (try_sizes rule visited w s best)
  unfolding try_sizes
  try_sizes-Beats_each [] k m c l best v a e f = absurd v
  try_sizes-Beats_each ((j, n) ∷ rest) k m c l best (inl is) a e f =
      let same : k ≡ j = ap (λ p. p.0) is in
      let left : (n == 0) ≡ false = ground (arith, ap (λ (p : ℕ × ℕ). p.1) is) in
      try_sizes-Beats rest l _ (
        rw (left, ← same)
          (try_combinations-Beats_each rule.match_player_count w s (get_combination rule k) c l best
            a e f))
  try_sizes-Beats_each ((j, n) ∷ rest) k m c l best (inr v) a e f =
      try_sizes-Beats_each rest k m c l _ v a e f

no_best-Dated : Dated no_best
unfolding oldest_ticket_id
no_best-Dated = refl

match-ne-nil : (l : List Request) → is_empty l ≡ false → l ≢ []
match-ne-nil [] e = absurd (cc)
match-ne-nil (r ∷ l) e = λ h. cc

-- Among the candidates of all sizes that are visited with some request in their queue, the search
-- prefers an old ticket: if some request waits, and a combination on file for such a size can be filled
-- by queued requests that seat the players of a match and whose oldest ticket has not the largest id
-- there is, then the search returns a match, and the oldest ticket of that match is at least as old as
-- the oldest of the candidate.
pub make_matchmaking-oldest :
    (visit : Dict ℕ → Dict ℕ) (rule : MatchmakingRule) (w : Worker) (s : Tickets) (k m : ℕ)
    (c : Combination) (l : List Request)
    → length w.waiting ≢ 0
    → Among (k, suc m) (visit w.queued_count)
    → Among c (get_combination rule k)
    → build_candidate c w s ≡ some l
    → Fills rule.match_player_count l
    → (make_matchmaking visit rule w s ≢ [])
      × (oldest_ticket_id (make_matchmaking visit rule w s) ≤ oldest_ticket_id l)
unfolding make_matchmaking
make_matchmaking-oldest visit rule w s k m c l waits v a e f =
    let some_wait : (length w.waiting == 0) ≡ false = ground arith in
    let (found, older) =
      try_sizes-Beats_each rule w s (visit w.queued_count) k m c l no_best v a e f in
    let dated = try_sizes-Dated rule w s (visit w.queued_count) no_best no_best-Dated in
    rw some_wait (match-ne-nil _ found, rw (← dated) older)
