-- ===== src/PartyWorker/Found.antt =====
-- MM/matching/workers/PartyMatchmakingWorker.cpp: when the search succeeds.
use cpp_matchmaking_mvp.Common.{
  ℕ, zero, suc, ◌+◌, ◌-◌, ◌*◌, ◌≤◌, ◌<◌, ◌≡◌, ◌≢◌, refl, sym, ap, ◌∙◌, true, false, ◌&&◌, Option,
  none, some, List, [], ◌∷◌, ◌++◌, ◌==◌, ==_iff, ltb, leb, length, Dict, lookup, All, All-append,
  All-map, Among, Above-IsOrdered, lookup-Above, IsOrdered, has_value, Bool-cases, Option-cases,
  inl, inr, arith,
}
use cpp_matchmaking_mvp.Types.QueueTime.{llong_max}
use cpp_matchmaking_mvp.Ticket.{Tickets}
use cpp_matchmaking_mvp.Request.{Request}
use cpp_matchmaking_mvp.Rule.{Combination, count_of, make_combination, make_rule, get_combination}
use cpp_matchmaking_mvp.Rule.Groups.{players}
use cpp_matchmaking_mvp.Rule.Sound.{Filed, make_combination-Filed}
use cpp_matchmaking_mvp.PartyWorker.{
  Worker, queue_of, is_queued, has_counts, take_queued, collect, unless_empty, build_candidate,
  sum_player_count, oldest_ticket_id, make_matchmaking,
}
use cpp_matchmaking_mvp.PartyWorker.Match.{queue_of-found, collect-found}
use cpp_matchmaking_mvp.PartyWorker.Invariant.{Consistent}
use cpp_matchmaking_mvp.PartyWorker.Oldest.{make_matchmaking-oldest}

All-Among : {A : Type 0} (P : A → Type 0) (a : A) (xs : List A) → All P xs → Among a xs → P a
All-Among P a [] h m = absurd m
All-Among P a (x ∷ xs) h (inl is) = rw is h.0
All-Among P a (x ∷ xs) h (inr m) = All-Among P a xs h.1 m

-- What holds of whatever a lookup finds holds of every entry.
All-lookup :
    {V : Type 0} (P : V → Type 0) (m : Dict V)
    → IsOrdered m
    → ((id : ℕ) (v : V) → lookup id m ≡ some v → P v)
    → All (λ e. P e.1) m
All-lookup P [] o h = tt
All-lookup P ((j, w) ∷ m) o h =
    (h j w (ground arith), All-lookup P m (Above-IsOrdered j m o) (λ id v e. h id v (later id v e)))
  where
    later : (id : _) (v : _) → lookup id m ≡ some v → lookup id ((j, w) ∷ m) ≡ some v
    later id v e = elim (Bool-cases (id == j)) [
      | inl hit ↦
          let same : id ≡ j = (==_iff id j).0 hit in absurd (cc (lookup-Above id m (rw same o)))
      | inr miss ↦ rw miss e
    ]

-- A request of a size that the search may take.
abbrev Usable : Tickets → (size : ℕ) → Request → Type 0
Usable s k r = (is_queued s r.ticket ≡ true) × (r.player_count ≡ k) × (r.ticket_id < llong_max)

abbrev Young : Request → Type 0
Young r = r.ticket_id < llong_max

take_queued-full :
    (k need : ℕ) (q : Dict Request) (s : Tickets)
    → All (λ e. Usable s k e.1) q
    → need ≤ length q
    → (length (take_queued need q s) ≡ need)
      × (sum_player_count (take_queued need q s) ≡ k * need)
      × All Young (take_queued need q s)
unfolding take_queued sum_player_count
take_queued-full k zero q s u le = (refl, omega arith, tt)
take_queued-full k (suc need) [] s u le = absurd (omega arith)
take_queued-full k (suc need) ((id, r) ∷ q) s u le =
    let (enough, total, young) = take_queued-full k need q s u.1 (omega arith) in
    rw u.0.0 (omega arith, omega arith, (u.0.2, young))

sum_player_count-append :
    (l r : List Request) → sum_player_count (l ++ r) ≡ sum_player_count l + sum_player_count r
unfolding sum_player_count
sum_player_count-append [] r = omega arith
sum_player_count-append (x ∷ l) r = omega (arith, sum_player_count-append l r)

has_counts-cons :
    (k need : ℕ) (c : Combination) (counts : Dict ℕ)
    → has_counts ((k, need) ∷ c) counts ≡ true
    → (n : ℕ) × (lookup k counts ≡ some n) × (need ≤ n) × (has_counts c counts ≡ true)
unfolding has_counts
has_counts-cons k need c counts h = elim (Option-cases (lookup k counts)) [
  | inl missing ↦ absurd (cc (rw (missing, has_counts) at h))
  | inr (n, found) ↦
      let both : (leb need n && has_counts c counts) ≡ true = rw (found, has_counts) at h in
      (n, found, ground arith, ground arith)
]

-- The requests of each queue may all be taken.
abbrev pub AllUsable : Worker → Tickets → Type 0
AllUsable w s = (k : ℕ) → All (λ e. Usable s k e.1) (queue_of k w.by_player_count)

queue_of_missing-length :
    (k : ℕ) (m : Dict (Dict Request)) → lookup k m ≡ none → length (queue_of k m) ≡ 0
queue_of_missing-length k m e = rw (e, queue_of) refl

count_of_found : (k n : ℕ) (m : Dict ℕ) → lookup k m ≡ some n → count_of k m ≡ n
count_of_found k n m e = rw (e, count_of) refl

-- A candidate for a combination.
record Seats (c : Combination) (o : Option (List Request)) : Type 0 where
  list : List Request
  built : o ≡ some list
  seated : sum_player_count list ≡ players c
  young : All Young list

module _ (w : Worker) (s : Tickets) (v : Consistent w) (u : AllUsable w s) where
  queue-found :
      (k n : ℕ)
      → lookup k w.queued_count ≡ some n
      → 1 ≤ n
      → (q : Dict Request) × (lookup k w.by_player_count ≡ some q) × (length q ≡ n)
  queue-found k n e h =
      let size = sym (v.counted k) ∙ count_of_found k n w.queued_count e in
      elim (Option-cases (lookup k w.by_player_count)) [
        | inl missing ↦ absurd (omega (arith, queue_of_missing-length k w.by_player_count missing))
        | inr (q, found) ↦
            (q, found, sym (ap length (queue_of-found k w.by_player_count q found)) ∙ size)
      ]

  collect-Seats :
      (c : Combination)
      → has_counts c w.queued_count ≡ true
      → All (λ e. 1 ≤ e.1) c
      → Seats c (collect c w.by_player_count s)
  unfolding collect sum_player_count
  collect-Seats [] h p = record { list = []; built = refl; seated = refl; young = tt }
  collect-Seats ((k, need) ∷ c) h p =
      let (n, counts, le, more) = has_counts-cons k need c w.queued_count h in
      let (q, found, size) = queue-found k n counts (omega arith) in
      let rest = collect-Seats c more p.1 in
      let usable : All (λ e. Usable s k e.1) q =
        rw (queue_of-found k w.by_player_count q found) at (u k) in
      let (enough, total, young) = take_queued-full k need q s usable (omega arith) in
      let full : ltb (length (take_queued need q s)) need ≡ false = ground arith in
      record {
        list = take_queued need q s ++ rest.list;
        built = collect-found k need c w.by_player_count s q found ∙ rw (full, rest.built) refl;
        seated =
            sum_player_count-append (take_queued need q s) rest.list
            ∙ omega (arith, total, rest.seated);
        young = All-append Young (take_queued need q s) rest.list young rest.young;
      }

oldest-Young :
    (l : List Request) → All Young l → sum_player_count l ≢ 0 → oldest_ticket_id l ≢ llong_max
unfolding sum_player_count oldest_ticket_id
oldest-Young [] y h = absurd (h refl)
oldest-Young (r ∷ l) y h = omega arith

unless_empty-some : (l : List Request) → sum_player_count l ≢ 0 → unless_empty (some l) ≡ some l
unfolding sum_player_count
unless_empty-some [] h = absurd (h refl)
unless_empty-some (r ∷ l) h = refl

build_candidate-Seats :
    (c : Combination) (w : Worker) (s : Tickets)
    → has_counts c w.queued_count ≡ true
    → players c ≢ 0
    → Seats c (collect c w.by_player_count s)
    → Seats c (build_candidate c w s)
unfolding build_candidate
build_candidate-Seats c w s h p x = record {
  list = x.list;
  built = rw (h, x.built) (unless_empty-some x.list (λ z. p (sym x.seated ∙ z)));
  seated = x.seated;
  young = x.young;
}

-- Every request that waits has a ticket that is queued, with an id below the largest there is.
abbrev pub Ready : Worker → Tickets → Type 0
Ready w s =
    (id : ℕ) (r : Request)
    → lookup id w.waiting ≡ some r
    → (is_queued s r.ticket ≡ true) × (id < llong_max)

Ready-AllUsable : (w : Worker) (s : Tickets) → Consistent w → Ready w s → AllUsable w s
Ready-AllUsable w s v ready k =
    All-lookup (Usable s k) (queue_of k w.by_player_count) (v.ordered k) (λ id r e.
      let (size, waits) = v.sized k id r e in
      let (is, below) = ready id r waits in
      let named = (v.listed id r waits).0 in (is, size, omega arith))

has_counts-lookup :
    (k : ℕ) (c : Combination) (counts : Dict ℕ)
    → has_counts c counts ≡ true
    → has_value (lookup k c) ≡ true
    → All (λ e. 1 ≤ e.1) c
    → (m : ℕ) × (lookup k counts ≡ some (suc m))
has_counts-lookup k [] counts h f p = absurd (cc)
has_counts-lookup k ((j, need) ∷ c) counts h f p =
    let (n, found, le, more) = has_counts-cons j need c counts h in
    elim (Bool-cases (k == j)) [
      | inl hit ↦
          let same : k ≡ j = (==_iff k j).0 hit in (n - 1, rw same (found ∙ ap some (omega arith)))
      | inr miss ↦ has_counts-lookup k c counts more (rw miss at f) p.1
    ]

waits-some : (m : Dict Request) (id : ℕ) (r : Request) → lookup id m ≡ some r → length m ≢ 0
waits-some [] id r e = absurd (cc)
waits-some ((j, q) ∷ m) id r e = λ z. omega arith

first_of : (q : Dict Request) → length q ≢ 0 → (id : ℕ) × (r : Request) × (lookup id q ≡ some r)
first_of [] h = absurd (h refl)
first_of ((id, r) ∷ q) h = (id, r, ground arith)

nothing_for_nobody :
    (zone_id n largest k : ℕ) (c : Combination)
    → n ≡ 0
    → Among c (get_combination (make_rule zone_id n largest) k)
    → ⊥
unfolding make_rule make_combination
nothing_for_nobody zone_id n largest k c z a = rw z at a

-- The search finds a match whenever the counts allow one: if the maps of the worker agree, all that
-- wait are queued and have ids below the largest there is, the walk through the counts passes every
-- entry, and some combination of the rule needs no more parties of each size than the counts say, then
-- the search returns a match.
pub make_matchmaking-finds :
    (visit : Dict ℕ → Dict ℕ) (zone_id n largest k : ℕ) (c : Combination) (w : Worker) (s : Tickets)
    → ((m : Dict ℕ) (j i : ℕ) → lookup j m ≡ some i → Among (j, i) (visit m))
    → Consistent w
    → Ready w s
    → Among c (get_combination (make_rule zone_id n largest) k)
    → has_counts c w.queued_count ≡ true
    → make_matchmaking visit (make_rule zone_id n largest) w s ≢ []
unfolding make_rule
make_matchmaking-finds visit zone_id n largest k c w s passes v ready a h =
    let filed = All-Among (Filed n largest k) c _ (make_combination-Filed n largest k) a in
    let counts_one =
      All-map (λ e. (1 ≤ e.0) × (e.0 ≤ largest) × (1 ≤ e.1)) (λ e. 1 ≤ e.1) c (λ e b. b.2)
        filed.1.1 in
    let (m, counted) = has_counts-lookup k c w.queued_count h filed.0 counts_one in
    let usable = Ready-AllUsable w s v ready in
    let (q, found, size) = queue-found w s v usable k (suc m) counted (omega arith) in
    let (id, r, first) = first_of q (omega arith) in
    let listed : lookup id (queue_of k w.by_player_count) ≡ some r =
      rw (queue_of-found k w.by_player_count q found) first in
    let seated : players c ≢ 0 =
      λ z. nothing_for_nobody zone_id n largest k c (sym filed.1.0 ∙ z) a in
    let x = build_candidate-Seats c w s h seated (collect-Seats w s v usable c h counts_one) in
    (make_matchmaking-oldest visit (make_rule zone_id n largest) w s k m c x.list
      (waits-some w.waiting id r (v.sized k id r listed).1)
      (passes w.queued_count k (suc m) counted) a x.built
      (x.seated ∙ filed.1.0, oldest-Young x.list x.young (λ z. seated (sym x.seated ∙ z)))).0
