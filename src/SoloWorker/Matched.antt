-- ===== src/SoloWorker/Matched.antt =====
-- MM/matching/workers/SoloMatchmakingWorker.cpp: `DoWorkerAsyncJob` as a whole.
use cpp_matchmaking_mvp.Common.{
  ℕ, ◌<◌, ◌≡◌, refl, ◌∙◌, Bool, true, false, ◌&&◌, ◌||◌, Option, none, some, List, [], ◌∷◌, ◌==◌,
  ==_iff, if◌then◌else◌, leb, length, Dict, contains, Distinct, arith, Bool-cases, Option-cases,
  inl, inr,
}
use cpp_matchmaking_mvp.Types.{searching}
use cpp_matchmaking_mvp.Ticket.{Ticket, Tickets, change_status, call_on}
use cpp_matchmaking_mvp.Ticket.Heap.{may_change, call_on-may_change}
use cpp_matchmaking_mvp.Request.{Request}
use cpp_matchmaking_mvp.Server.{Server}
use cpp_matchmaking_mvp.Server.Create.{create_session}
use cpp_matchmaking_mvp.SoloWorker.{
  Worker, fill, insert_ptr, Matching, complete_all, fail_all, do_worker_async_job,
}
use cpp_matchmaking_mvp.SoloWorker.Filling.{Taken, fill-FillOutcome}

-- The tickets of the requests on a list.
abbrev pub tickets_on : Dict Request → List ℕ
tickets_on [] = []
tickets_on ((k, r) ∷ l) = r.ticket ∷ tickets_on l

-- Whether all of them may be searching.
abbrev pub all_may_search : Dict Request → Tickets → Bool
all_may_search [] s = true
all_may_search ((k, r) ∷ l) s = may_change r.ticket searching s && all_may_search l s

-- A ticket that has been asked to be searching.
abbrev pub searched : Option Ticket → Option Ticket
searched none = none
searched (some t) = some (change_status searching t).0

contains-insert_ptr :
    (b a : ℕ) (ptrs : List ℕ) → contains b (insert_ptr a ptrs) ≡ (b == a || contains b ptrs)
contains-insert_ptr b a [] = refl
contains-insert_ptr b a (c ∷ ptrs) = ground (arith, contains-insert_ptr b a ptrs)

call_on-searched :
    (a : ℕ) (s : Tickets) (b : ℕ)
    → (call_on a (change_status searching) s).0 b ≡ (if a == b then searched (s b) else s b)
call_on-searched a s b = elim (Option-cases (s a)) [
  | inl missing ↦ elim (Bool-cases (a == b)) [
    | inl hit ↦
        let same : a ≡ b = (==_iff a b).0 hit in
        let none_at_b : s b ≡ none = rw same at missing in
        rw missing (rw hit (none_at_b ∙ rw none_at_b refl))
    | inr miss ↦ rw missing (rw miss refl)
  ]
  | inr (t, found) ↦ elim (Bool-cases (a == b)) [
    | inl hit ↦
        let same : a ≡ b = (==_iff a b).0 hit in
        let at_b : s b ≡ some t = rw same at found in rw found (rw hit (rw at_b refl))
    | inr miss ↦ rw found (rw miss refl)
  ]
]

may_change-same :
    (a : ℕ) (s s' : Tickets) → s' a ≡ s a → may_change a searching s' ≡ may_change a searching s
may_change-same a s s' e = rw (e, may_change) refl

all_may_search-same :
    (l : Dict Request) (s s' : Tickets)
    → ((b : ℕ) → contains b (tickets_on l) ≡ true → s' b ≡ s b)
    → all_may_search l s' ≡ all_may_search l s
all_may_search-same [] s s' h = refl
all_may_search-same ((k, r) ∷ l) s s' h =
    let mine = may_change-same r.ticket s s' (h r.ticket (ground arith)) in
    let rest = all_may_search-same l s s' (λ b c. h b (ground arith)) in rw (mine, rest) refl

-- What the loop over the complete list has gathered.
record Searched (l : Dict Request) (g g' : Matching) : Type 0 where
  matched : (b : ℕ) → contains b g'.matched ≡ (contains b (tickets_on l) || contains b g.matched)
  tickets :
      (b : ℕ)
      → g'.tickets b ≡ (if contains b (tickets_on l) then searched (g.tickets b) else g.tickets b)
  success : g'.is_success ≡ (all_may_search l g.tickets && g.is_success)

module _ (k : ℕ) (r : Request) (l : Dict Request) (g g1 g' : Matching)
    (apart : contains r.ticket (tickets_on l) ≡ false)
    (called : (b : ℕ)
      → g1.tickets b ≡ (if r.ticket == b then searched (g.tickets b) else g.tickets b))
    (joined : g1.matched ≡ insert_ptr r.ticket g.matched)
    (succeeds : g1.is_success ≡ (may_change r.ticket searching g.tickets && g.is_success))
    (rest : Searched l g1 g') where
  next_tickets :
      (b : ℕ)
      → g'.tickets b
        ≡ (if contains b (r.ticket ∷ tickets_on l) then searched (g.tickets b) else g.tickets b)
  next_tickets b = elim (Bool-cases (r.ticket == b)) [
    | inl hit ↦
        let same : r.ticket ≡ b = (==_iff r.ticket b).0 hit in
        let not_later : contains b (tickets_on l) ≡ false = rw same at apart in
        let self : (b == r.ticket) ≡ true = ground arith in
        rest.tickets b ∙ rw (not_later, self) (called b ∙ rw hit refl)
    | inr miss ↦
        let other : (b == r.ticket) ≡ false = ground arith in
        let kept : g1.tickets b ≡ g.tickets b = called b ∙ rw miss refl in
        rest.tickets b ∙ rw (other, kept) refl
  ]

  next_success : g'.is_success ≡ (all_may_search ((k, r) ∷ l) g.tickets && g.is_success)
  next_success =
      let same =
        all_may_search-same l g.tickets g1.tickets (λ b c.
          let miss : (r.ticket == b) ≡ false = other_ticket b c in called b ∙ rw miss refl) in
      rest.success ∙ rw (same, succeeds) (ground arith)
    where
      other_ticket : (b : ℕ) → contains b (tickets_on l) ≡ true → (r.ticket == b) ≡ false
      other_ticket b c = elim (Bool-cases (r.ticket == b)) [
        | inr miss ↦ miss
        | inl hit ↦
            let same : r.ticket ≡ b = (==_iff r.ticket b).0 hit in absurd (cc (rw same at apart))
      ]

  next_Searched : Searched ((k, r) ∷ l) g g'
  next_Searched = record {
    matched =
        λ b. rest.matched b ∙ rw joined (ground (arith, contains-insert_ptr b r.ticket g.matched));
    tickets = next_tickets;
    success = next_success;
  }

complete_all-Searched :
    (now : ℕ) (l : Dict Request) (g : Matching)
    → Distinct (tickets_on l)
    → Searched l g (complete_all now l g)
unfolding complete_all
complete_all-Searched now [] g d = record {
  matched = λ b. refl;
  tickets = λ b. refl;
  success = refl;
}
complete_all-Searched now ((k, r) ∷ l) g d =
    next_Searched k r l g _ (complete_all now ((k, r) ∷ l) g) d.0
      (call_on-searched r.ticket g.tickets) refl
      (rw (call_on-may_change r.ticket searching g.tickets) (ground arith))
      (complete_all-Searched now l _ d.1)

-- The list that the job completes or leaves.
abbrev pub filled_list : Worker → Dict Request
filled_list w = (fill w.rule.match_player_count w.waiting w.progressing false).1

abbrev pub JobOutcome : (now : ℕ) → Worker → Server → Worker × Server × Bool → Type 0
JobOutcome now w s (w', s', true) =
    (p : Dict Request) × Taken w.waiting w.progressing w'.waiting p
    × (length p ≡ w.rule.match_player_count)
    × (w'.progressing ≡ [])
    × (ptrs : List ℕ) × ((b : ℕ) → contains b ptrs ≡ contains b (tickets_on p))
    × (m : Tickets) × ((b : ℕ)
        → m b ≡ (if contains b (tickets_on p) then searched (s.tickets b) else s.tickets b))
    × (s' ≡ (
        if all_may_search p s.tickets
        then create_session now w.group_key ptrs (record s { tickets = m })
        else fail_all ptrs (record s { tickets = m })))
JobOutcome now w s (w', s', false) =
    Taken w.waiting w.progressing w'.waiting w'.progressing
    × (w'.waiting ≡ [])
    × (length w'.progressing < w.rule.match_player_count)
    × (s' ≡ s)

contains-or_false : (b : Bool) → (b || false) ≡ b
contains-or_false true = refl
contains-or_false false = refl

and_true : (b : Bool) → (b && true) ≡ b
and_true true = refl
and_true false = refl

-- From a worker whose list is not full, the job takes the first who wait to the list. Either the list
-- gets as many requests as the rule asks for: then the worker starts over with an empty list, each
-- ticket on the list is asked to be searching and no other has changed, and exactly the tickets on the
-- list are handed over, to a new session if the table lets all of them be searching, and else to be
-- failed. Or all who wait are on the list now, which is still not full, and nothing else has happened.
-- No ticket is on the list twice.
pub do_worker_async_job-JobOutcome :
    (now : ℕ) (w : Worker) (s : Server)
    → length w.progressing < w.rule.match_player_count
    → Distinct (tickets_on (filled_list w))
    → JobOutcome now w s (do_worker_async_job now w s)
unfolding do_worker_async_job
do_worker_async_job-JobOutcome now w s room d =
    let p = filled_list w in
    let (taken, ends) =
      fill-FillOutcome w.rule.match_player_count w.waiting w.progressing false (omega arith) in
    let start : Matching = record {
      statistics = w.wait_time;
      tickets = s.tickets;
      matched = [];
      is_success = true;
    } in
    let g = complete_all now p start in
    let found : Searched p start g = complete_all-Searched now p start d in
    elim ends [
      | inl full ↦
          (let e : leb w.rule.match_player_count (length p) ≡ true = ground arith in
            let agreed : g.is_success ≡ all_may_search p s.tickets =
              found.success ∙ and_true (all_may_search p s.tickets) in
            rw e (
              p,
              taken,
              full,
              refl,
              g.matched,
              λ b. found.matched b ∙ contains-or_false (contains b (tickets_on p)),
              g.tickets,
              found.tickets,
              rw agreed refl,
            ))
      | inr (gone, short) ↦
          (let e : leb w.rule.match_player_count (length p) ≡ false = ground arith in
            rw e (taken, gone, short, refl))
    ]
