-- ===== src/PartyGroup/Reach.antt =====
-- MM/matching/workers/PartyMatchmakingWorker.cpp: which workers a request waits with. A request starts
-- with the worker of its base index, and `ExpandMatchmakingWorkerSlot` lets it reach one more on each
-- side.
use cpp_matchmaking_mvp.Common.{
  ℕ, zero, suc, ◌+◌, ◌≤◌, ◌≡◌, ◌≢◌, sym, ap, ◌∙◌, Bool, true, false, none, some, List, [], ◌∷◌,
  ◌==◌, ==_iff, if◌then◌else◌, Dict, lookup, lookup-insert, arith, Bool-cases, inl, inr, ltb,
}
use cpp_matchmaking_mvp.Types.{GroupKey}
use cpp_matchmaking_mvp.Ticket.{Tickets}
use cpp_matchmaking_mvp.Rule.{MatchmakingRule}
use cpp_matchmaking_mvp.Request.{
  Request, Slot, Slots, put_slot, get_min_worker_index, get_max_worker_index,
}
use cpp_matchmaking_mvp.PartyWorker.{Worker, make_worker, is_queued}
use cpp_matchmaking_mvp.PartyGroup.{
  Group, init_workers, make_group, last_index, enqueue_at, expand_request, expand_all,
}
use cpp_matchmaking_mvp.PartyGroup.Everywhere.{Everywhere, enqueue_at-Everywhere}

-- A worker that a request has reached.
abbrev pub Within : (last : ℕ) → Slots → ℕ → Request → Type 0
Within last slots i q =
    (get_min_worker_index last (slots q.pointer) ≤ i)
    × (i ≤ get_max_worker_index last (slots q.pointer))

-- A request waits only with workers that it has reached.
abbrev pub WithinReach : Group → Type 0
WithinReach g = Everywhere (Within (last_index g) g.slots) g.workers

init_workers-empty : (n i : ℕ) (w : Worker) → lookup i (init_workers n) ≡ some w → w ≡ make_worker
unfolding init_workers
init_workers-empty zero i w e = absurd (cc)
init_workers-empty (suc n) i w e = elim (Bool-cases (n == i)) [
  | inl hit ↦
      let is : some make_worker ≡ some w =
        rw hit at (sym (lookup-insert n i make_worker (init_workers n)) ∙ e) in
      cc
  | inr miss ↦
      init_workers-empty n i w
        (rw miss at (sym (lookup-insert n i make_worker (init_workers n)) ∙ e))
]

pub make_group-WithinReach :
    (key : GroupKey) (rule : MatchmakingRule) (n : ℕ) → WithinReach (make_group key rule n)
unfolding make_group
make_group-WithinReach key rule n i id w q at_i e =
    let is = init_workers-empty n i w at_i in
    let nothing : none ≡ some q = ap (λ (x : Worker). lookup id x.waiting) (sym is) ∙ e in
    absurd (cc)

-- The slot of a request that reaches one more worker on each side.
abbrev wider : Slot → Slot
wider x = record x { expansion_level = x.expansion_level + 1 }

widen-Within :
    (last i : ℕ) (r q : Request) (slots : Slots)
    → Within last slots i q
    → Within last (put_slot r.pointer (wider (slots r.pointer)) slots) i q
unfolding get_min_worker_index get_max_worker_index
widen-Within last i r q slots h = elim (Bool-cases (r.pointer == q.pointer)) [
  | inl hit ↦
      let same : r.pointer ≡ q.pointer = (==_iff r.pointer q.pointer).0 hit in
      let h' : Within last slots i (record q { pointer = r.pointer }) = rw same h in
      rw hit (omega arith, omega arith)
  | inr miss ↦ rw miss h
]

ends-Within :
    (last : ℕ) (r : Request) (x : Slot) (slots : Slots)
    → Within last (put_slot r.pointer x slots) (get_min_worker_index last x) r
      × Within last (put_slot r.pointer x slots) (get_max_worker_index last x) r
unfolding get_min_worker_index get_max_worker_index
ends-Within last r x slots =
    let self : (r.pointer == r.pointer) ≡ true = ground arith in
    rw self ((omega arith, omega arith), (omega arith, omega arith))

enqueue_unless :
    (P : ℕ → Request → Type 0) (b : Bool) (j : ℕ) (r : Request) (ws : Dict Worker)
    → P j r
    → Everywhere P ws
    → Everywhere P (if b then ws else enqueue_at j r ws)
enqueue_unless P true j r ws here all = all
enqueue_unless P false j r ws here all = enqueue_at-Everywhere P j r ws here all

-- A request that reaches more workers.
expand_request-Everywhere :
    (last : ℕ) (r : Request) (slots : Slots) (ws : Dict Worker)
    → Everywhere (Within last slots) ws
    → Everywhere (Within last (expand_request last r slots ws).0) (expand_request last r slots ws).1
unfolding expand_request
expand_request-Everywhere last r slots ws all =
    let x = wider (slots r.pointer) in
    let P = Within last (put_slot r.pointer x slots) in
    let ends = ends-Within last r x slots in
    enqueue_unless P (get_max_worker_index last x == get_max_worker_index last (slots r.pointer))
      (get_max_worker_index last x) r _ ends.1
      (enqueue_unless P (get_min_worker_index last x == get_min_worker_index last (slots r.pointer))
        (get_min_worker_index last x) r ws ends.0
        (λ i id w q at_i e. widen-Within last i r q slots (all i id w q at_i e)))

pub expand_all-Everywhere :
    (now last : ℕ) (s : Tickets) (m : List (ℕ × Request)) (slots : Slots) (ws : Dict Worker)
    (again : List Request)
    → Everywhere (Within last slots) ws
    → Everywhere
        (Within last (expand_all now last s m slots ws again).slots)
        (expand_all now last s m slots ws again).workers
unfolding expand_all
expand_all-Everywhere now last s [] slots ws again all = all
expand_all-Everywhere now last s ((t, r) ∷ m) slots ws again all =
    elim (Bool-cases (ltb now (t + 1))) [
      | inl early ↦ rw early all
      | inr over ↦ elim (Bool-cases (is_queued s r.ticket)) [
        | inl waits ↦
            rw (over, waits)
              (expand_all-Everywhere now last s m _ _ _
                (expand_request-Everywhere last r slots ws all))
        | inr gone ↦ rw (over, gone) (expand_all-Everywhere now last s m slots ws again all)
      ]
    ]

-- No request at that address waits yet.
abbrev pub Fresh : Request → Group → Type 0
Fresh r g = Everywhere (λ i q. r.pointer ≢ q.pointer) g.workers

pub base-Within :
    (last base : ℕ) (r : Request) (slots : Slots)
    → base ≤ last
    → Within last
        (put_slot r.pointer (record (slots r.pointer) { base_worker_index = base }) slots)
        base
        r
unfolding get_min_worker_index get_max_worker_index
base-Within last base r slots h =
    let self : (r.pointer == r.pointer) ≡ true = ground arith in rw self (omega arith, omega arith)

pub other-Within :
    (last i : ℕ) (r q : Request) (x : Slot) (slots : Slots)
    → r.pointer ≢ q.pointer
    → Within last slots i q
    → Within last (put_slot r.pointer x slots) i q
other-Within last i r q x slots differs h =
    let miss : (r.pointer == q.pointer) ≡ false = ground arith in rw miss h
