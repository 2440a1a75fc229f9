-- ===== src/PartyGroup/Everywhere.antt =====
-- MM/matching/workers/PartyMatchmakingWorker.cpp: what the group's operations keep of a property that
-- all waiting requests have.
use cpp_matchmaking_mvp.Common.{
  ℕ, zero, suc, ◌+◌, ◌≡◌, ◌⊎◌, refl, sym, ap, ◌∙◌, some, List, [], ◌∷◌, ◌==◌, ==_iff, Dict, lookup,
  insert, erase, lookup-insert, lookup-erase, arith, Bool-cases, Option-cases, inl, inr,
}
use cpp_matchmaking_mvp.Ticket.{Tickets}
use cpp_matchmaking_mvp.Request.{Request, Slots, emplace}
use cpp_matchmaking_mvp.PartyWorker.{Worker, queue_of, enqueue_request}
use cpp_matchmaking_mvp.PartyGroup.{
  erase_ptr, at_worker, erase_slots, erase_matched, enqueue_at, erase_everywhere,
}
use cpp_matchmaking_mvp.PartyGroup.Gone.{erase_ptr-waiting_kept}

-- What holds of every request that waits with a worker.
abbrev pub Everywhere : (P : ℕ → Request → Type 0) → Dict Worker → Type 0
Everywhere P ws =
    (i id : ℕ) (w : Worker) (q : Request)
    → lookup i ws ≡ some w
    → lookup id w.waiting ≡ some q
    → P i q

-- The requests of one worker.
abbrev pub Waiting : (Request → Type 0) → Worker → Type 0
Waiting P w = (id : ℕ) (q : Request) → lookup id w.waiting ≡ some q → P q

enqueue_request-waiting :
    (r : Request) (w : Worker) (id : ℕ) (q : Request)
    → lookup id (enqueue_request r w).0.waiting ≡ some q
    → (q ≡ r) ⊎ (lookup id w.waiting ≡ some q)
unfolding enqueue_request
enqueue_request-waiting r w id q e = elim (Option-cases (lookup r.ticket_id w.waiting)) [
  | inr (old, found) ↦ inr (rw (found, emplace, enqueue_request) at e)
  | inl absent ↦
      elim (Option-cases (lookup r.ticket_id (queue_of r.player_count w.by_player_count))) [
        | inl free ↦
            let e' : lookup id (insert r.ticket_id r w.waiting) ≡ some q =
              rw (absent, free, emplace, enqueue_request) at e in
            ground (arith, lookup-insert r.ticket_id id r w.waiting)
        | inr (old, taken) ↦
            let e' : lookup id (erase r.ticket_id (insert r.ticket_id r w.waiting)) ≡ some q =
              rw (absent, taken, emplace, enqueue_request) at e in
            ground (
              arith,
              lookup-erase r.ticket_id id (insert r.ticket_id r w.waiting),
              lookup-insert r.ticket_id id r w.waiting,
            )
      ]
]

pub erase_everywhere-lookup :
    (a : ℕ) (s : Tickets) (ws : Dict Worker) (i : ℕ) (w : Worker)
    → lookup i (erase_everywhere a s ws) ≡ some w
    → (v : Worker) × (lookup i ws ≡ some v) × (w ≡ erase_ptr a s v)
unfolding erase_everywhere
erase_everywhere-lookup a s [] i w e = absurd (cc)
erase_everywhere-lookup a s ((j, v) ∷ ws) i w e = elim (Bool-cases (i == j)) [
  | inl hit ↦ let is : some (erase_ptr a s v) ≡ some w = rw hit at e in (v, rw hit refl, cc)
  | inr miss ↦
      let (u, found, is) = erase_everywhere-lookup a s ws i w (rw miss at e) in
      (u, rw miss found, is)
]

module _ (P : ℕ → Request → Type 0) where
  pub enqueue_request-Waiting :
      (j : ℕ) (r : Request) (w : Worker)
      → P j r
      → Waiting (P j) w
      → Waiting (P j) (enqueue_request r w).0
  enqueue_request-Waiting j r w here h id q e = elim (enqueue_request-waiting r w id q e) [
    | inl is ↦ rw is here
    | inr old ↦ h id q old
  ]

  pub insert-Everywhere :
      (j : ℕ) (v : Worker) (ws : Dict Worker)
      → Waiting (P j) v
      → Everywhere P ws
      → Everywhere P (insert j v ws)
  insert-Everywhere j v ws h all i id w q at_i e = elim (Bool-cases (j == i)) [
    | inl hit ↦
        let same : j ≡ i = (==_iff j i).0 hit in
        let is : some v ≡ some w = rw hit at (sym (lookup-insert j i v ws) ∙ at_i) in
        let is' : v ≡ w = cc in
        rw (← same) (h id q (ap (λ (x : Worker). lookup id x.waiting) is' ∙ e))
    | inr miss ↦ all i id w q (rw miss at (sym (lookup-insert j i v ws) ∙ at_i)) e
  ]

  pub at_worker-Everywhere :
      (j : ℕ) (f : Worker → Worker) (ws : Dict Worker)
      → ((w : Worker) → lookup j ws ≡ some w → Waiting (P j) (f w))
      → Everywhere P ws
      → Everywhere P (at_worker j f ws)
  at_worker-Everywhere j f ws h all = elim (Option-cases (lookup j ws)) [
    | inl missing ↦ rw (missing, at_worker) all
    | inr (w, found) ↦ rw (found, at_worker) (insert-Everywhere j (f w) ws (h w found) all)
  ]

  pub erase_ptr-Waiting :
      (a : ℕ) (s : Tickets) (i : ℕ) (w : Worker) → Waiting (P i) w → Waiting (P i) (erase_ptr a s w)
  erase_ptr-Waiting a s i w h id q e = h id q (erase_ptr-waiting_kept a s w id q e)

  pub erase_slots-Everywhere :
      (n j a : ℕ) (s : Tickets) (ws : Dict Worker)
      → Everywhere P ws
      → Everywhere P (erase_slots n j a s ws)
  unfolding erase_slots
  erase_slots-Everywhere zero j a s ws all = all
  erase_slots-Everywhere (suc n) j a s ws all = erase_slots-Everywhere n (j + 1) a s _ (
      at_worker-Everywhere j (erase_ptr a s) ws
        (λ w found. erase_ptr-Waiting a s j w (λ id q. all j id w q found)) all)

  pub erase_matched-Everywhere :
      (last : ℕ) (l : List Request) (slots : Slots) (s : Tickets) (ws : Dict Worker)
      → Everywhere P ws
      → Everywhere P (erase_matched last l slots s ws)
  unfolding erase_matched
  erase_matched-Everywhere last [] slots s ws all = all
  erase_matched-Everywhere last (r ∷ l) slots s ws all =
      erase_matched-Everywhere last l slots s _ (erase_slots-Everywhere _ _ r.ticket s ws all)

  pub erase_everywhere-Everywhere :
      (a : ℕ) (s : Tickets) (ws : Dict Worker)
      → Everywhere P ws
      → Everywhere P (erase_everywhere a s ws)
  erase_everywhere-Everywhere a s ws all i id w q at_i e =
      let (v, found, is) = erase_everywhere-lookup a s ws i w at_i in
      erase_ptr-Waiting a s i v (λ id q. all i id v q found) id q (rw is at e)

  pub enqueue_at-Everywhere :
      (j : ℕ) (r : Request) (ws : Dict Worker)
      → P j r
      → Everywhere P ws
      → Everywhere P (enqueue_at j r ws)
  enqueue_at-Everywhere j r ws here all =
      at_worker-Everywhere j (λ w. (enqueue_request r w).0) ws
        (λ w found. enqueue_request-Waiting j r w here (λ id q. all j id w q found)) all
