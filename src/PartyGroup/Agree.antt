-- ===== src/PartyGroup/Agree.antt =====
-- MM/matching/workers/PartyMatchmakingWorker.cpp: the commit of a match and a cancellation keep the
-- three maps of each worker in agreement.
use cpp_matchmaking_mvp.Common.{
  ℕ, zero, suc, ◌+◌, ◌≤◌, ◌≡◌, refl, sym, ap, ◌∙◌, none, some, List, [], ◌∷◌, Dict, lookup, All,
  All-map, length, Option-cases, inl, inr,
}
use cpp_matchmaking_mvp.Ticket.{Ticket, Tickets, get_players}
use cpp_matchmaking_mvp.Ticket.Kept.{Kept, KeepsTickets}
use cpp_matchmaking_mvp.Request.{Request, Slots, get_min_worker_index, get_max_worker_index}
use cpp_matchmaking_mvp.PartyWorker.{Worker, queue_of}
use cpp_matchmaking_mvp.PartyWorker.Invariant.{Consistent, erase_ticket-Consistent, unlisted}
use cpp_matchmaking_mvp.PartyGroup.{
  erase_ptr, at_worker, erase_slots, erase_matched, erase_everywhere,
}
use cpp_matchmaking_mvp.PartyGroup.Gone.{
  erase_ptr-none, erase_ptr-some, at_worker_missing, at_worker_found, insert-cases, Gone,
  GoneInReach,
}
use cpp_matchmaking_mvp.PartyGroup.Everywhere.{
  Everywhere, Waiting, at_worker-Everywhere, erase_ptr-Waiting, erase_slots-Everywhere,
  erase_everywhere-lookup,
}

-- The maps of each worker agree.
abbrev pub AllConsistent : Dict Worker → Type 0
AllConsistent ws = (i : ℕ) (w : Worker) → lookup i ws ≡ some w → Consistent w

-- A request under the id of the ticket at `a` has its number of players.
abbrev pub SizeAt : (ticket : ℕ) → Tickets → (index : ℕ) → Request → Type 0
SizeAt a s i q =
    (t : Ticket)
    → s a ≡ some t
    → t.ticket_id ≡ q.ticket_id
    → q.player_count ≡ length (get_players t)

-- No request is left under an id with one worker, neither among all that wait nor among those of any
-- size.
abbrev pub Absent : (id index : ℕ) → Dict Worker → Type 0
Absent id i ws =
    (w : Worker)
    → lookup i ws ≡ some w
    → (lookup id w.waiting ≡ none) × ((k : ℕ) → lookup id (queue_of k w.by_player_count) ≡ none)

pub Gone-Absent : (id i : ℕ) (ws : Dict Worker) → AllConsistent ws → Gone id i ws → Absent id i ws
Gone-Absent id i ws v gone w e = (gone w e, λ k. unlisted k id w (v i w e) (gone w e))

-- No request is left under the id of the ticket of a request with a worker that the request has reached.
abbrev pub AbsentInReach : (last : ℕ) → Slots → Tickets → Dict Worker → Request → Type 0
AbsentInReach last slots s ws r =
    (t : Ticket) (i : ℕ)
    → s r.ticket ≡ some t
    → get_min_worker_index last (slots r.pointer) ≤ i
    → i ≤ get_max_worker_index last (slots r.pointer)
    → Absent t.ticket_id i ws

pub GoneInReach-AbsentInReach :
    (last : ℕ) (slots : Slots) (s : Tickets) (ws : Dict Worker) (l : List Request)
    → AllConsistent ws
    → All (GoneInReach last slots s ws) l
    → All (AbsentInReach last slots s ws) l
GoneInReach-AbsentInReach last slots s ws l v h =
    All-map (GoneInReach last slots s ws) (AbsentInReach last slots s ws) l
      (λ r gone t i at_r low high. Gone-Absent t.ticket_id i ws v (gone t i at_r low high)) h

Kept-SizeAt :
    (a : ℕ) (s s' : Tickets) (i : ℕ) (q : Request)
    → Kept (s a) (s' a)
    → SizeAt a s i q
    → SizeAt a s' i q
Kept-SizeAt a s s' i q kept h t' e' id = elim (Option-cases (s a)) [
  | inl missing ↦ let gone = rw missing at kept in absurd (cc)
  | inr (t, found) ↦
      let (u, e, same_id, players) = rw found at kept in
      let is : u ≡ t' = cc in
      h t found (sym same_id ∙ rw (← is) at id) ∙ ap length (sym players) ∙ rw is refl
]

pub KeepsTickets-SizeAt :
    (a : ℕ) (s s' : Tickets) (ws : Dict Worker)
    → KeepsTickets s s'
    → Everywhere (SizeAt a s) ws
    → Everywhere (SizeAt a s') ws
KeepsTickets-SizeAt a s s' ws keeps all i id w q at_i e =
    Kept-SizeAt a s s' i q (keeps a) (all i id w q at_i e)

erase_ptr-Consistent :
    (a : ℕ) (s : Tickets) (i : ℕ) (w : Worker)
    → Waiting (SizeAt a s i) w
    → Consistent w
    → Consistent (erase_ptr a s w)
erase_ptr-Consistent a s i w sized v = elim (Option-cases (s a)) [
  | inl null ↦ rw (erase_ptr-none a s w null) v
  | inr (t, found) ↦ rw (erase_ptr-some a s w t found) (
      erase_ticket-Consistent t.ticket_id (length (get_players t)) w v
        (λ r e. sized t.ticket_id r e t found (sym (v.listed t.ticket_id r e).0)))
]

at_worker-AllConsistent :
    (j : ℕ) (f : Worker → Worker) (ws : Dict Worker)
    → ((w : Worker) → lookup j ws ≡ some w → Consistent w → Consistent (f w))
    → AllConsistent ws
    → AllConsistent (at_worker j f ws)
at_worker-AllConsistent j f ws h v = elim (Option-cases (lookup j ws)) [
  | inl missing ↦ rw (at_worker_missing j f ws missing) v
  | inr (w, found) ↦ rw (at_worker_found j f ws w found) (λ i u e.
      elim (insert-cases j i (f w) u ws e) [
        | inl (_, is) ↦ rw (← is) (h w found (v j w found))
        | inr (_, old) ↦ v i u old
      ])
]

erase_slots-AllConsistent :
    (n j a : ℕ) (s : Tickets) (ws : Dict Worker)
    → Everywhere (SizeAt a s) ws
    → AllConsistent ws
    → AllConsistent (erase_slots n j a s ws)
unfolding erase_slots
erase_slots-AllConsistent zero j a s ws sized v = v
erase_slots-AllConsistent (suc n) j a s ws sized v =
    erase_slots-AllConsistent n (j + 1) a s (at_worker j (erase_ptr a s) ws)
      (at_worker-Everywhere (SizeAt a s) j (erase_ptr a s) ws
        (λ w found. erase_ptr-Waiting (SizeAt a s) a s j w (λ id q. sized j id w q found)) sized)
      (at_worker-AllConsistent j (erase_ptr a s) ws
        (λ w found. erase_ptr-Consistent a s j w (λ id q. sized j id w q found)) v)

-- The requests of a list, each with what waits under the id of its ticket.
abbrev pub AllSized : Tickets → Dict Worker → List Request → Type 0
AllSized s ws l = All (λ r. Everywhere (SizeAt r.ticket s) ws) l

pub erase_matched-AllConsistent :
    (last : ℕ) (l : List Request) (slots : Slots) (s : Tickets) (ws : Dict Worker)
    → AllSized s ws l
    → AllConsistent ws
    → AllConsistent (erase_matched last l slots s ws)
unfolding erase_matched
erase_matched-AllConsistent last [] slots s ws sized v = v
erase_matched-AllConsistent last (r ∷ l) slots s ws sized v =
    erase_matched-AllConsistent last l slots s _
      (All-map _ _ l (λ q all. erase_slots-Everywhere (SizeAt q.ticket s) _ _ r.ticket s ws all)
        sized.1)
      (erase_slots-AllConsistent _ _ r.ticket s ws sized.0 v)

pub erase_everywhere-AllConsistent :
    (a : ℕ) (s : Tickets) (ws : Dict Worker)
    → Everywhere (SizeAt a s) ws
    → AllConsistent ws
    → AllConsistent (erase_everywhere a s ws)
erase_everywhere-AllConsistent a s ws sized v i w e =
    let (u, found, is) = erase_everywhere-lookup a s ws i w e in
    rw is (erase_ptr-Consistent a s i u (λ id q. sized i id u q found) (v i u found))
