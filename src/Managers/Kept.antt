-- ===== src/Managers/Kept.antt =====
-- MM/matching/SoloMatchmakingManager.cpp and PartyMatchmakingManager.cpp: what their parts in common
-- keep of their files.
use cpp_matchmaking_mvp.Common.{
  ℕ, ◌≡◌, Bool, true, false, some, if◌then◌else◌, Option-cases, inl, inr,
}
use cpp_matchmaking_mvp.Types.{MatchTicketRequest}
use cpp_matchmaking_mvp.Ticket.{Ticket, make_ticket, get_players}
use cpp_matchmaking_mvp.Registry.{insert_entry}
use cpp_matchmaking_mvp.Server.{Server, Owner, solo, party, owned, put_owned}
use cpp_matchmaking_mvp.Server.File.{OnFile-store, OnFile-insert_entry, Holds}
use cpp_matchmaking_mvp.Managers.{Hub, insert_match_ticket, allocate}

-- The files and the heap of a state.
abbrev pub IsKept : Hub → Type 0
IsKept h = Holds h.next_ticket h.server

pub insert_match_ticket-Holds :
    (n : ℕ) (o : Owner) (a : ℕ) (s : Server) → Holds n s → Holds n (insert_match_ticket o a s).0
unfolding insert_match_ticket
insert_match_ticket-Holds n o a s v = elim (Option-cases (s.tickets a)) [
  | inl missing ↦ rw (missing, insert_match_ticket) v
  | inr (t, found) ↦ rw (found, insert_match_ticket) (inserted o t found)
]
  where
    inserted :
        (o : Owner) (t : Ticket)
        → s.tickets a ≡ some t
        → Holds n (put_owned o (insert_entry t.ticket_id a (get_players t) (owned o s)).0 s)
    inserted party t found = (OnFile-insert_entry n a t s.tickets s.party_tickets found v.0, v.1)
    inserted solo t found = (v.0, OnFile-insert_entry n a t s.tickets s.solo_tickets found v.1)

pub allocate-IsKept :
    (now : ℕ) (request : MatchTicketRequest) (h : Hub)
    → IsKept h
    → IsKept (allocate now request h).0
unfolding allocate
allocate-IsKept now request h v =
    let t = (make_ticket request.world_no request now h.next_ticket_id).0 in
    (
      OnFile-store h.next_ticket t h.server.tickets h.server.party_tickets v.0,
      OnFile-store h.next_ticket t h.server.tickets h.server.solo_tickets v.1,
    )

pub if-IsKept : (b : Bool) (h h' : Hub) → IsKept h → IsKept h' → IsKept (if b then h else h')
if-IsKept true h h' v v' = v
if-IsKept false h h' v v' = v'

pub if_first-IsKept :
    {A : Type 0} (b : Bool) (o o' : Hub × A)
    → IsKept o.0
    → IsKept o'.0
    → IsKept (if b then o else o').0
if_first-IsKept true o o' v v' = v
if_first-IsKept false o o' v v' = v'
