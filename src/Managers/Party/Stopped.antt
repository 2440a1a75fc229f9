-- ===== src/Managers/Party/Stopped.antt =====
-- MM/matching/PartyMatchmakingManager.cpp: how `StopMatchmaking` ends.
use cpp_matchmaking_mvp.Common.{
  ℕ, ◌≡◌, refl, sym, ◌∙◌, Bool, true, false, Option, none, some, ◌==◌, ==_iff, if◌then◌else◌,
  lookup, contains, Bool-cases, Option-cases, inl, inr,
}
use mathlib.Core.Path.{fun_ext}
use cpp_matchmaking_mvp.Types.{GroupKey, cancelled, can_change_status}
use cpp_matchmaking_mvp.Ticket.{
  Ticket, Tickets, with_status, get_group_key, get_players, players_at, change_status, call_on,
}
use cpp_matchmaking_mvp.Ticket.Heap.{
  ChangeOutcome, call_on-ChangeOutcome, may_change, call_on-may_change, players_at-some,
}
use cpp_matchmaking_mvp.Registry.{Registry, erase_entry, find_by_player}
use cpp_matchmaking_mvp.Registry.Invariant.{IsIndexed}
use cpp_matchmaking_mvp.Registry.Lookup.{find_by_player-erase_entry, find_by_player-listed}
use cpp_matchmaking_mvp.Server.{Server, party, erase_match_ticket}
use cpp_matchmaking_mvp.PartyGroup.{Group, cancel_match_ticket}
use cpp_matchmaking_mvp.PartyGroup.Everywhere.{Everywhere}
use cpp_matchmaking_mvp.PartyGroup.Agree.{AllConsistent, SizeAt, Absent}
use cpp_matchmaking_mvp.PartyGroup.Outcome.{CancelOutcome, cancel_match_ticket-CancelOutcome}
use cpp_matchmaking_mvp.Managers.{Hub, Manager, group_key_eq, get_worker_group, put_group}
use cpp_matchmaking_mvp.Managers.Groups.{
  get_worker_group-put_group, get_worker_group-put_group_same,
}
use cpp_matchmaking_mvp.Managers.Party.{finish_cancel, cancel_party, stop_party}

players_at-same : (s s' : Tickets) (b : ℕ) → s' b ≡ s b → players_at s' b ≡ players_at s b
players_at-same s s' b e = rw (e, players_at) refl

-- A change of status leaves the players of every ticket.
changed-players_at :
    (a : ℕ) (t : Ticket) (s s' : Tickets)
    → s a ≡ some t
    → ((b : ℕ) → s' b ≡ (if a == b then some (with_status cancelled t) else s b))
    → players_at s' ≡ players_at s
changed-players_at a t s s' found changed = fun_ext at_b
  where
    at_b : (b : ℕ) → players_at s' b ≡ players_at s b
    at_b b = elim (Bool-cases (a == b)) [
      | inl hit ↦
          let same : a ≡ b = (==_iff a b).0 hit in
          players_at-some s' b (with_status cancelled t) (changed b ∙ rw hit refl)
          ∙ sym (players_at-some s b t (rw same at found))
      | inr miss ↦ players_at-same s s' b (changed b ∙ rw miss refl)
    ]

-- The group is left by the tickets of an id, and the maps of its workers agree.
abbrev pub IsLeft : (id : ℕ) → Group → Type 0
IsLeft id g = AllConsistent g.workers × ((i : ℕ) → Absent id i g.workers)

-- The ticket is cancelled, its players find nothing and, where its group is on file, no worker of the
-- group has a request under its id.
abbrev pub Cancelled : (ticket : ℕ) → Ticket → Hub → Hub → Type 0
Cancelled a t h h' =
    ((b : ℕ)
      → h'.server.tickets b
        ≡ (if a == b then some (with_status cancelled t) else h.server.tickets b))
    × ((k : ℕ)
        → find_by_player k h'.server.party_tickets
          ≡ (if contains k (get_players t) then none else find_by_player k h.server.party_tickets))
    × ((g : Group)
        → get_worker_group (get_group_key t) h'.party_manager ≡ some g
        → IsLeft t.ticket_id g)

-- The tickets, the file and the groups are as before.
abbrev pub Untouched : Hub → Hub → Type 0
Untouched h h' =
    ((b : ℕ) → h'.server.tickets b ≡ h.server.tickets b)
    × (h'.server.party_tickets ≡ h.server.party_tickets)
    × ((key : GroupKey)
        → get_worker_group key h'.party_manager ≡ get_worker_group key h.party_manager)

erased-find :
    (a k : ℕ) (t : Ticket) (r : Registry) (s s' : Tickets)
    → IsIndexed (players_at s) r
    → s a ≡ some t
    → ((b : ℕ) → s' b ≡ (if a == b then some (with_status cancelled t) else s b))
    → lookup t.ticket_id r.entries ≡ some a
    → find_by_player k (erase_entry (players_at s') t.ticket_id r).0
      ≡ (if contains k (get_players t) then none else find_by_player k r)
erased-find a k t r s s' v found changed on_file = rw (changed-players_at a t s s' found changed) (
    find_by_player-erase_entry (players_at s) t.ticket_id a k r v on_file
    ∙ rw (players_at-some s a t found) refl)

-- The group on file after the call is the one that the call has left.
IsLeft-put_group :
    (key : GroupKey) (m : Manager Group) (id : ℕ) (g g' : Group)
    → IsLeft id g
    → get_worker_group key (put_group key g m) ≡ some g'
    → IsLeft id g'
IsLeft-put_group key m id g g' left at_key =
    let one : some g ≡ some g' = sym (get_worker_group-put_group key g m) ∙ at_key in
    let same : g ≡ g' = cc in rw (← same) left

-- How a stop ends, by whether the table lets the ticket be cancelled.
abbrev pub Stopped : Bool → (ticket : ℕ) → Ticket → Hub → Hub → Type 0
Stopped true a t h h' = Cancelled a t h h'
Stopped false a t h h' = Untouched h h'

-- In the group that a ticket belongs to the maps of the workers agree, and what waits under the id of
-- the ticket has its number of players.
abbrev pub IsSized : (ticket : ℕ) → Ticket → Hub → Type 0
IsSized a t h =
    (g : Group)
    → get_worker_group (get_group_key t) h.party_manager ≡ some g
    → AllConsistent g.workers × Everywhere (SizeAt a h.server.tickets) g.workers

module _ (a : ℕ) (t : Ticket) (h : Hub)
    (v : IsIndexed (players_at h.server.tickets) h.server.party_tickets)
    (found : h.server.tickets a ≡ some t)
    (on_file : lookup t.ticket_id h.server.party_tickets.entries ≡ some a) where
  finish_cancel-Outcome :
      (g : Group) (o : Group × Tickets × Bool)
      → get_worker_group (get_group_key t) h.party_manager ≡ some g
      → CancelOutcome a g h.server.tickets o
      → Stopped
          (can_change_status t.status cancelled)
          a
          t
          h
          (finish_cancel (get_group_key t) t.ticket_id h o)
  unfolding erase_match_ticket
  finish_cancel-Outcome g (g', s', false) at_key (refused, same, kept) =
      let no : can_change_status t.status cancelled ≡ false = rw (found, may_change) at refused in
      rw no (
        kept,
        refl,
        λ key.
            rw same
              (get_worker_group-put_group_same (get_group_key t) key g h.party_manager at_key),
      )
  finish_cancel-Outcome g (g', s', true) at_key (t', found', may, changed, agree, absent) =
      let is : t' ≡ t = cc in
      let changed' = rw is at changed in
      let yes : can_change_status t.status cancelled ≡ true = rw is at may in
      let left : IsLeft t.ticket_id g' = (agree, rw is at absent) in
      rw yes (
        changed',
        λ k. erased-find a k t h.server.party_tickets h.server.tickets s' v found changed' on_file,
        λ g'' at_key.
            IsLeft-put_group (get_group_key t) h.party_manager t.ticket_id g' g'' left at_key,
      )

  unqueued-Outcome :
      (o : Tickets × Bool)
      → get_worker_group (get_group_key t) h.party_manager ≡ none
      → o.1 ≡ may_change a cancelled h.server.tickets
      → ChangeOutcome a cancelled h.server.tickets o
      → let s = record h.server { tickets = o.0 } in
        let h' = record h {
          server = (if o.1 then erase_match_ticket party t.ticket_id s else s);
        } in
        Stopped (can_change_status t.status cancelled) a t h h'
  unfolding erase_match_ticket
  unqueued-Outcome (s', false) missing e kept =
      let no : false ≡ can_change_status t.status cancelled = rw (found, may_change) at e in
      rw (← no) (kept, refl, λ key. refl)
  unqueued-Outcome (s', true) missing e (t', found', may, changed) =
      let is : t' ≡ t = cc in
      let changed' = rw is at changed in
      let yes : can_change_status t.status cancelled ≡ true = rw is at may in
      rw yes (
        changed',
        λ k. erased-find a k t h.server.party_tickets h.server.tickets s' v found changed' on_file,
        λ g at_key. absurd (cc),
      )

  cancel_party-Outcome :
      IsSized a t h → Stopped (can_change_status t.status cancelled) a t h (cancel_party a t h)
  unfolding cancel_party
  cancel_party-Outcome sized =
      elim (Option-cases (get_worker_group (get_group_key t) h.party_manager)) [
        | inl missing ↦
            rw (missing, cancel_party)
              (unqueued-Outcome (call_on a (change_status cancelled) h.server.tickets) missing
                (call_on-may_change a cancelled h.server.tickets)
                (call_on-ChangeOutcome a cancelled h.server.tickets))
        | inr (g, at_key) ↦
            rw (at_key, cancel_party)
              (finish_cancel-Outcome g (cancel_match_ticket a g h.server.tickets) at_key (
                cancel_match_ticket-CancelOutcome a g h.server.tickets (sized g at_key).0
                  (sized g at_key).1))
      ]

find_by_player_entry :
    (k a : ℕ) (r : Registry)
    → find_by_player k r ≡ some a
    → (id : ℕ) × (lookup id r.entries ≡ some a)
unfolding find_by_player
find_by_player_entry k a r e = elim (Option-cases (lookup k r.by_player)) [
  | inl missing ↦ absurd (cc (rw (missing, find_by_player) at e))
  | inr (id, leads) ↦ (id, rw (leads, find_by_player) at e)
]

-- The tickets on file stand on the heap, each under its own id.
abbrev pub IsFiled : Server → Type 0
IsFiled s =
    (id a : ℕ)
    → lookup id s.party_tickets.entries ≡ some a
    → (t : Ticket) × (s.tickets a ≡ some t) × (t.ticket_id ≡ id)

abbrev pub StopOutcome : (player : ℕ) → Hub → Hub × Option ℕ → Type 0
StopOutcome k h (h', none) = (h' ≡ h) × (find_by_player k h.server.party_tickets ≡ none)
StopOutcome k h (h', some a) =
    (t : Ticket) × (h.server.tickets a ≡ some t)
    × (find_by_player k h.server.party_tickets ≡ some a)
    × (contains k (get_players t) ≡ true)
    × Stopped (can_change_status t.status cancelled) a t h h'

stop_party_missing :
    (k : ℕ) (h : Hub) → find_by_player k h.server.party_tickets ≡ none → stop_party k h ≡ (h, none)
unfolding stop_party
stop_party_missing k h e = rw (e, stop_party) refl

stop_party_found :
    (k a : ℕ) (t : Ticket) (h : Hub)
    → find_by_player k h.server.party_tickets ≡ some a
    → h.server.tickets a ≡ some t
    → stop_party k h ≡ (cancel_party a t h, some a)
unfolding stop_party
stop_party_found k a t h e found = rw (e, stop_party) (rw (found, stop_party) refl)

-- `StopMatchmaking` of a player without a ticket changes nothing and returns null. Otherwise it returns
-- the ticket of the player. If the table lets the ticket be cancelled, it alone is cancelled, none of its
-- players finds a ticket any more while every other player finds what was found before, and no worker of
-- its group, if that is on file, has a request under its id in its waiting queue or in the queue of any
-- size, and their maps agree still. If not, the status of every ticket, the file and all groups are as
-- before. The maps of the file agree, and every ticket on it stands under its own id; in the groups of
-- tickets on file the maps of the workers agree, and what waits under the id of such a ticket has its
-- number of players.
pub stop_party-StopOutcome :
    (k : ℕ) (h : Hub)
    → IsIndexed (players_at h.server.tickets) h.server.party_tickets
    → IsFiled h.server
    → ((id a : ℕ) (t : Ticket)
        → lookup id h.server.party_tickets.entries ≡ some a
        → h.server.tickets a ≡ some t
        → IsSized a t h)
    → StopOutcome k h (stop_party k h)
stop_party-StopOutcome k h v filed sized =
    elim (Option-cases (find_by_player k h.server.party_tickets)) [
      | inl missing ↦ rw (stop_party_missing k h missing) (refl, missing)
      | inr (a, at_k) ↦
          let (id, entry) = find_by_player_entry k a h.server.party_tickets at_k in
          let (t, found, named) = filed id a entry in
          let listed =
            find_by_player-listed (players_at h.server.tickets) k a h.server.party_tickets v at_k in
          rw (stop_party_found k a t h at_k found) (
            t,
            found,
            at_k,
            rw (players_at-some h.server.tickets a t found) at listed,
            cancel_party-Outcome a t h v found (rw named entry) (sized id a t entry found),
          )
    ]
