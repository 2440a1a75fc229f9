-- ===== src/Server/File.antt =====
-- MM/matching/SoloMatchmakingManager.cpp and PartyMatchmakingManager.cpp: the maps of tickets of the
-- managers, their files, and the heap of tickets.
use cpp_matchmaking_mvp.Common.{
  ℕ, ◌+◌, ◌≤◌, ◌≡◌, refl, sym, ◌∙◌, Bool, true, false, Option, none, some, List, ◌==◌, ==_iff,
  lookup, arith, Bool-cases, inl, inr,
}
use cpp_matchmaking_mvp.Ticket.{Ticket, Tickets, get_players, players_at, store}
use cpp_matchmaking_mvp.Ticket.Heap.{players_at-some}
use cpp_matchmaking_mvp.Ticket.Kept.{Kept, KeepsTickets}
use cpp_matchmaking_mvp.Registry.{Registry, insert_entry, erase_entry}
use cpp_matchmaking_mvp.Server.{Server, Owner, solo, party, erase_match_ticket}
use cpp_matchmaking_mvp.Registry.Invariant.{
  IsIndexed, insert_entry-IsIndexed, erase_entry-IsIndexed,
}
use cpp_matchmaking_mvp.Registry.Outcome.{
  InsertOutcome, insert_entry-InsertOutcome, erase_entry-Erased,
}

-- The file of a manager: its maps agree, and what is on it stands on the heap under its own id.
pub record IsFile (s : Tickets) (r : Registry) : Type 0 where
  pub indexed : IsIndexed (players_at s) r
  pub filed :
      (id a : ℕ) → lookup id r.entries ≡ some a → (t : Ticket) × (s a ≡ some t) × (t.ticket_id ≡ id)

-- Only the tickets on file matter.
IsIndexed-keys :
    (keys keys' : ℕ → List ℕ) (r : Registry)
    → ((id a : ℕ) → lookup id r.entries ≡ some a → keys' a ≡ keys a)
    → IsIndexed keys r
    → IsIndexed keys' r
IsIndexed-keys keys keys' r same v = record {
  leads =
      λ k id e. let (ptr, found, has) = v.leads k id e in (ptr, found, rw (same id ptr found) has);
  listed = λ k id ptr e c. v.listed k id ptr e (rw (same id ptr e) at c);
}

-- What keeps the tickets on file keeps the file.
pub IsFile-heap :
    (s s' : Tickets) (r : Registry)
    → ((a : ℕ) (t : Ticket) → s a ≡ some t → Kept (some t) (s' a))
    → IsFile s r
    → IsFile s' r
IsFile-heap s s' r keeps v = record {
  indexed = IsIndexed-keys (players_at s) (players_at s') r same v.indexed;
  filed = λ id a e.
      let (t, found, named) = v.filed id a e in
      let (t', found', id_kept, _) = keeps a t found in (t', found', id_kept ∙ named);
}
  where
    same : (id a : ℕ) → lookup id r.entries ≡ some a → players_at s' a ≡ players_at s a
    same id a e =
        let (t, found, named) = v.filed id a e in
        let (t', found', _, players) = keeps a t found in
        players_at-some s' a t' found' ∙ players ∙ sym (players_at-some s a t found)

-- A file and the heap, where no ticket stands at an address from `n` on.
pub record OnFile (n : ℕ) (s : Tickets) (r : Registry) : Type 0 where
  pub fresh : (b : ℕ) → n ≤ b → s b ≡ none
  pub file : IsFile s r

Kept-none : (o o' : Option Ticket) → o ≡ none → Kept o o' → o' ≡ none
Kept-none none o' e k = k
Kept-none (some t) o' e k = absurd (cc)

Kept-some : (t : Ticket) (o o' : Option Ticket) → o ≡ some t → Kept o o' → Kept (some t) o'
Kept-some t o o' e k = rw e at k

OnFile-heap :
    (n : ℕ) (s s' : Tickets) (r : Registry) → KeepsTickets s s' → OnFile n s r → OnFile n s' r
OnFile-heap n s s' r keeps v = record {
  fresh = λ b le. Kept-none (s b) (s' b) (v.fresh b le) (keeps b);
  file = IsFile-heap s s' r (λ a t e. Kept-some t (s a) (s' a) e (keeps a)) v.file;
}

-- A new ticket.
pub OnFile-store :
    (n : ℕ) (t : Ticket) (s : Tickets) (r : Registry)
    → OnFile n s r
    → OnFile (n + 1) (store n t s) r
OnFile-store n t s r v = record {
  fresh = λ b le. let miss : (n == b) ≡ false = ground arith in rw miss (v.fresh b (omega arith));
  file = IsFile-heap s (store n t s) r others v.file;
}
  where
    others : (a : ℕ) (u : Ticket) → s a ≡ some u → Kept (some u) (store n t s a)
    others a u e = elim (Bool-cases (n == a)) [
      | inl hit ↦
          let same : n ≡ a = (==_iff n a).0 hit in
          let empty : s a ≡ none = v.fresh a (omega arith) in absurd (cc)
      | inr miss ↦ (u, rw miss e, refl, refl)
    ]

abbrev AllFiled : Tickets → Registry → Type 0
AllFiled s r =
    (id a : ℕ) → lookup id r.entries ≡ some a → (t : Ticket) × (s a ≡ some t) × (t.ticket_id ≡ id)

InsertOutcome-AllFiled :
    (a : ℕ) (t : Ticket) (ks : List ℕ) (s : Tickets) (r : Registry) (o : Registry × Bool)
    → s a ≡ some t
    → AllFiled s r
    → InsertOutcome t.ticket_id a ks r o
    → AllFiled s o.0
InsertOutcome-AllFiled a t ks s r (r', false) found v n id b e = v id b (sym (n.entry id) ∙ e)
InsertOutcome-AllFiled a t ks s r (r', true) found v n id b e =
    let entry = n.entry id in
    elim (Bool-cases (t.ticket_id == id)) [
      | inl hit ↦
          let new : some a ≡ some b = sym (rw hit at entry) ∙ e in
          let same : a ≡ b = cc in (t, rw same at found, (==_iff t.ticket_id id).0 hit)
      | inr miss ↦ v id b (sym (rw miss at entry) ∙ e)
    ]

pub OnFile-insert_entry :
    (n a : ℕ) (t : Ticket) (s : Tickets) (r : Registry)
    → s a ≡ some t
    → OnFile n s r
    → OnFile n s (insert_entry t.ticket_id a (get_players t) r).0
OnFile-insert_entry n a t s r found v =
    let indexed = insert_entry-IsIndexed (players_at s) t.ticket_id a r v.file.indexed in
    record {
      fresh = v.fresh;
      file = record {
        indexed = rw (players_at-some s a t found) at indexed;
        filed =
            InsertOutcome-AllFiled a t (get_players t) s r _ found v.file.filed
              (insert_entry-InsertOutcome t.ticket_id a (get_players t) r);
      };
    }

OnFile-erase_entry :
    (n id : ℕ) (s : Tickets) (r : Registry)
    → OnFile n s r
    → OnFile n s (erase_entry (players_at s) id r).0
OnFile-erase_entry n id s r v = record {
  fresh = v.fresh;
  file = record {
    indexed = erase_entry-IsIndexed (players_at s) id r v.file.indexed;
    filed = left;
  };
}
  where
    left : AllFiled s (erase_entry (players_at s) id r).0
    left j b e =
        let gone = (erase_entry-Erased (players_at s) id r).0.entry j in
        elim (Bool-cases (id == j)) [
          | inl hit ↦ absurd (cc (rw hit at gone))
          | inr miss ↦ v.file.filed j b (sym (rw miss at gone) ∙ e)
        ]

-- The two files and the heap of a state.
abbrev pub Holds : ℕ → Server → Type 0
Holds n s = OnFile n s.tickets s.party_tickets × OnFile n s.tickets s.solo_tickets

pub erase_match_ticket-Holds :
    (n id : ℕ) (o : Owner) (s : Server) → Holds n s → Holds n (erase_match_ticket o id s)
unfolding erase_match_ticket
erase_match_ticket-Holds n id party s v =
    (OnFile-erase_entry n id s.tickets s.party_tickets v.0, v.1)
erase_match_ticket-Holds n id solo s v = (v.0, OnFile-erase_entry n id s.tickets s.solo_tickets v.1)

pub Holds-heap :
    (n : ℕ) (s : Server) (m : Tickets)
    → KeepsTickets s.tickets m
    → Holds n s
    → Holds n (record s { tickets = m })
Holds-heap n s m keeps v = (
  OnFile-heap n s.tickets m s.party_tickets keeps v.0,
  OnFile-heap n s.tickets m s.solo_tickets keeps v.1,
)
