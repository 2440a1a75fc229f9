-- ===== src/Server/Clash.antt =====
-- MM/matching/MatchSessionManager.cpp: `CreateMatchSession` under an id that is in use.
use cpp_matchmaking_mvp.Common.{
  ℕ, ◌≡◌, refl, ap, ◌∙◌, none, some, List, [], ◌∷◌, lookup, arith, Bool-cases, Option-cases, inl,
  inr,
}
use cpp_matchmaking_mvp.Types.{ProtocolResult, create_match_session, failed}
use cpp_matchmaking_mvp.Ticket.{call_on, change_status}
use cpp_matchmaking_mvp.Session.{Session, all_players}
use cpp_matchmaking_mvp.Registry.{Registry}
use cpp_matchmaking_mvp.Registry.Outcome.{erase_entry-Erased, insert_entry-taken}
use cpp_matchmaking_mvp.Server.{
  Server, Owner, solo, party, owner_of, put_owned, erase_match_ticket, on_failed_matchmaking,
  notify_matchmaking_failure, notify_all, session_keys,
}
use cpp_matchmaking_mvp.Server.Matching.{insert_match_session, erase_match_session}
use cpp_matchmaking_mvp.Server.Create.{register_session}

put_owned-match_sessions :
    (o : Owner) (r : Registry) (s : Server) → (put_owned o r s).match_sessions ≡ s.match_sessions
put_owned-match_sessions solo r s = refl
put_owned-match_sessions party r s = refl

on_failed_matchmaking-match_sessions :
    (o : Owner) (a : ℕ) (reason : ProtocolResult) (s : Server)
    → (on_failed_matchmaking o a reason s).match_sessions ≡ s.match_sessions
unfolding on_failed_matchmaking erase_match_ticket
on_failed_matchmaking-match_sessions o a reason s = elim (Option-cases (s.tickets a)) [
  | inl missing ↦ rw (missing, on_failed_matchmaking) refl
  | inr (t, found) ↦ elim (Bool-cases (call_on a (change_status failed) s.tickets).1) [
    | inl done ↦ rw (found, done, on_failed_matchmaking) (put_owned-match_sessions o _ _)
    | inr refused ↦ rw (found, refused, on_failed_matchmaking) refl
  ]
]

notify_all-match_sessions :
    (ptrs : List ℕ) (reason : ProtocolResult) (s : Server)
    → (notify_all ptrs reason s).match_sessions ≡ s.match_sessions
unfolding notify_all notify_matchmaking_failure
notify_all-match_sessions [] reason s = refl
notify_all-match_sessions (a ∷ ptrs) reason s =
    notify_all-match_sessions ptrs reason (notify_matchmaking_failure a reason s) ∙ one
  where
    one : (notify_matchmaking_failure a reason s).match_sessions ≡ s.match_sessions
    one = elim (Option-cases (s.tickets a)) [
      | inl missing ↦ rw (missing, notify_matchmaking_failure) refl
      | inr (t, found) ↦
          rw (found, notify_matchmaking_failure)
            (on_failed_matchmaking-match_sessions (owner_of t) a reason s)
    ]

-- If the id of a new session is in use, the session that was on file under it is not on file any
-- more, and neither is the new one.
pub register_session-taken :
    (now p old : ℕ) (x : Session) (s : Server)
    → lookup x.match_id s.match_sessions.entries ≡ some old
    → lookup x.match_id (register_session now p x s).match_sessions.entries ≡ none
unfolding register_session insert_match_session erase_match_session
register_session-taken now p old x s taken =
    let players = all_players s.tickets x.ticket_list in
    let erased =
      (erase_entry-Erased (session_keys s) x.match_id s.match_sessions).0.entry x.match_id in
    rw (insert_entry-taken x.match_id p old players s.match_sessions taken) (
      ap (λ r. lookup x.match_id r.entries)
        (notify_all-match_sessions x.ticket_list create_match_session _)
      ∙ erased
      ∙ ground arith)
