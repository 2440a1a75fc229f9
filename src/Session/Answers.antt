-- ===== src/Session/Answers.antt =====
-- MM/matching/core/MatchSession.cpp: the answers of the players to a session that awaits them.
use cpp_matchmaking_mvp.Common.{
  ◌≡◌, refl, ◌∙◌, true, false, none, some, lookup, insert, lookup-insert, arith, Bool-cases,
  Option-cases, inl, inr,
}
use cpp_matchmaking_mvp.Types.{PlayerMatchAcceptInfo}
use cpp_matchmaking_mvp.Session.{Session, accept_player_session}

-- The answer as it is kept.
abbrev pub responded : PlayerMatchAcceptInfo → PlayerMatchAcceptInfo
responded info = record info { has_responded = true }

accept_player_session-noted :
    (info old : PlayerMatchAcceptInfo) (x : Session)
    → lookup info.player_key x.accept_infos ≡ some old
    → old.has_responded ≡ false
    → accept_player_session info x
      ≡ (record x { accept_infos = insert info.player_key (responded info) x.accept_infos }, true)
unfolding accept_player_session
accept_player_session-noted info old x found unanswered =
    rw (found, accept_player_session) (rw unanswered refl)

accept_player_session-closed :
    (info old : PlayerMatchAcceptInfo) (x : Session)
    → lookup info.player_key x.accept_infos ≡ some old
    → old.has_responded ≡ true
    → accept_player_session info x ≡ (x, false)
unfolding accept_player_session
accept_player_session-closed info old x found closed =
    rw (found, accept_player_session) (rw closed refl)

accept_player_session-stranger :
    (info : PlayerMatchAcceptInfo) (x : Session)
    → lookup info.player_key x.accept_infos ≡ none
    → accept_player_session info x ≡ (x, false)
unfolding accept_player_session
accept_player_session-stranger info x missing = rw (missing, accept_player_session) refl

-- Once an answer is noted, a later answer of the same player is refused and changes nothing.
pub accept_player_session-twice :
    (info again : PlayerMatchAcceptInfo) (x : Session)
    → (accept_player_session info x).1 ≡ true
    → again.player_key ≡ info.player_key
    → accept_player_session again (accept_player_session info x).0
      ≡ ((accept_player_session info x).0, false)
accept_player_session-twice info again x noted same =
    elim (Option-cases (lookup info.player_key x.accept_infos)) [
      | inl missing ↦ absurd (let e = accept_player_session-stranger info x missing in cc)
      | inr (old, found) ↦ elim (Bool-cases old.has_responded) [
        | inl closed ↦ absurd (let e = accept_player_session-closed info old x found closed in cc)
        | inr unanswered ↦
            (let now =
                lookup-insert info.player_key again.player_key (responded info) x.accept_infos in
              let kept = now ∙ ground arith in
              rw (accept_player_session-noted info old x found unanswered)
                (accept_player_session-closed again (responded info) _ kept refl))
      ]
    ]
