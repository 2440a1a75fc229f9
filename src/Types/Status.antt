-- ===== src/Types/Status.antt =====
-- MM/matching/MatchmakingTypes.h: `EMatchTicketStatus` and `nMatchTicketStatusEx`.
use cpp_matchmaking_mvp.Common.{Bool, true, false, List, [], ◌∷◌, ◌||◌}

-- `unset` is `None`.
pub data MatchTicketStatus : Type 0 where
  unset queued searching requires_acceptance placing completed failed cancelled timed_out :
      MatchTicketStatus

abbrev pub eqb_status : MatchTicketStatus → MatchTicketStatus → Bool
eqb_status unset unset = true
eqb_status queued queued = true
eqb_status searching searching = true
eqb_status requires_acceptance requires_acceptance = true
eqb_status placing placing = true
eqb_status completed completed = true
eqb_status failed failed = true
eqb_status cancelled cancelled = true
eqb_status timed_out timed_out = true
eqb_status _ _ = false

-- `m_StateChangeMap`
abbrev pub successors : MatchTicketStatus → List MatchTicketStatus
successors unset = queued ∷ cancelled ∷ failed ∷ []
successors queued = searching ∷ cancelled ∷ failed ∷ []
successors searching = requires_acceptance ∷ placing ∷ failed ∷ []
successors requires_acceptance = placing ∷ timed_out ∷ failed ∷ []
successors placing = completed ∷ timed_out ∷ failed ∷ []
successors completed = []
successors failed = []
successors cancelled = []
successors timed_out = []

abbrev contains_status : MatchTicketStatus → List MatchTicketStatus → Bool
contains_status s [] = false
contains_status s (t ∷ ts) = eqb_status s t || contains_status s ts

-- `nMatchTicketStatusEx::CanChangeStatus`
unfoldable pub can_change_status : MatchTicketStatus → MatchTicketStatus → Bool
can_change_status curr next = contains_status next (successors curr)
