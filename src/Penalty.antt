-- ===== src/Penalty.antt =====
-- MM/matching/MatchPenaltyManager.h and .cpp. A method that reads the clock takes `now`.
pub mod Observe
use cpp_matchmaking_mvp.Common.{
  ℕ, ◌+◌, Bool, true, false, Option, none, some, List, [], ◌∷◌, leb, ltb, if◌then◌else◌, Dict,
  lookup, insert, erase,
}
use cpp_matchmaking_mvp.Types.{PlayerMatchDodgePenalty}
use cpp_matchmaking_mvp.Jobs.{Group, make_group, do_async_job}

-- A job of this manager is the expiry check of one player.
pub record PenaltyManager : Type 0 where
  pub penalty_map : Dict PlayerMatchDodgePenalty
  pub jobs : Group ℕ
  pub is_running : Bool

-- The constructor.
abbrev pub make_penalty_manager : PenaltyManager
make_penalty_manager = record { penalty_map = []; jobs = make_group 1; is_running = false }

-- `Init`
abbrev pub init_penalties : PenaltyManager → PenaltyManager
init_penalties p = record p { is_running = true }

-- `FindDodgePenalty`
unfoldable pub find_dodge_penalty : (player : ℕ) → PenaltyManager → Option PlayerMatchDodgePenalty
find_dodge_penalty k p = lookup k p.penalty_map

-- `ClearDodgePenalty`
unfoldable pub clear_dodge_penalty : (player : ℕ) → PenaltyManager → PenaltyManager
clear_dodge_penalty k p = record p { penalty_map = erase k p.penalty_map }

-- `AddDodgePenalty`
unfoldable pub add_dodge_penalty : (player expire_msec : ℕ) → PenaltyManager → PenaltyManager
add_dodge_penalty k expire p = record p {
  penalty_map =
      insert k (record { player_key = k; penalty_expire_time_msec = expire }) p.penalty_map;
  jobs = (do_async_job expire k p.jobs).0;
}

-- The job that `AddDodgePenalty` enqueues.
unfoldable pub expire_dodge_penalty : (now player : ℕ) → PenaltyManager → PenaltyManager
unfolding find_dodge_penalty clear_dodge_penalty
expire_dodge_penalty now k p = elim (find_dodge_penalty k p) [
  | none ↦ p
  | some d ↦ if leb d.penalty_expire_time_msec now then clear_dodge_penalty k p else p
]

abbrev pub is_penalized : (now : ℕ) → Option PlayerMatchDodgePenalty → Bool
is_penalized now none = false
is_penalized now (some d) = ltb now d.penalty_expire_time_msec

-- `HasDodgePenalty` of one player.
unfoldable pub has_dodge_penalty : (player now : ℕ) → PenaltyManager → Bool
unfolding find_dodge_penalty
has_dodge_penalty k now p = is_penalized now (find_dodge_penalty k p)

-- `HasDodgePenalty` of a request: the loop over its players.
unfoldable pub any_dodge_penalty : (players : List ℕ) (now : ℕ) → PenaltyManager → Bool
unfolding has_dodge_penalty
any_dodge_penalty [] now p = false
any_dodge_penalty (k ∷ ks) now p =
    let rest = any_dodge_penalty ks now p in if has_dodge_penalty k now p then true else rest
