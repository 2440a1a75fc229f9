-- ===== src/Request.antt =====
-- MM/workers/WorkerJobRequest.h: requests are shared objects. What never changes stands in the queues
-- by value; the part that changes stands on a heap of its own, by the address of the request.
use cpp_matchmaking_mvp.Common.{
  ℕ, ◌+◌, ◌-◌, min, Bool, true, false, none, some, Dict, lookup, insert, if◌then◌else◌, ◌==◌,
  length,
}
use cpp_matchmaking_mvp.Ticket.{Ticket, get_players}

-- `CMatchmakingRequest`; `pointer` is its address, `ticket` that of its ticket.
pub record Request : Type 0 where
  pub pointer : ℕ
  pub ticket : ℕ
  pub ticket_id : ℕ
  pub player_count : ℕ
  pub start_time_msec : ℕ

-- The constructor, for a ticket that is there.
unfoldable pub make_request : (pointer ticket now : ℕ) → Ticket → Request
make_request p a now t = record {
  pointer = p;
  ticket = a;
  ticket_id = t.ticket_id;
  player_count = length (get_players t);
  start_time_msec = now;
}

-- `m_BaseWorkerIndex` and `m_WorkerExpansionLevel`
pub record Slot : Type 0 where
  pub base_worker_index : ℕ
  pub expansion_level : ℕ

abbrev pub new_slot : Slot
new_slot = record { base_worker_index = 0; expansion_level = 0 }

abbrev pub Slots : Type 0
Slots = ℕ → Slot

abbrev pub put_slot : (pointer : ℕ) → Slot → Slots → Slots
put_slot p x m q = if p == q then x else m q

-- `GetMinWorkerIndex`: `std::clamp<int>(base - level, 0, last)`, where what is below 0 is clamped.
unfoldable pub get_min_worker_index : (last : ℕ) → Slot → ℕ
get_min_worker_index last x = min (x.base_worker_index - x.expansion_level) last

-- `GetMaxWorkerIndex`
unfoldable pub get_max_worker_index : (last : ℕ) → Slot → ℕ
get_max_worker_index last x = min (x.base_worker_index + x.expansion_level) last

-- `map.emplace(...)` of a request, and whether it has inserted.
abbrev pub emplace : ℕ → Request → Dict Request → Dict Request × Bool
emplace id r m = elim (lookup id m) [ none ↦ (insert id r m, true) | some _ ↦ (m, false) ]
