-- ===== src/PartyGroup/Placed.antt =====
-- MM/matching/workers/PartyMatchmakingWorker.cpp: where a request starts to wait.
use cpp_matchmaking_mvp.Common.{
  ℕ, ◌<◌, ◌≡◌, refl, Bool, true, false, ◌&&◌, none, some, lookup, arith, Bool-cases, Option-cases,
  inl, inr, has_value,
}
use cpp_matchmaking_mvp.Ticket.{Tickets}
use cpp_matchmaking_mvp.Request.{Request}
use cpp_matchmaking_mvp.PartyWorker.{Worker, enqueue_request}
use cpp_matchmaking_mvp.PartyGroup.{
  Group, last_index, enqueue_at_base, enqueue_job_request, place_request, get_worker_index,
  erase_ptr,
}
use cpp_matchmaking_mvp.PartyGroup.Everywhere.{
  Waiting, insert-Everywhere, erase_ptr-Waiting, enqueue_request-Waiting,
}
use cpp_matchmaking_mvp.PartyGroup.Reach.{Within, WithinReach, Fresh, base-Within, other-Within}

pub record IsPlaced (g : Group) : Type 0 where
  pub positive : 0 < g.worker_count
  pub within : WithinReach g

enqueue_at_base-IsPlaced :
    (r : Request) (base : ℕ) (g : Group) (s : Tickets) (w : Worker) (o : Worker × Bool)
    → 0 < g.worker_count
    → WithinReach g
    → lookup base g.workers ≡ some w
    → Waiting (Within (last_index g) g.slots base) o.0
    → IsPlaced (enqueue_at_base r base g s w o).0
enqueue_at_base-IsPlaced r base g s w (w', true) p all found here = record {
  positive = p;
  within = insert-Everywhere (Within (last_index g) g.slots) base w' g.workers here all;
}
enqueue_at_base-IsPlaced r base g s w (w', false) p all found here = record {
  positive = p;
  within =
      insert-Everywhere (Within (last_index g) g.slots) base (erase_ptr r.ticket s w') g.workers
        (erase_ptr-Waiting (Within (last_index g) g.slots) r.ticket s base w' here) all;
}

place_request-IsPlaced :
    (now : ℕ) (r : Request) (g : Group) → Fresh r g → IsPlaced g → IsPlaced (place_request now r g)
unfolding place_request
place_request-IsPlaced now r g fresh v = record {
  positive = v.positive;
  within = λ i id w q at_i e.
      other-Within (last_index g) i r q
        (record (g.slots r.pointer) { base_worker_index = get_worker_index r g }) g.slots
        (fresh i id w q at_i e) (v.within i id w q at_i e);
}

place_request-Within :
    (now : ℕ) (r : Request) (g : Group)
    → 0 < g.worker_count
    → Within (last_index g) (place_request now r g).slots (get_worker_index r g) r
unfolding place_request
place_request-Within now r g p =
    base-Within (last_index g) (get_worker_index r g) r g.slots (grind arith)

pub enqueue_job_request-refused :
    (now : ℕ) (r : Request) (g : Group) (s : Tickets)
    → (has_value (s r.ticket) && has_value (lookup r.player_count g.rule.combination)) ≡ false
    → enqueue_job_request now r g s ≡ (g, s, false)
unfolding enqueue_job_request
enqueue_job_request-refused now r g s e = rw e refl

pub enqueue_job_request-missing :
    (now : ℕ) (r : Request) (g : Group) (s : Tickets)
    → (has_value (s r.ticket) && has_value (lookup r.player_count g.rule.combination)) ≡ true
    → lookup (get_worker_index r g) g.workers ≡ none
    → enqueue_job_request now r g s ≡ (place_request now r g, s, false)
unfolding enqueue_job_request
enqueue_job_request-missing now r g s e m = rw e (rw (m, enqueue_job_request) refl)

pub enqueue_job_request-found :
    (now : ℕ) (r : Request) (g : Group) (s : Tickets) (w : Worker)
    → (has_value (s r.ticket) && has_value (lookup r.player_count g.rule.combination)) ≡ true
    → lookup (get_worker_index r g) g.workers ≡ some w
    → enqueue_job_request now r g s
      ≡ enqueue_at_base r (get_worker_index r g) (place_request now r g) s w (enqueue_request r w)
unfolding enqueue_job_request
enqueue_job_request-found now r g s w e f = rw e (rw (f, enqueue_job_request) refl)

place_request-workers :
    (now : ℕ) (r : Request) (g : Group) → (place_request now r g).workers ≡ g.workers
unfolding place_request
place_request-workers now r g = refl

pub enqueue_job_request-IsPlaced :
    (now : ℕ) (r : Request) (g : Group) (s : Tickets)
    → Fresh r g
    → IsPlaced g
    → IsPlaced (enqueue_job_request now r g s).0
unfolding place_request
enqueue_job_request-IsPlaced now r g s fresh v =
    elim (Bool-cases
      (has_value (s r.ticket) && has_value (lookup r.player_count g.rule.combination))) [
        | inr refused ↦ rw (enqueue_job_request-refused now r g s refused) v
        | inl may ↦
            let placed = place_request-IsPlaced now r g fresh v in
            elim (Option-cases (lookup (get_worker_index r g) g.workers)) [
              | inl missing ↦ rw (enqueue_job_request-missing now r g s may missing) placed
              | inr (w, found) ↦ rw (enqueue_job_request-found now r g s w may found) (
                  enqueue_at_base-IsPlaced r (get_worker_index r g) (place_request now r g) s w
                    (enqueue_request r w) v.positive placed.within found
                    (enqueue_request-Waiting (Within (last_index g) (place_request now r g).slots)
                      (get_worker_index r g) r w (place_request-Within now r g v.positive)
                      (λ id q. placed.within (get_worker_index r g) id w q found)))
            ]
      ]
