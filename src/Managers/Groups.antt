-- ===== src/Managers/Groups.antt =====
-- MM/workers/WorkerGroup.h: `TWorkerGroupMap`, where groups are shared objects.
use cpp_matchmaking_mvp.Common.{◌≡◌, refl, sym, ◌∙◌, true, some, Bool-cases, inl, inr}
use cpp_matchmaking_mvp.Types.{GroupKey, eqb_group}
use cpp_matchmaking_mvp.SafeMap.Laws.{find-assign}
use cpp_matchmaking_mvp.Managers.{Manager, eqb_group_iff, group_key_eq, get_worker_group, put_group}

pub get_worker_group-put_group :
    {G : Type 0} (key : GroupKey) (g : G) (m : Manager G)
    → get_worker_group key (put_group key g m) ≡ some g
get_worker_group-put_group key g m =
    let own : eqb_group key key ≡ true = (eqb_group_iff key key).1 refl in
    find-assign key key g m.groups ∙ rw own refl

-- A group that is put back as it was.
pub get_worker_group-put_group_same :
    {G : Type 0} (key k : GroupKey) (g : G) (m : Manager G)
    → get_worker_group key m ≡ some g
    → get_worker_group k (put_group key g m) ≡ get_worker_group k m
get_worker_group-put_group_same key k g m found = elim (Bool-cases (eqb_group key k)) [
  | inl hit ↦
      let same : key ≡ k = (eqb_group_iff key k).0 hit in
      let at_k : get_worker_group k m ≡ some g = rw same at found in
      find-assign key k g m.groups ∙ rw hit (sym at_k)
  | inr miss ↦ find-assign key k g m.groups ∙ rw miss refl
]
