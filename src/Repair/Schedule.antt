-- ===== src/Repair/Schedule.antt =====
-- core/cluster/repair/scheduler.go and executor.go: the queue of repairs, the limit of their rate,
-- and their execution, where the coordinator is set. sort.Slice is a parameter, and so is what the
-- client's (or the coordinator's) write to a node answers; time is in nanoseconds. The workers only
-- take a task, wait for the limit, and execute it.
use allidb.Base.{
  Bool, Bytes, List, Option, Result, [], err, false, if◌then◌else◌, leb, none, ok, some, true, ℕ,
  ◌++◌, ◌+◌, ◌-◌, ◌==◌, ◌∷◌,
}

-- Low, normal and high are 0, 1 and 2.
pub record RepairTask : Type 0 where
  pub key : Bytes
  pub correct_value : Bytes
  pub target_nodes : List Bytes
  pub priority : ℕ
  pub created_at : ℕ

pub record RateLimiter : Type 0 where
  pub max_rate : ℕ
  pub ops_count : ℕ
  pub window_start : ℕ

abbrev pub second : ℕ
second = 1000000000

unfoldable pub new_rate_limiter : ℕ → ℕ → RateLimiter
new_rate_limiter max_rate now = record { max_rate = max_rate; ops_count = 0; window_start = now }

-- A second after its start, a window ends and another one starts.
unfoldable pub open_window : ℕ → RateLimiter → RateLimiter
open_window now r =
    if leb second (now - r.window_start) then record r { ops_count = 0; window_start = now } else r

unfoldable pub allow : ℕ → RateLimiter → RateLimiter × Bool
unfolding open_window
allow now r =
    let r' = open_window now r in
    if leb r'.max_rate r'.ops_count
    then (r', false)
    else (record r' { ops_count = r'.ops_count + 1 }, true)

unfoldable pub schedule_repair :
    (List RepairTask → List RepairTask) → RepairTask → List RepairTask → List RepairTask
schedule_repair sort_slice task queue = sort_slice (queue ++ task ∷ [])

unfoldable pub dequeue_task : List RepairTask → Option (RepairTask × List RepairTask)
dequeue_task [] = none
dequeue_task (task ∷ queue) = some (task, queue)

pub record Executor : Type 0 where
  pub repairs_executed : ℕ
  pub repairs_failed : ℕ

pub data ExecutorError : Type 0 where
  no_valid_target_nodes all_writes_failed node_failed : ExecutorError

-- The writes to the nodes in turn: how many succeed, and how many fail. `write` tells whether the
-- client's write succeeds.
unfoldable pub write_to : (Bytes → Bool) → List Bytes → ℕ × ℕ
write_to write [] = (0, 0)
write_to write (n ∷ ns) =
    let (done, failed) = write_to write ns in
    if write n then (done + 1, failed) else (done, failed + 1)

unfoldable pub execute_repair :
    (Bytes → Bool) → RepairTask → Executor → Executor × Result ExecutorError (Unit {0})
unfolding write_to
execute_repair write task e = elim task.target_nodes [
  | [] ↦ (e, err no_valid_target_nodes)
  | n ∷ ns ↦
      let (done, failed) = write_to write (n ∷ ns) in
      (
        record {
          repairs_executed = e.repairs_executed + done;
          repairs_failed = e.repairs_failed + failed;
        },
        if done == 0 then err all_writes_failed else ok tt,
      )
]

unfoldable pub execute_repair_to_node :
    (Bytes → Bool) → Bytes → Executor → Executor × Result ExecutorError (Unit {0})
execute_repair_to_node write n e =
    if write n
    then (record e { repairs_executed = e.repairs_executed + 1 }, ok tt)
    else (record e { repairs_failed = e.repairs_failed + 1 }, err node_failed)
