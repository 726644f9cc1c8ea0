-- ===== src/Process/Drain.antt =====
-- cmd/git-bridge/main.go: what is over when the process goes down without having cancelled anything.
use git_bridge.Base.{ℕ, true, false, ◌≡◌, ◌≤◌, ◌⊎◌, arith}
use git_bridge.Process.{
  Phase, Process, started, Step, accept, answer, start_task, end_task, receive, handle,
  stop_polling, stop_listening, fail_listening, fail_consumer, signal, components_wait, tasks_wait,
  all_done, time_out, Reach, here, next,
}

-- The waits have returned only for what is over: listeners and consumers stay so, and tasks but for those
-- that started later.
pub record IsCounted (p : Process) : Type 0 where
  pub components : (p.components_done ≡ false) ⊎ ((p.listeners ≡ 0) × (p.idle ≡ 0) × (p.busy ≡ 0))
  pub group : (p.tasks_done ≡ false) ⊎ (p.tasks ≤ p.late)
  pub over : (p.phase ≡ Phase.drained) → (p.components_done ≡ true) × (p.tasks_done ≡ true)

Step-IsCounted : {p q : Process} → Step p q → IsCounted p → IsCounted q
Step-IsCounted (accept p h) inv = grind arith
Step-IsCounted (answer p n h) inv = grind arith
Step-IsCounted (start_task p h) inv = grind arith
Step-IsCounted (end_task p n h) inv = grind arith
Step-IsCounted (receive p n s h) inv = grind arith
Step-IsCounted (handle p n h) inv = grind arith
Step-IsCounted (stop_polling p n s h) inv = grind arith
Step-IsCounted (stop_listening p n s h) inv = grind arith
Step-IsCounted (fail_listening p n h) inv = grind arith
Step-IsCounted (fail_consumer p n h) inv = grind arith
Step-IsCounted (signal p h) inv = grind arith
Step-IsCounted (components_wait p h l i b) inv = grind arith
Step-IsCounted (tasks_wait p h d t) inv = grind arith
Step-IsCounted (all_done p h c t) inv = grind arith
Step-IsCounted (time_out p h) inv = grind arith

started-IsCounted : (n : ℕ) → IsCounted (started n)
started-IsCounted n = grind arith

Reach-IsCounted : {p q : Process} → IsCounted p → Reach p q → IsCounted q
Reach-IsCounted inv here = inv
Reach-IsCounted inv (next path step) = Step-IsCounted step (Reach-IsCounted inv path)

-- Whatever the order of events since all goroutines were started, when `WaitAll` has reported that the
-- work is drained, both listeners and all consumers have returned, no message is being handled, and the
-- tasks that still run are at most as many as were started since the wait for tasks returned.
pub drained-over :
    (n : ℕ) (p : Process)
    → Reach (started n) p
    → p.phase ≡ Phase.drained
    → (p.listeners ≡ 0) × (p.idle ≡ 0) × (p.busy ≡ 0) × (p.tasks ≤ p.late)
drained-over n p path over =
    let inv = Reach-IsCounted (started-IsCounted n) path in ground (arith, inv)
