-- ===== src/Tests/ProcessRuns.antt =====
-- Shutdowns with one consumer.
use git_bridge.Base.{true, false, ◌≡◌, ◌≤◌, refl, arith}
use git_bridge.Process.{Phase, Process, started, Reach, here, next, signal, accept, start_task}
use git_bridge.Process.Drain.{drained-over}
use git_bridge.Process.Finish.{follow, over, draining-over}

-- A request is accepted and starts a task, and then the signal comes.
abbrev shut : Process
shut = record (started 1) { phase = Phase.draining; serving = false; requests = 1; tasks = 1 }

shuts : Reach (started 1) shut
shuts =
    next
      (next (next here (accept (started 1) (ground arith)))
        (start_task (record (started 1) { requests = 1 }) (ground arith)))
      (signal (record (started 1) { requests = 1; tasks = 1 }) refl)

-- Its end, in which the request is still at work.
abbrev gone : Process
gone = record shut {
  phase = Phase.drained;
  listeners = 0;
  tasks = 0;
  idle = 0;
  busy = 0;
  components_done = true;
  tasks_done = true;
}

goes : Reach (started 1) gone
unfolding over
goes = follow shuts (draining-over shut refl refl)

drained-over_example :
    (gone.listeners ≡ 0) × (gone.idle ≡ 0) × (gone.busy ≡ 0) × (gone.tasks ≤ gone.late)
drained-over_example = drained-over 1 gone goes refl
