-- ===== src/Process.antt =====
-- cmd/git-bridge/main.go, internal/task/task.go, and `RunServer`, `RunConsole` of internal/server: the
-- goroutines of the process from the moment all are started, and its shutdown. A state counts what is
-- running; a step is what one goroutine, a client, the signal or the timer does next, in any order.
pub mod Drain
pub mod Finish
use git_bridge.Base.{ℕ, suc, ◌+◌, Bool, true, false, ◌≡◌, ◌<◌}

pub data Phase : Type 0 where
  -- waiting for the signal; inside `WaitAll`; and the two ways out of it
  running draining drained expired : Phase

pub record Process : Type 0 where
  pub phase : Phase
  pub serving : Bool  -- serveCtx is not cancelled
  pub listeners : ℕ  -- `RunServer` and `RunConsole` that have not returned
  pub requests : ℕ  -- handlers at work
  pub tasks : ℕ  -- the count of the task group's WaitGroup
  pub idle : ℕ  -- consumers between messages
  pub busy : ℕ  -- consumers with a message
  pub components_done : Bool  -- the `wg.Wait` that `WaitAll` runs has returned
  pub tasks_done : Bool  -- the `tasks.Wait` that `WaitAll` runs has returned
  pub late : ℕ  -- of the tasks, those started since then

-- The state when main waits for the signal: both listeners and all consumers are running.
abbrev pub started : ℕ → Process
started consumers = record {
  phase = Phase.running;
  serving = true;
  listeners = 2;
  requests = 0;
  tasks = 0;
  idle = consumers;
  busy = 0;
  components_done = false;
  tasks_done = false;
  late = 0;
}

-- A task that starts after the wait for tasks has returned is late.
abbrev pub one_more : Bool → ℕ → ℕ
one_more true n = suc n
one_more false n = n

pub data Step : Process → Process → Type 0 where
  -- A listener takes a request while it has not returned.
  accept : (p : Process) → 0 < p.listeners → Step p (record p { requests = suc p.requests })
  -- A handler returns.
  answer : (p : Process) (n : ℕ) → p.requests ≡ suc n → Step p (record p { requests = n })
  -- `Group.Go`, called by a handler
  start_task :
      (p : Process)
      → 0 < p.requests
      → Step p (record p { tasks = suc p.tasks; late = one_more p.tasks_done p.late })
  -- The function of a task returns, and its `Done` runs.
  end_task : (p : Process) (n : ℕ) → p.tasks ≡ suc n → Step p (record p { tasks = n })
  -- A consumer that still polls receives a message.
  receive :
      (p : Process) (n : ℕ)
      → p.serving ≡ true
      → p.idle ≡ suc n
      → Step p (record p { idle = n; busy = suc p.busy })
  -- A message is handled.
  handle :
      (p : Process) (n : ℕ) → p.busy ≡ suc n → Step p (record p { idle = suc p.idle; busy = n })
  -- A consumer sees that its polling context is cancelled, and returns.
  stop_polling :
      (p : Process) (n : ℕ) → p.serving ≡ false → p.idle ≡ suc n → Step p (record p { idle = n })
  -- ListenAndServe returns as soon as Shutdown is called; handlers at work go on.
  stop_listening :
      (p : Process) (n : ℕ)
      → p.serving ≡ false
      → p.listeners ≡ suc n
      → Step p (record p { listeners = n })
  -- A listener fails, and returns.
  fail_listening : (p : Process) (n : ℕ) → p.listeners ≡ suc n → Step p (record p { listeners = n })
  -- A consumer cannot be set up, and returns.
  fail_consumer : (p : Process) (n : ℕ) → p.idle ≡ suc n → Step p (record p { idle = n })
  -- The signal: `stopServing`, and `WaitAll` begins.
  signal :
      (p : Process)
      → p.phase ≡ Phase.running
      → Step p (record p { phase = Phase.draining; serving = false })
  -- `wg.Wait` returns.
  components_wait :
      (p : Process)
      → p.phase ≡ Phase.draining
      → p.listeners ≡ 0
      → p.idle ≡ 0
      → p.busy ≡ 0
      → Step p (record p { components_done = true })
  -- `Group.Wait` returns.
  tasks_wait :
      (p : Process)
      → p.phase ≡ Phase.draining
      → p.tasks_done ≡ false
      → p.tasks ≡ 0
      → Step p (record p { tasks_done = true })
  -- `WaitAll` finds its channel closed.
  all_done :
      (p : Process)
      → p.phase ≡ Phase.draining
      → p.components_done ≡ true
      → p.tasks_done ≡ true
      → Step p (record p { phase = Phase.drained })
  -- `WaitAll` finds its timer fired.
  time_out : (p : Process) → p.phase ≡ Phase.draining → Step p (record p { phase = Phase.expired })

pub data Reach (p : Process) : Process → Type 0 where
  here : Reach p p
  next : {q r : Process} → Reach p q → Step q r → Reach p r
