-- ===== src/Process/Finish.antt =====
-- cmd/git-bridge/main.go: the shutdown can always come to its end, and what it may leave at work then.
use git_bridge.Base.{ℕ, zero, suc, Bool, true, false, ◌≡◌, refl, ◌⊎◌}
use git_bridge.Process.{
  Phase, Process, Step, end_task, handle, stop_polling, stop_listening, components_wait, tasks_wait,
  all_done, Reach, here, next,
}

pub follow : {p q r : Process} → Reach p q → Reach q r → Reach p r
follow path here = path
follow path (next rest step) = next (follow path rest) step

then_on : {p q r : Process} → Step p q → Reach q r → Reach p r
then_on step rest = follow (next here step) rest

module _ (p : Process) where
  listeners_stop :
      (n : ℕ) → p.serving ≡ false → Reach (record p { listeners = n }) (record p { listeners = 0 })
  listeners_stop zero off = here
  listeners_stop (suc n) off =
      then_on (stop_listening (record p { listeners = suc n }) n off refl) (listeners_stop n off)

  tasks_end : (n : ℕ) → Reach (record p { tasks = n }) (record p { tasks = 0 })
  tasks_end zero = here
  tasks_end (suc n) = then_on (end_task (record p { tasks = suc n }) n refl) (tasks_end n)

  consumers_stop :
      (n : ℕ) → p.serving ≡ false → Reach (record p { idle = n }) (record p { idle = 0 })
  consumers_stop zero off = here
  consumers_stop (suc n) off =
      then_on (stop_polling (record p { idle = suc n }) n off refl) (consumers_stop n off)

messages_end :
    (p : Process) (i n : ℕ)
    → (k : ℕ) × Reach (record p { idle = i; busy = n }) (record p { idle = k; busy = 0 })
messages_end p i zero = (i, here)
messages_end p i (suc n) =
    let rest = messages_end p (suc i) n in
    (rest.0, then_on (handle (record p { idle = i; busy = suc n }) n refl) rest.1)

group_waited :
    (p : Process) (b : Bool)
    → p.phase ≡ Phase.draining
    → p.tasks ≡ 0
    → Reach (record p { tasks_done = b }) (record p { tasks_done = true })
group_waited p true on none_left = here
group_waited p false on none_left =
    next here (tasks_wait (record p { tasks_done = false }) on refl none_left)

-- The state in which `WaitAll` has reported that all is drained.
unfoldable pub over : Process → Process
over p = record p {
  phase = Phase.drained;
  listeners = 0;
  tasks = 0;
  idle = 0;
  busy = 0;
  components_done = true;
  tasks_done = true;
}

pub draining-over : (p : Process) → p.phase ≡ Phase.draining → p.serving ≡ false → Reach p (over p)
unfolding over
draining-over p on off =
    let closed = record p { listeners = 0 } in
    let handled = messages_end closed p.idle p.busy in
    let still = record closed { idle = 0; busy = 0 } in
    let waited = record still { components_done = true } in
    let ended = record waited { tasks = 0 } in
    follow (listeners_stop p p.listeners off) (
      follow handled.1 (
        follow (consumers_stop (record closed { busy = 0 }) handled.0 off) (
          then_on (components_wait still on refl refl refl) (
            follow (tasks_end waited p.tasks) (
              follow (group_waited ended p.tasks_done on refl)
                (next here (all_done (record ended { tasks_done = true }) on refl refl)))))))

-- A process that drains has stopped serving.
IsShut : Process → Type 0
IsShut p = (p.phase ≡ Phase.running) ⊎ (p.serving ≡ false)
