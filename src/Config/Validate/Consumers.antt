-- ===== src/Config/Validate/Consumers.antt =====
-- internal/config/config.go, `validate`: the loop over the consumers, which completes each.
pub mod Queues
use git_bridge.Base.{
  Text, ℕ, suc, ℤ, pos, int_eq, int_lt, show_int, List, [], ◌∷◌, Option, none, some, Bool, true,
  false, if◌then◌else◌, lit, concat, ◌==◌, member, show_nat, ◌++◌,
}
use git_bridge.Config.{ConsumerConfig}
use git_bridge.Config.Validate.Faults.{first_fault}
use git_bridge.Errors.{Error, Result, value, failed, plain, quote}

-- The defaults of one consumer, the i-th.
unfoldable pub completed : ℤ → ℕ → ConsumerConfig → ConsumerConfig
completed timeout i c = record c {
  type = if c.type == [] then lit "sqs" else c.type;
  name = if c.name == [] then lit "sqs-" ++ show_nat i else c.name;
  visibility_timeout_seconds =
      if int_eq c.visibility_timeout_seconds (pos 0) then timeout else c.visibility_timeout_seconds;
}

-- The checks on a consumer `c`, which the round completes to `d`.
unfoldable pub consumer_faults :
    ℤ → ℕ → List Text → ConsumerConfig → ConsumerConfig → List (Bool × Error)
consumer_faults timeout i names c d =
    (
      c.queue_url == [],
      plain (concat (lit "consumers[" ∷ show_nat i ∷ lit "]: queue_url required" ∷ [])),
    )
    ∷ (
      member d.name names,
      plain (concat (lit "consumers[" ∷ show_nat i ∷ lit "]: duplicate name " ∷ quote d.name ∷ [])),
    )
    ∷ (
      int_lt d.visibility_timeout_seconds timeout,
      plain (
          concat (
            lit "consumers["
            ∷ show_nat i
            ∷ lit "] "
            ∷ d.name
            ∷ lit ": visibility_timeout_seconds ("
            ∷ show_int d.visibility_timeout_seconds
            ∷ lit ") must be at least mirror.timeout_seconds ("
            ∷ show_int timeout
            ∷ lit
                ") — a shorter window makes the message visible again mid-sync, so it is redelivered, blocks on the per-repo mutex, and ends up in the DLQ"
            ∷ [])),
    )
    ∷ (
      int_lt (pos 43200) d.visibility_timeout_seconds,
      plain (
          concat (
            lit "consumers["
            ∷ show_nat i
            ∷ lit "] "
            ∷ d.name
            ∷ lit ": visibility_timeout_seconds ("
            ∷ show_int d.visibility_timeout_seconds
            ∷ lit ") exceeds the SQS maximum of 43200"
            ∷ [])),
    )
    ∷ []

add_consumer : ConsumerConfig → Result (List ConsumerConfig) → Result (List ConsumerConfig)
add_consumer d (failed e) = failed e
add_consumer d (value ds) = value (d ∷ ds)

or_fault : Option Error → Result (List ConsumerConfig) → Result (List ConsumerConfig)
or_fault (some e) rest = failed e
or_fault none rest = rest

-- The loop over the consumers, with the names that are taken.
unfoldable pub check_consumers :
    ℤ → ℕ → List Text → List ConsumerConfig → Result (List ConsumerConfig)
unfolding add_consumer or_fault
check_consumers timeout i names [] = value []
check_consumers timeout i names (c ∷ cs) =
    let d = completed timeout i c in
    or_fault (first_fault (consumer_faults timeout i names c d))
      (add_consumer d (check_consumers timeout (suc i) (d.name ∷ names) cs))
