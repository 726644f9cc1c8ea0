-- ===== src/Config/Validate/Consumers/Queues.antt =====
-- internal/config/config.go: the consumers that `validate` completes.
use git_bridge.Base.{
  Text, ℕ, suc, ℤ, pos, int_lt, List, [], ◌∷◌, Option, none, some, false, ==_iff, ◌≡◌, refl, ◌≢◌,
  All, member, arith,
}
use git_bridge.Config.{ConsumerConfig}
use git_bridge.Config.Validate.Consumers.{
  check_consumers, completed, consumer_faults, add_consumer, or_fault,
}
use git_bridge.Config.Validate.Faults.{first_fault, first_fault-none}
use git_bridge.Config.Validate.Repo.Claims.{Distinct, name_apart}
use git_bridge.Errors.{Error, Result, value, failed, Holds}

-- A consumer that can run: it has a queue, and hides a message for as long as a sync may take, within
-- the queue's maximum of twelve hours.
abbrev pub ConsumerOk : ℤ → ConsumerConfig → Type 0
ConsumerOk timeout c =
    (c.queue_url ≢ [])
    × (int_lt c.visibility_timeout_seconds timeout ≡ false)
    × (int_lt (pos 43200) c.visibility_timeout_seconds ≡ false)

abbrev pub consumer_names : List ConsumerConfig → List Text
consumer_names [] = []
consumer_names (c ∷ cs) = c.name ∷ consumer_names cs

-- What the list of consumers that comes out satisfies.
abbrev pub QueuesOk : ℤ → List Text → List ConsumerConfig → Type 0
QueuesOk timeout names ds =
    All (ConsumerOk timeout) ds
    × (All (λ n. member n names ≡ false) (consumer_names ds) × Distinct (consumer_names ds))

consumer_ok :
    (timeout : ℤ) (i : ℕ) (names : List Text) (c : ConsumerConfig)
    → first_fault (consumer_faults timeout i names c (completed timeout i c)) ≡ none
    → ConsumerOk timeout (completed timeout i c)
      × (member (completed timeout i c).name names ≡ false)
unfolding consumer_faults completed
consumer_ok timeout i names c h =
    let f = first_fault-none (consumer_faults timeout i names c (completed timeout i c)) h in
    (((λ e. ground (arith, ==_iff c.queue_url [], f.0, e)), f.1.1.0, f.1.1.1.0), f.1.0)

added :
    (timeout : ℤ) (names : List Text) (d : ConsumerConfig) (rest : Result (List ConsumerConfig))
    → ConsumerOk timeout d × (member d.name names ≡ false)
    → Holds (QueuesOk timeout (d.name ∷ names)) rest
    → Holds (QueuesOk timeout names) (add_consumer d rest)
unfolding add_consumer
added timeout names d (failed e) h k = tt
added timeout names d (value ds) (ok, new) (oks, (news, distinct)) =
    let (apart, still_new) = name_apart d.name names (consumer_names ds) news in
    ((ok, oks), ((new, still_new), (apart, distinct)))

or_fault-Holds :
    (P : List ConsumerConfig → Type 0) (fault : Option Error) (rest : Result (List ConsumerConfig))
    → (fault ≡ none → Holds P rest)
    → Holds P (or_fault fault rest)
unfolding or_fault
or_fault-Holds P (some e) rest h = tt
or_fault-Holds P none rest h = h refl

pub check_consumers-Holds :
    (timeout : ℤ) (i : ℕ) (names : List Text) (cs : List ConsumerConfig)
    → Holds (QueuesOk timeout names) (check_consumers timeout i names cs)
unfolding check_consumers
check_consumers-Holds timeout i names [] = (tt, (tt, tt))
check_consumers-Holds timeout i names (c ∷ cs) =
    or_fault-Holds _ (first_fault (consumer_faults timeout i names c (completed timeout i c))) _
      λ fine.
        added timeout names (completed timeout i c) _ (consumer_ok timeout i names c fine)
          (check_consumers-Holds timeout (suc i) ((completed timeout i c).name ∷ names) cs)
