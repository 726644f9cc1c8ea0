-- ===== src/Config/Validate/Laws/Started.antt =====
-- internal/config/config.go: the configuration that `validate` lets through.
use git_bridge.Base.{
  lit, ◌==◌, ==_iff, if◌then◌else◌, ◌⊎◌, inl, inr, Bool-cases, arith, Text, ℕ, suc, pos, int_eq,
  int_lt, ◌||◌, List, [], ◌∷◌, Option, none, some, false, ◌≡◌, refl, ◌≢◌, All, Map, member,
  is_empty,
}
use git_bridge.Config.{Config, RepoConfig, ProviderConfig, ConsumerConfig}
use git_bridge.Config.Validate.Consumers.Queues.{
  ConsumerOk, consumer_names, QueuesOk, check_consumers-Holds,
}
use git_bridge.Config.Validate.Faults.{first_fault, first_fault-none}
use git_bridge.Config.Validate.Repo.{
  name_faults, claim_sides, endpoint_key, check_rest, check_repos,
}
use git_bridge.Config.Validate.Repo.Claims.{
  Distinct, Free, claim_sides-value, with_claims-none, name_apart,
}
use git_bridge.Config.Validate.Laws.{RepoOk, repo_ok, unless-none}
use git_bridge.Config.Validate.{
  server_faults, validate, after_server, after_repos, legacy_consumer, with_consumers,
  merged_consumers,
}
use git_bridge.Errors.{Error, Result, value, failed, Holds, holds_value}

abbrev pub names_of : List RepoConfig → List Text
names_of [] = []
names_of (r ∷ rs) = r.name ∷ names_of rs

-- The endpoints by which webhooks find a repository: both sides of each.
abbrev pub endpoints_of : List RepoConfig → List Text
endpoints_of [] = []
endpoints_of (r ∷ rs) =
    endpoint_key r.source r.source_path ∷ endpoint_key r.target r.target_path ∷ endpoints_of rs

check_repos-none :
    (providers : Map ProviderConfig) (i : ℕ) (names : List Text) (seen : Map Text)
    (rs : List RepoConfig)
    → check_repos providers i names seen rs ≡ none
    → All (RepoOk providers) rs
      × (All (λ n. member n names ≡ false) (names_of rs) × Distinct (names_of rs))
      × (Free seen (endpoints_of rs) × Distinct (endpoints_of rs))
unfolding check_repos name_faults
check_repos-none providers i names seen [] h = (tt, (tt, tt), (tt, tt))
check_repos-none providers i names seen (r ∷ rs) h =
    let (named, claims) = unless-none (first_fault (name_faults providers names i r)) _ h in
    let (taken, claimed, later) = with_claims-none (claim_sides i r seen) _ claims in
    let (rest, others) = unless-none (check_rest i r) _ later in
    let (ok, (new, distinct), ends) =
      check_repos-none providers (suc i) (r.name ∷ names) taken rs others in
    let (apart, still_new) = name_apart r.name names (names_of rs) new in
    (
      (repo_ok providers names i r named rest, ok),
      (
        ((first_fault-none (name_faults providers names i r) named).1.0, still_new),
        (apart, distinct),
      ),
      claim_sides-value i r seen taken (endpoints_of rs) claimed ends,
    )

-- The legacy consumer is as it was without a queue; with one it has a type and a name of its own, or
-- else the defaults, and nothing else of it changes.
abbrev pub LegacyOk : ConsumerConfig → ConsumerConfig → Type 0
LegacyOk before after =
    ((before.queue_url ≡ []) × (after ≡ before))
    ⊎ ((before.queue_url ≢ [])
        × (after ≡ record before { type = after.type; name = after.name })
        × ((after.type ≡ before.type) ⊎ ((before.type ≡ []) × (after.type ≡ lit "sqs")))
        × ((after.name ≡ before.name) ⊎ ((before.name ≡ []) × (after.name ≡ lit "default")))
        × (after.type ≢ [])
        × (after.name ≢ []))

-- What the checks establish of a configuration and of the one that the service starts with, which is
-- the same but for its consumers, the legacy one included.
abbrev pub Started : Config → Config → Type 0
Started cfg started =
    (started ≡ record cfg { consumer = started.consumer; consumers = started.consumers })
    × (int_eq cfg.console_port cfg.port ≡ false)
    × ((int_lt cfg.max_body_size_mb (pos 1) || int_lt (pos 1024) cfg.max_body_size_mb) ≡ false)
    × (cfg.repos ≢ [])
    × All (RepoOk cfg.providers) cfg.repos
    × Distinct (names_of cfg.repos)
    × Distinct (endpoints_of cfg.repos)
    × All (ConsumerOk cfg.timeout_seconds) started.consumers
    × Distinct (consumer_names started.consumers)
    × LegacyOk cfg.consumer started.consumer

legacy_consumer-LegacyOk : (cfg : Config) → LegacyOk cfg.consumer (legacy_consumer cfg)
unfolding legacy_consumer
legacy_consumer-LegacyOk cfg = elim (Bool-cases (cfg.consumer.queue_url == [])) [
  | inl missing ↦ rw missing (inl ((==_iff cfg.consumer.queue_url []).0 missing, refl))
  | inr there ↦ rw there (
      inr (
        λ e. ground (arith, there, e, ==_iff cfg.consumer.queue_url []),
        refl,
        defaulted cfg.consumer.type (lit "sqs"),
        defaulted cfg.consumer.name (lit "default"),
        filled cfg.consumer.type (lit "sqs") (λ e. cc),
        filled cfg.consumer.name (lit "default") (λ e. cc),
      ))
]
  where
    defaulted :
        (t default : Text)
        → ((if t == [] then default else t) ≡ t)
          ⊎ ((t ≡ []) × ((if t == [] then default else t) ≡ default))
    defaulted t default = elim (Bool-cases (t == [])) [
      | inl blank ↦ rw blank (inr ((==_iff t []).0 blank, refl))
      | inr own ↦ rw own (inl refl)
    ]

    filled : (t default : Text) → default ≢ [] → (if t == [] then default else t) ≢ []
    filled t default some_default = elim (Bool-cases (t == [])) [
      | inl blank ↦ rw blank some_default
      | inr own ↦ rw own (λ e. ground (arith, own, e, ==_iff t []))
    ]

with_consumers-Started :
    (cfg : Config) (r : Result (List ConsumerConfig))
    → first_fault (server_faults cfg) ≡ none
    → check_repos cfg.providers 0 [] [] cfg.repos ≡ none
    → Holds (QueuesOk cfg.timeout_seconds []) r
    → Holds (Started cfg) (with_consumers cfg r)
unfolding with_consumers server_faults
with_consumers-Started cfg (failed e) served checked h = tt
with_consumers-Started cfg (value cs) served checked (oks, (news, distinct)) =
    let f = first_fault-none (server_faults cfg) served in
    let (repos, (new, names), (free, ends)) =
      check_repos-none cfg.providers 0 [] [] cfg.repos checked in
    (
      refl,
      f.0,
      f.1.0,
      nonempty cfg.repos f.1.1.0,
      repos,
      names,
      ends,
      oks,
      distinct,
      legacy_consumer-LegacyOk cfg,
    )
  where
    nonempty : (rs : List RepoConfig) → is_empty rs ≡ false → rs ≢ []
    nonempty [] h e = cc
    nonempty (r ∷ rs) h e = cc

after_repos-Started :
    (cfg : Config) (fault : Option Error)
    → first_fault (server_faults cfg) ≡ none
    → check_repos cfg.providers 0 [] [] cfg.repos ≡ fault
    → Holds (Started cfg) (after_repos cfg fault)
unfolding after_repos
after_repos-Started cfg (some e) served checked = tt
after_repos-Started cfg none served checked =
    with_consumers-Started cfg _ served checked
      (check_consumers-Holds cfg.timeout_seconds 0 [] (merged_consumers cfg))

after_server-Started :
    (cfg : Config) (fault : Option Error)
    → first_fault (server_faults cfg) ≡ fault
    → Holds (Started cfg) (after_server cfg fault)
unfolding after_server
after_server-Started cfg (some e) served = tt
after_server-Started cfg none served =
    after_repos-Started cfg (check_repos cfg.providers 0 [] [] cfg.repos) served refl

-- When `validate` accepts a configuration, the one that the service starts with is the same but for
-- its consumers, where the legacy one, if it has a queue, has got the default type and name for a missing
-- one; the console has its own port, and the webhooks a body limit of 1 to 1024 megabytes; there are
-- repositories; each has a name, two different providers that exist, a direction, a retry direction
-- that the direction allows, and overrides that it allows; no two repositories share a name, and no two
-- sides of repositories an endpoint; and each consumer has a queue, a name of its own, and a visibility
-- timeout between the sync timeout and the maximum.
pub validate-Started : (cfg started : Config) → validate cfg ≡ value started → Started cfg started
unfolding validate
validate-Started cfg started h =
    holds_value (Started cfg) (validate cfg) started h
      (after_server-Started cfg (first_fault (server_faults cfg)) refl)
