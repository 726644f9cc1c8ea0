-- ===== src/Consumer/Limits.antt =====
-- internal/consumer and internal/config/config.go: the limits that the consumers are set up with.
use mathlib.Core.Path.{subst}
use git_bridge.Base.{
  Text, ℕ, zero, suc, ℤ, pos, negsuc, int_lt, List, [], ◌∷◌, ◌*◌, ◌^◌, ◌≤◌, ◌||◌, Map, All, false,
  ◌≡◌, refl, arith,
}
use git_bridge.Config.{Config, ConsumerConfig}
use git_bridge.Config.Validate.{validate}
use git_bridge.Config.Validate.Laws.Started.{validate-Started}
use git_bridge.Config.Validate.Consumers.Queues.{ConsumerOk}
use git_bridge.Consumer.Queue.{new_sqs, to_int32}
use git_bridge.Consumer.Webhook.{new_webhook, with_max_body_size_mb, body_limit}
use git_bridge.Errors.{value}

to_int32-small : (n : ℕ) → n ≤ 43200 → to_int32 (pos n) ≡ pos n
unfolding to_int32
to_int32-small n h = ground arith

visible : (t : ℕ) (v : ℤ) → int_lt v (pos t) ≡ false → int_lt (pos 43200) v ≡ false → to_int32 v ≡ v
visible t (pos n) least most = to_int32-small n (ground (arith, most))
visible t (negsuc n) least most = cc

All-visible :
    (t : ℕ) (cs : List ConsumerConfig)
    → All (ConsumerOk (pos t)) cs
    → All (λ c. (new_sqs c).visibility_timeout ≡ c.visibility_timeout_seconds) cs
unfolding new_sqs
All-visible t [] h = tt
All-visible t (c ∷ cs) ((queue, least, most), h) =
    (visible t c.visibility_timeout_seconds least most, All-visible t cs h)

body_limit-small : (n : ℕ) → n ≤ 1024 → body_limit n ≡ n * 2 ^ 20
unfolding body_limit
body_limit-small n h = ground arith

-- The limit on the body of a webhook is the configured number of megabytes.
abbrev pub LimitsBody : Text → Text → Map Text → ℤ → Type 0
LimitsBody gitlab_secret github_secret hosts mb =
    (n : ℕ) × (mb ≡ pos n)
    × (1 ≤ n)
    × (n ≤ 1024)
    × ((new_webhook gitlab_secret github_secret hosts (with_max_body_size_mb mb ∷ [])).max_body_size
        ≡ n * 2 ^ 20)

within :
    (mb : ℤ) (gitlab_secret github_secret : Text) (hosts : Map Text)
    → (int_lt mb (pos 1) || int_lt (pos 1024) mb) ≡ false
    → LimitsBody gitlab_secret github_secret hosts mb
unfolding new_webhook with_max_body_size_mb
within (pos zero) gitlab_secret github_secret hosts h = cc
within (pos (suc n)) gitlab_secret github_secret hosts h =
    (suc n, refl, omega arith, ground (arith, h), body_limit-small (suc n) (ground (arith, h)))
within (negsuc n) gitlab_secret github_secret hosts h = cc

-- No limit wraps around: in a configuration that `validate` accepts, with a sync timeout that is not
-- negative, each consumer's visibility timeout is the configured one after its conversion to 32 bits, and
-- the limit on a webhook's body is the configured number of megabytes, from 1 to 1024, after its shift.
pub validate-limits :
    (cfg started : Config) (t : ℕ) (gitlab_secret github_secret : Text) (hosts : Map Text)
    → validate cfg ≡ value started
    → cfg.timeout_seconds ≡ pos t
    → All (λ c. (new_sqs c).visibility_timeout ≡ c.visibility_timeout_seconds) started.consumers
      × LimitsBody gitlab_secret github_secret hosts cfg.max_body_size_mb
validate-limits cfg started t gitlab_secret github_secret hosts valid timeout =
    let facts = validate-Started cfg started valid in
    (
      All-visible t started.consumers
          (subst (λ x. All (ConsumerOk x) started.consumers) timeout facts.7),
      within cfg.max_body_size_mb gitlab_secret github_secret hosts facts.2,
    )
