-- ===== src/Config/Validate.antt =====
-- internal/config/config.go, `validate`: what a configuration must satisfy before the service starts,
-- and the defaults that it fills in. A run of tests that each return an error is a table in which the
-- first one that holds decides.
pub mod Faults
pub mod Repo
pub mod Consumers
pub mod Laws
use git_bridge.Base.{
  Text, ℕ, ◌+◌, ℤ, pos, int_eq, int_lt, show_int, List, [], ◌∷◌, ◌++◌, Option, none, some, Bool,
  true, false, ◌||◌, not, if◌then◌else◌, lit, concat, ◌==◌, is_empty, Map,
}
use git_bridge.Config.{Config, ConsumerConfig, RepoConfig, ProviderConfig}
use git_bridge.Config.Validate.Repo.{check_repos}
use git_bridge.Config.Validate.Consumers.{check_consumers}
use git_bridge.Config.Validate.Faults.{first_fault}
use git_bridge.Errors.{Error, Result, value, failed, plain}

abbrev pub default_webhook_max_body_size_mb : ℤ
default_webhook_max_body_size_mb = pos 10

-- The checks of `validate` that come before the repositories.
unfoldable pub server_faults : Config → List (Bool × Error)
server_faults cfg =
    (
      int_eq cfg.console_port cfg.port,
      plain (
          concat (
            lit "server: console_port must differ from port (both "
            ∷ show_int cfg.port
            ∷ lit ") — the console must not share the public listener"
            ∷ [])),
    )
    ∷ (
      int_lt cfg.max_body_size_mb (pos 1) || int_lt (pos 1024) cfg.max_body_size_mb,
      plain (
          concat (
            lit "webhook: max_body_size_mb ("
            ∷ show_int cfg.max_body_size_mb
            ∷ lit
                ") must be between 1 and 1024 — and it must not sit below the body limit of whatever proxy or gateway fronts the service, or that proxy forwards payloads this app then refuses"
            ∷ [])),
    )
    ∷ (is_empty cfg.repos, plain (lit "no repos configured"))
    ∷ []

-- The legacy single consumer with its defaults, which are written into the configuration as well.
unfoldable pub legacy_consumer : Config → ConsumerConfig
legacy_consumer cfg = if cfg.consumer.queue_url == [] then cfg.consumer else record cfg.consumer {
  type = if cfg.consumer.type == [] then lit "sqs" else cfg.consumer.type;
  name = if cfg.consumer.name == [] then lit "default" else cfg.consumer.name;
}

-- It joins the list.
unfoldable pub merged_consumers : Config → List ConsumerConfig
unfolding legacy_consumer
merged_consumers cfg =
    if cfg.consumer.queue_url == []
    then cfg.consumers
    else cfg.consumers ++ (legacy_consumer cfg ∷ [])

with_consumers : Config → Result (List ConsumerConfig) → Result Config
unfolding legacy_consumer
with_consumers cfg (failed e) = failed e
with_consumers cfg (value cs) =
    value (record cfg { consumer = legacy_consumer cfg; consumers = cs })

after_repos : Config → Option Error → Result Config
unfolding with_consumers
after_repos cfg (some e) = failed e
after_repos cfg none =
    with_consumers cfg (check_consumers cfg.timeout_seconds 0 [] (merged_consumers cfg))

after_server : Config → Option Error → Result Config
unfolding after_repos
after_server cfg (some e) = failed e
after_server cfg none = after_repos cfg (check_repos cfg.providers 0 [] [] cfg.repos)

-- `validate`: the configuration with its consumers completed, the legacy one included, or the first error
unfoldable pub validate : Config → Result Config
unfolding after_server
validate cfg = after_server cfg (first_fault (server_faults cfg))

or_default : ℤ → ℤ → ℤ
or_default x default = if int_eq x (pos 0) then default else x

-- The defaults of `Load`, on a file that was read and parsed.
unfoldable pub with_defaults : Config → Config
unfolding or_default
with_defaults cfg = record cfg {
  port = or_default cfg.port (pos 8080);
  console_port = or_default cfg.console_port (pos 8081);
  timeout_seconds = or_default cfg.timeout_seconds (pos 300);
  drain_timeout_seconds = or_default cfg.drain_timeout_seconds (pos 120);
  max_body_size_mb = or_default cfg.max_body_size_mb default_webhook_max_body_size_mb;
}

-- `Load`, from the parsed file on
unfoldable pub load : Config → Result Config
load cfg = validate (with_defaults cfg)
