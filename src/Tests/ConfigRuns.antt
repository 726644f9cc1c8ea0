-- ===== src/Tests/ConfigRuns.antt =====
-- Runs of the configuration's checks, and of what rests on them.
use git_bridge.Base.{
  ℕ, ◌⊎◌, All, pos, [], ◌∷◌, some, lit, ◌≡◌, refl, ◌==◌, Map, if◌then◌else◌, get_or, after_prefix,
  before_first, member, lookup, insert, to_lower, trim_space,
}
use git_bridge.Config.{
  Config, RefOverride, direction_bidirectional, ConsumerConfig, ProviderConfig, path_match,
  match_ref_override,
}
use git_bridge.Config.Hosts.{UrlHost, normalize_host, host_resolver, resolve}
use git_bridge.Config.Hosts.Sole.{sole, claimants, resolve-sole}
use git_bridge.Config.Validate.{
  validate, load, with_defaults, server_faults, legacy_consumer, merged_consumers,
}
use git_bridge.Config.Validate.Faults.{first_fault}
use git_bridge.Config.Validate.Repo.{
  check_repos, name_faults, claim_sides, claim, check_rest, direction_faults, check_overrides,
  override_faults,
}
use git_bridge.Config.Validate.Consumers.{check_consumers, consumer_faults, completed}
use git_bridge.Config.Validate.Laws.{RepoOk}
use git_bridge.Config.Validate.Laws.Started.{Started, validate-Started}
use git_bridge.Consumer.Limits.{LimitsBody, validate-limits}
use git_bridge.Consumer.Queue.{new_sqs}
use git_bridge.Errors.{value}
use git_bridge.Mirror.Console.{Side, target, source}
use git_bridge.Mirror.Console.Writes.{restore_side}
use git_bridge.Mirror.Console.Writes.Pinned.{Refuses, restore_side-pinned}
use git_bridge.Mirror.Restore.{do_restore_ref}
use git_bridge.Mirror.Sync.{forth, back}
use git_bridge.Mirror.Entry.{Call, resolve_direction}
use git_bridge.Mirror.Entry.Auto.{Runnable, resolve_direction-Runnable}
use git_bridge.Tests.Toy.{toy_repo, toy_service, codecommit_config, github_config}

abbrev toy_providers : Map ProviderConfig
toy_providers = (lit "cc", codecommit_config) ∷ (lit "gh", github_config) ∷ []

abbrev no_consumer : ConsumerConfig
no_consumer = record {
  name = [];
  type = [];
  queue_url = [];
  region = [];
  access_key = [];
  secret_key = [];
  visibility_timeout_seconds = pos 0;
}

abbrev toy_config : Config
toy_config = record {
  port = pos 8080;
  console_port = pos 8081;
  api_docs_url = [];
  timeout_seconds = pos 300;
  drain_timeout_seconds = pos 120;
  providers = toy_providers;
  repos = toy_repo ∷ [];
  consumer = record no_consumer { queue_url = lit "q" };
  consumers = [];
  gitlab_secret = [];
  github_secret = [];
  max_body_size_mb = pos 10;
  api_token = [];
  slack_webhook_url = [];
  slack_channel = [];
}

abbrev toy_started : Config
toy_started = record toy_config {
  consumer = record no_consumer { name = lit "default"; type = lit "sqs"; queue_url = lit "q" };
  consumers =
      record no_consumer {
        name = lit "default";
        type = lit "sqs";
        queue_url = lit "q";
        visibility_timeout_seconds = pos 300;
      }
      ∷ [];
}

toy_validated : validate toy_config ≡ value toy_started
unfolding validate first_fault server_faults check_repos name_faults ◌==◌ member lookup claim_sides
    claim insert check_rest direction_faults to_lower check_overrides override_faults path_match
    legacy_consumer merged_consumers check_consumers consumer_faults completed
toy_validated = refl

-- A missing section gets its defaults, and then passes.
toy_loaded :
    load (record toy_config { port = pos 0; console_port = pos 0; timeout_seconds = pos 0 })
    ≡ value toy_started
unfolding load with_defaults validate first_fault server_faults check_repos name_faults ◌==◌ member
    lookup claim_sides claim insert check_rest direction_faults to_lower check_overrides
    override_faults path_match legacy_consumer merged_consumers check_consumers consumer_faults
    completed
toy_loaded = refl

validate-Started_example : Started toy_config toy_started
validate-Started_example = validate-Started toy_config toy_started toy_validated

toy_repo_ok : RepoOk toy_providers toy_repo
toy_repo_ok = (validate-Started toy_config toy_started toy_validated).4.0

resolve_direction-Runnable_example : Runnable toy_repo (resolve_direction toy_repo (lit " AUTO "))
unfolding to_lower trim_space ◌==◌
resolve_direction-Runnable_example =
    resolve_direction-Runnable toy_providers toy_repo (lit " AUTO ") toy_repo_ok refl

-- A host between "//" and the next slash
abbrev simple_url_host : UrlHost
simple_url_host url = some (before_first (get_or [] (after_prefix url (lit "https://"))) 47)

resolve-sole_example :
    resolve simple_url_host
      (host_resolver simple_url_host toy_providers)
      (lit "https://GitHub.com/org")
    ≡ (if normalize_host simple_url_host (lit "https://GitHub.com/org") == []
        then []
        else get_or [] (
            sole (
              claimants simple_url_host
                (normalize_host simple_url_host (lit "https://GitHub.com/org"))
                toy_providers)))
resolve-sole_example = resolve-sole simple_url_host toy_providers (lit "https://GitHub.com/org")

validate-limits_example :
    All (λ c. (new_sqs c).visibility_timeout ≡ c.visibility_timeout_seconds) toy_started.consumers
    × LimitsBody [] [] [] toy_config.max_body_size_mb
validate-limits_example = validate-limits toy_config toy_started 300 [] [] [] toy_validated refl

abbrev pin : RefOverride
pin = record { pattern = lit "release"; from = lit "gh"; to = lit "cc" }

pins : match_ref_override toy_repo (lit "release") ≡ some pin
unfolding match_ref_override path_match ◌==◌
pins = refl

two_way : to_lower toy_repo.direction ≡ direction_bidirectional
unfolding to_lower
two_way = refl

abbrev toy_restore : Side → Call ℕ
toy_restore side =
    restore_side toy_service toy_repo [] (lit "branch") (lit "release") (lit "c9") (lit "ana") side

restore_side-pinned_example :
    ((pin.to ≡ toy_repo.target)
      × (toy_restore target
          ≡ do_restore_ref toy_service toy_repo
              (forth toy_repo)
              (lit "branch")
              (lit "release")
              (lit "c9")
              (lit "ana"))
      × Refuses (toy_restore source) 500 (lit "restore-failed"))
    ⊎ ((pin.to ≡ toy_repo.source)
        × (toy_restore source
            ≡ do_restore_ref toy_service toy_repo
                (back toy_repo)
                (lit "branch")
                (lit "release")
                (lit "c9")
                (lit "ana"))
        × Refuses (toy_restore target) 403 (lit "ref-override"))
restore_side-pinned_example =
    restore_side-pinned toy_service toy_repo [] (lit "branch") (lit "release") (lit "c9")
      (lit "ana") toy_providers pin toy_repo_ok two_way pins
