-- ===== src/Config.antt =====
-- internal/config/config.go: the configuration, and the per-ref direction override.
pub mod Glob
pub mod Hosts
pub mod Validate
pub mod Overrides
unfoldable pub use Glob.{path_match}
use git_bridge.Base.{
  Text, ℤ, List, [], ◌∷◌, Option, none, some, Bool, true, false, lit, Map, if◌then◌else◌, get_or,
}

abbrev pub direction_source_to_target : Text
direction_source_to_target = lit "source-to-target"

abbrev pub direction_target_to_source : Text
direction_target_to_source = lit "target-to-source"

abbrev pub direction_bidirectional : Text
direction_bidirectional = lit "bidirectional"

pub record ProviderConfig : Type 0 where
  pub type : Text
  pub base_url : Text
  pub region : Text
  pub credentials : Map Text

pub record RefOverride : Type 0 where
  pub pattern : Text
  pub from : Text
  pub to : Text

pub record RepoConfig : Type 0 where
  pub name : Text
  pub source : Text
  pub target : Text
  pub source_path : Text
  pub target_path : Text
  pub direction : Text
  pub retry_direction : Text
  pub ref_overrides : List RefOverride
  pub slack_webhook_url : Text

pub record ConsumerConfig : Type 0 where
  pub name : Text
  pub type : Text
  pub queue_url : Text
  pub region : Text
  pub access_key : Text
  pub secret_key : Text
  pub visibility_timeout_seconds : ℤ

-- `Config`, with its sections `server`, `mirror`, `webhook`, `retry` and `notification` laid open
pub record Config : Type 0 where
  pub port : ℤ
  pub console_port : ℤ
  pub api_docs_url : Text
  pub timeout_seconds : ℤ
  pub drain_timeout_seconds : ℤ
  pub providers : Map ProviderConfig
  pub repos : List RepoConfig
  pub consumer : ConsumerConfig
  pub consumers : List ConsumerConfig
  pub gitlab_secret : Text
  pub github_secret : Text
  pub max_body_size_mb : ℤ
  pub api_token : Text
  pub slack_webhook_url : Text
  pub slack_channel : Text

-- The loop of `MatchRefOverride`: a pattern that path.Match refuses matches nothing.
unfoldable pub first_match : Text → List RefOverride → Option RefOverride
first_match ref [] = none
first_match ref (ov ∷ ovs) =
    let rest = first_match ref ovs in
    if get_or false (path_match ov.pattern ref) then some ov else rest

-- `RepoConfig.MatchRefOverride`
unfoldable pub match_ref_override : RepoConfig → Text → Option RefOverride
unfolding first_match
match_ref_override r ref = first_match ref r.ref_overrides
