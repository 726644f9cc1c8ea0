-- ===== src/Mirror/Entry.antt =====
-- internal/mirror/mirror.go: the entry points, which find the repository and the direction.
pub mod Dispatch
pub mod Auto
pub mod Deletion
use git_bridge.Base.{
  is_some, Text, ℕ, ◌-◌, List, [], ◌∷◌, ◌++◌, Option, none, some, Bool, true, false, ◌&&◌, ◌||◌,
  not, if◌then◌else◌, lit, concat, ◌==◌, lookup, to_lower, trim_space,
}
use git_bridge.Config.{RepoConfig, direction_source_to_target, direction_target_to_source}
use git_bridge.Errors.{Error, Sentinel, Result, value, failed, plain, quote}
use git_bridge.History.{Event, Action, Reason, fail}
use git_bridge.Provider.{Provider}
use git_bridge.Mirror.{EventMeta, full_ref_name, source_console, source_sqs, source_webhook}
use git_bridge.Mirror.Flow.{Service, State, run}
use git_bridge.Mirror.Refs.{
  allows_source_to_target, allows_target_to_source, resolve_auto_direction, direction_allowed,
  ref_override_blocks,
}
use git_bridge.Mirror.Steps.{endpoint, leave}
use git_bridge.Mirror.Sync.{Leg, forth, back, mirror_event, do_mirror}
use git_bridge.Mirror.Delete.{ref_event, do_delete_ref}
use git_bridge.Mirror.Restore.{refusal, do_restore_ref}

abbrev pub Call : Type 0 → Type 0
Call W = State W → Option Error × State W

-- Return an error, with nothing done.
abbrev pub give_up : {W : Type 0} → Error → Call W
give_up e st = (some e, st)

abbrev pub give_nil : {W : Type 0} → Call W
give_nil st = (none, st)

-- fmt.Errorf("repo %q direction %q does not allow <what>", …)
disallowed : Text → Text → Text → Error
disallowed repo direction what = plain (
    concat (
      lit "repo "
      ∷ quote repo
      ∷ lit " direction "
      ∷ quote direction
      ∷ lit " does not allow "
      ∷ what
      ∷ []))

unconfigured : Text → Error
unconfigured repo =
    plain (concat (lit "repo " ∷ quote repo ∷ lit " not configured for mirroring" ∷ []))

no_match : Text → Text → Error
no_match key path =
    plain
      (concat (lit "no matching repo for provider=" ∷ quote key ∷ lit " path=" ∷ quote path ∷ []))

-- `providerMatches`
unfoldable pub provider_matches : Text → Text → Text → Bool
provider_matches configured type key = configured == key || type == key

type_matches : Text → Option Provider → Text → Bool
type_matches configured none key = false
type_matches configured (some p) key = provider_matches configured p.type key

-- The direction that a request means: its own, or what "auto" resolves to.
unfoldable pub resolve_direction : RepoConfig → Text → Text
resolve_direction cfg direction =
    let dir = to_lower (trim_space direction) in
    if dir == [] || dir == lit "auto"
    then (if not (cfg.retry_direction == [])
        then to_lower cfg.retry_direction
        else resolve_auto_direction cfg.direction)
    else dir

module _ {W : Type 0} (s : Service W) where
  -- A provider of the repository, which exists and is named by the webhook's key.
  unfoldable pub side_matches : Text → Text → Bool
  unfolding type_matches
  side_matches configured key = type_matches configured (lookup configured s.providers) key

  sync_loop : Text → EventMeta → List RepoConfig → Call W
  unfolding disallowed unconfigured
  sync_loop repo meta [] = give_up (unconfigured repo)
  sync_loop repo meta (cfg ∷ cfgs) =
      let rest = sync_loop repo meta cfgs in
      if not (cfg.source_path == repo)
      then rest
      else if allows_source_to_target cfg.direction
      then do_mirror s cfg (forth cfg) meta
      else give_up (disallowed repo cfg.direction (lit "source-to-target sync"))

  -- `Service.Sync`
  unfoldable pub sync : Text → EventMeta → Call W
  unfolding sync_loop
  sync repo meta = sync_loop repo meta s.configs

  sync_by_target_loop : Text → Text → EventMeta → List RepoConfig → Call W
  unfolding disallowed no_match side_matches
  sync_by_target_loop key path meta [] = give_up (no_match key path)
  sync_by_target_loop key path meta (cfg ∷ cfgs) =
      let rest = sync_by_target_loop key path meta cfgs in
      if side_matches cfg.target key && cfg.target_path == path
      then (if allows_target_to_source cfg.direction
          then do_mirror s cfg (back cfg) meta
          else give_up (disallowed cfg.name cfg.direction (lit "target-to-source sync")))
      else
          -- Without a provider for the target the round ends before the source is looked at.
          if is_some (lookup cfg.target s.providers)
          && (side_matches cfg.source key && cfg.source_path == path)
      then (if allows_source_to_target cfg.direction
          then do_mirror s cfg (forth cfg) meta
          else give_up (disallowed cfg.name cfg.direction (lit "source-to-target sync")))
      else rest

  -- `Service.SyncByTarget`
  unfoldable pub sync_by_target : Text → Text → EventMeta → Call W
  unfolding sync_by_target_loop
  sync_by_target key path meta = sync_by_target_loop key path meta s.configs

  -- The `switch` of `Retry` on the resolved direction.
  retry_direction : RepoConfig → EventMeta → Text → Call W
  unfolding disallowed
  retry_direction cfg meta dir =
      if not (direction_allowed cfg.direction dir)
      then give_up (disallowed cfg.name cfg.direction (lit "retry direction " ++ quote dir))
      else if dir == direction_source_to_target
      then do_mirror s cfg (forth cfg) meta
      else if dir == direction_target_to_source
      then do_mirror s cfg (back cfg) meta
      else give_up (plain (lit "unknown retry direction " ++ quote dir))

  retry_loop : Text → Text → EventMeta → List RepoConfig → Call W
  unfolding retry_direction
  retry_loop repo direction meta [] =
      give_up (plain (concat (lit "repo " ∷ quote repo ∷ lit " not configured" ∷ [])))
  retry_loop repo direction meta (cfg ∷ cfgs) =
      let rest = retry_loop repo direction meta cfgs in
      if cfg.name == repo then retry_direction cfg meta (resolve_direction cfg direction) else rest

  -- `Service.Retry`
  unfoldable pub retry : Text → Text → EventMeta → Call W
  unfolding retry_loop
  retry repo direction meta = retry_loop repo direction meta s.configs

  sync_delete_loop : Text → Text → Text → List RepoConfig → Call W
  unfolding disallowed unconfigured
  sync_delete_loop repo ref_type ref_name [] = give_up (unconfigured repo)
  sync_delete_loop repo ref_type ref_name (cfg ∷ cfgs) =
      let rest = sync_delete_loop repo ref_type ref_name cfgs in
      if not (cfg.source_path == repo)
      then rest
      else if ref_override_blocks cfg ref_name cfg.source cfg.target
      then give_nil
      else if allows_source_to_target cfg.direction
      then do_delete_ref s cfg (forth cfg) ref_type ref_name source_sqs
      else give_up (disallowed repo cfg.direction (lit "source-to-target sync"))

  -- `Service.SyncDelete`
  unfoldable pub sync_delete : Text → Text → Text → Call W
  unfolding sync_delete_loop
  sync_delete repo ref_type ref_name = sync_delete_loop repo ref_type ref_name s.configs

  sync_delete_by_target_loop : Text → Text → Text → Text → List RepoConfig → Call W
  unfolding disallowed no_match side_matches
  sync_delete_by_target_loop key path ref_type ref_name [] = give_up (no_match key path)
  sync_delete_by_target_loop key path ref_type ref_name (cfg ∷ cfgs) =
      let rest = sync_delete_by_target_loop key path ref_type ref_name cfgs in
      if side_matches cfg.target key && cfg.target_path == path
      then (if not (allows_target_to_source cfg.direction)
          then give_up (disallowed cfg.name cfg.direction (lit "target-to-source sync"))
          else if ref_override_blocks cfg ref_name cfg.target cfg.source
          then give_nil
          else do_delete_ref s cfg (back cfg) ref_type ref_name source_webhook)
      else if side_matches cfg.source key && cfg.source_path == path
      then (if not (allows_source_to_target cfg.direction)
          then give_up (disallowed cfg.name cfg.direction (lit "source-to-target sync"))
          else if ref_override_blocks cfg ref_name cfg.source cfg.target
          then give_nil
          else do_delete_ref s cfg (forth cfg) ref_type ref_name source_webhook)
      else rest

  -- `Service.SyncDeleteByTarget`
  unfoldable pub sync_delete_by_target : Text → Text → Text → Text → Call W
  unfolding sync_delete_by_target_loop
  sync_delete_by_target key path ref_type ref_name =
      sync_delete_by_target_loop key path ref_type ref_name s.configs
