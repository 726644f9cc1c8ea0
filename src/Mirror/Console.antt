-- ===== src/Mirror/Console.antt =====
-- internal/mirror/mirror.go: what the console's buttons call (`DirectionTo`, `RestoreRef`,
-- `ForcePush`). They name a side of the repository by its endpoint.
use git_bridge.Base.{
  Text, ℕ, List, [], ◌∷◌, ◌++◌, Option, none, some, Bool, true, false, ◌&&◌, ◌||◌, not,
  if◌then◌else◌, lit, concat, ◌==◌, lookup,
}
use git_bridge.Config.{RepoConfig, direction_source_to_target, direction_target_to_source}
use git_bridge.Errors.{Error, Sentinel, Result, value, failed, plain, quote}
use git_bridge.History.{Event, Action, Reason, fail}
use git_bridge.Provider.{Provider}
use git_bridge.Mirror.{EventMeta, full_ref_name, source_console}
use git_bridge.Mirror.Flow.{Service, State, Act, ask, ◌>>=◌, run}
use git_bridge.Mirror.Refs.{
  allows_source_to_target, allows_target_to_source, direction_allowed, ref_override_blocks,
}
use git_bridge.Mirror.Steps.{endpoint, leave}
use git_bridge.Mirror.Sync.{Leg, forth, back, do_mirror}
use git_bridge.Mirror.Delete.{ref_event}
use git_bridge.Mirror.Restore.{refusal, do_restore_ref}
use git_bridge.Mirror.Entry.{Call}
pub mod Writes

-- Which side an endpoint names: the `switch` that the three functions share, with the refusal of an
-- endpoint that names both.
pub data Side : Type 0 where
  both target source neither : Side

typed_endpoint : Text → Option Provider → Text → Text
typed_endpoint name none path = endpoint name path
typed_endpoint name (some p) path = endpoint p.type path

unknown_side_text : Text
unknown_side_text = lit "not a side of this repo"

unknown_repo_text : Text
unknown_repo_text = lit "repo is not configured for mirroring"

direction_text : Text
direction_text = lit "direction does not allow writing to that side"

unfoldable pub names_both : Text → Text → Error
unfolding unknown_side_text
names_both repo to =
    refusal
      (concat
        (lit "repo " ∷ quote repo ∷ lit ": " ∷ quote to ∷ lit " names both sides, so it is " ∷ []))
      Sentinel.unknown_side unknown_side_text []

unfoldable pub names_neither : Text → Text → Error
unfolding unknown_side_text
names_neither repo to =
    refusal (concat (lit "repo " ∷ quote repo ∷ lit ": " ∷ quote to ∷ lit " is " ∷ []))
      Sentinel.unknown_side unknown_side_text []

unfoldable pub names_no_repo : Text → Error
unfolding unknown_repo_text
names_no_repo repo = refusal (quote repo ++ lit ": ") Sentinel.unknown_repo unknown_repo_text []

-- "(direction %q, <side>)" behind the sentinel
unfoldable pub wrong_direction : Text → Text → Text → Error
unfolding direction_text
wrong_direction repo direction side =
    refusal (concat (lit "repo " ∷ quote repo ∷ lit ": " ∷ [])) Sentinel.direction_not_allowed
      direction_text
      (concat (lit " (direction " ∷ quote direction ∷ lit ", " ∷ side ∷ lit ")" ∷ []))

unfoldable pub pinned_target : Text → Error
pinned_target ref =
    refusal (quote ref ++ lit ": ") Sentinel.ref_overridden
      (lit "a ref_override pins this ref away from that direction") []

-- The same refusal on the source side, where the message carries no sentinel.
unfoldable pub pinned_source : Text → Error
pinned_source ref =
    plain (concat (lit "a ref_override pins " ∷ quote ref ∷ lit " away from this direction" ∷ []))

module _ {W : Type 0} (s : Service W) where
  -- `legacyEndpoint`
  legacy_endpoint : Text → Text → Text
  unfolding typed_endpoint
  legacy_endpoint name path = typed_endpoint name (lookup name s.providers) path

  -- `endpointMatches`
  unfoldable pub endpoint_matches : Text → Text → Text → Bool
  unfolding legacy_endpoint
  endpoint_matches name path candidate =
      candidate == endpoint name path || candidate == legacy_endpoint name path

  -- `endpointAmbiguous`, and the two cases of the `switch` behind it
  unfoldable pub side_of : RepoConfig → Text → Side
  unfolding endpoint_matches
  side_of cfg to =
      if endpoint_matches cfg.target cfg.target_path to
        && endpoint_matches cfg.source cfg.source_path to
      then both
      else if endpoint_matches cfg.target cfg.target_path to
      then target
      else if endpoint_matches cfg.source cfg.source_path to
      then source
      else neither

  permitted : RepoConfig → Text → Result Text
  unfolding wrong_direction
  permitted cfg dir =
      if direction_allowed cfg.direction dir
      then value dir
      else failed (wrong_direction cfg.name cfg.direction dir)

  direction_of : RepoConfig → Text → Side → Result Text
  unfolding permitted names_both names_neither
  direction_of cfg to both = failed (names_both cfg.name to)
  direction_of cfg to target = permitted cfg direction_source_to_target
  direction_of cfg to source = permitted cfg direction_target_to_source
  direction_of cfg to neither = failed (names_neither cfg.name to)

  direction_loop : Text → Text → List RepoConfig → Result Text
  unfolding direction_of names_no_repo
  direction_loop repo to [] = failed (names_no_repo repo)
  direction_loop repo to (cfg ∷ cfgs) =
      let rest = direction_loop repo to cfgs in
      if cfg.name == repo then direction_of cfg to (side_of cfg to) else rest

  -- `Service.DirectionTo`
  unfoldable pub direction_to : Text → Text → Result Text
  unfolding direction_loop side_of
  direction_to repo to = direction_loop repo to s.configs
