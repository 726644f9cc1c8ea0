-- ===== src/Mirror/Console/Writes.antt =====
-- internal/mirror/mirror.go: `RestoreRef` and `ForcePush`, the writes that a person asks for on a
-- row of the console.
pub mod Once
pub mod Pinned
pub mod Forced
use git_bridge.Base.{
  Text, List, [], ◌∷◌, Option, none, some, Bool, true, false, not, if◌then◌else◌, lit, ◌==◌,
}
use git_bridge.Config.{RepoConfig}
use git_bridge.Errors.{Error}
use git_bridge.History.{Event, Action, Reason, fail, new_event}
use git_bridge.Mirror.{EventMeta, full_ref_name, source_console}
use git_bridge.Mirror.Flow.{Service, Act, ask, ◌>>=◌, run}
use git_bridge.Mirror.Refs.{allows_source_to_target, allows_target_to_source, ref_override_blocks}
use git_bridge.Mirror.Steps.{endpoint, leave}
use git_bridge.Mirror.Sync.{forth, back, do_mirror}
use git_bridge.Mirror.Restore.{do_restore_ref}
use git_bridge.Mirror.Entry.{Call}
use git_bridge.Mirror.Console.{
  Side, both, target, source, neither, side_of, names_both, names_neither, names_no_repo,
  wrong_direction, pinned_target, pinned_source,
}

-- The event that the closure `refused` of the two functions records.
abbrev pub refused_event : Action → Text → Text → Text → Text → Text → Event
refused_event action repo from to ref actor = record (new_event action) {
  repo = repo;
  source = source_console;
  from = from;
  to = to;
  ref = ref;
  actor = actor;
}

-- The request of `ForcePush`: a forced event that leases the tip the operator was shown.
abbrev pub force_meta : Text → Text → Text → EventMeta
force_meta ref dest actor = record {
  source = source_console;
  ref = ref;
  force = true;
  force_lease = dest;
  actor = actor;
}

module _ {W : Type 0} (s : Service W) where
  refuse_act : Event → Reason → Error → Act W ⊥
  refuse_act ev why e = do now ← ask s.git.clock; leave s now ev fail why (some e)

  unfoldable pub refused : Event → Reason → Error → Call W
  unfolding refuse_act
  refused ev why e = run (refuse_act ev why e)

module _ {W : Type 0} (s : Service W) (cfg : RepoConfig)
    (to ref_type ref_name sha actor : Text) where
  -- The refusal of a restore, recorded with the endpoints `from` and `dest`.
  refuse_restore : Text → Text → Reason → Error → Call W
  refuse_restore from dest =
      refused s
        (refused_event Action.restore cfg.name from dest (full_ref_name ref_type ref_name) actor)

  -- The body of the loop of `RestoreRef`, by what the endpoint names.
  unfoldable pub restore_side : Side → Call W
  unfolding refuse_restore refused refuse_act
  restore_side both = refuse_restore [] to Reason.unknown_side (names_both cfg.name to)
  restore_side neither = refuse_restore [] to Reason.unknown_side (names_neither cfg.name to)
  restore_side target =
      let from = endpoint cfg.source cfg.source_path in
      let dest = endpoint cfg.target cfg.target_path in
      if not (allows_source_to_target cfg.direction)
      then refuse_restore from dest Reason.direction
          (wrong_direction cfg.name cfg.direction (lit "target"))
      else if ref_override_blocks cfg ref_name cfg.source cfg.target
      then refuse_restore from dest Reason.ref_override (pinned_target ref_name)
      else do_restore_ref s cfg (forth cfg) ref_type ref_name sha actor
  restore_side source =
      let from = endpoint cfg.target cfg.target_path in
      let dest = endpoint cfg.source cfg.source_path in
      if not (allows_target_to_source cfg.direction)
      then refuse_restore from dest Reason.direction
          (wrong_direction cfg.name cfg.direction (lit "source"))
      else if ref_override_blocks cfg ref_name cfg.target cfg.source
      then refuse_restore from dest Reason.ref_override (pinned_source ref_name)
      else do_restore_ref s cfg (back cfg) ref_type ref_name sha actor

module _ {W : Type 0} (s : Service W) (cfg : RepoConfig) (to ref dest actor : Text) where
  refuse_force : Text → Text → Reason → Error → Call W
  refuse_force from end = refused s (refused_event Action.mirror cfg.name from end ref actor)

  -- The body of the loop of `ForcePush`. The override gate is in `doMirror`.
  unfoldable pub force_side : Side → Call W
  unfolding refuse_force refused refuse_act
  force_side both = refuse_force [] to Reason.unknown_side (names_both cfg.name to)
  force_side neither = refuse_force [] to Reason.unknown_side (names_neither cfg.name to)
  force_side target =
      let from = endpoint cfg.source cfg.source_path in
      let end = endpoint cfg.target cfg.target_path in
      if not (allows_source_to_target cfg.direction)
      then refuse_force from end Reason.direction
          (wrong_direction cfg.name cfg.direction (lit "target"))
      else do_mirror s cfg (forth cfg) (force_meta ref dest actor)
  force_side source =
      let from = endpoint cfg.target cfg.target_path in
      let end = endpoint cfg.source cfg.source_path in
      if not (allows_target_to_source cfg.direction)
      then refuse_force from end Reason.direction
          (wrong_direction cfg.name cfg.direction (lit "source"))
      else do_mirror s cfg (back cfg) (force_meta ref dest actor)

module _ {W : Type 0} (s : Service W) where
  unfoldable pub restore_loop : Text → Text → Text → Text → Text → Text → List RepoConfig → Call W
  unfolding restore_side side_of
  restore_loop repo to ref_type ref_name sha actor [] =
      refused s (refused_event Action.restore repo [] to (full_ref_name ref_type ref_name) actor)
        Reason.unknown_repo (names_no_repo repo)
  restore_loop repo to ref_type ref_name sha actor (cfg ∷ cfgs) =
      let rest = restore_loop repo to ref_type ref_name sha actor cfgs in
      if cfg.name == repo
      then restore_side s cfg to ref_type ref_name sha actor (side_of s cfg to)
      else rest

  -- `Service.RestoreRef`
  unfoldable pub restore_ref : Text → Text → Text → Text → Text → Text → Call W
  unfolding restore_loop
  restore_ref repo to ref_type ref_name sha actor =
      restore_loop repo to ref_type ref_name sha actor s.configs

  unfoldable pub force_loop : Text → Text → Text → Text → Text → List RepoConfig → Call W
  unfolding force_side side_of
  force_loop repo to ref dest actor [] =
      refused s (refused_event Action.mirror repo [] to ref actor) Reason.unknown_repo
        (names_no_repo repo)
  force_loop repo to ref dest actor (cfg ∷ cfgs) =
      let rest = force_loop repo to ref dest actor cfgs in
      if cfg.name == repo then force_side s cfg to ref dest actor (side_of s cfg to) else rest

  -- `Service.ForcePush`
  unfoldable pub force_push : Text → Text → Text → Text → Text → Call W
  unfolding force_loop
  force_push repo to ref dest actor = force_loop repo to ref dest actor s.configs
