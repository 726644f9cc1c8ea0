-- ===== src/Mirror/Delete.antt =====
-- internal/mirror/mirror.go, `doDeleteRef`: a deletion carried over to the other side.
pub mod Once
pub mod Guard
use git_bridge.Base.{
  Text, ℕ, List, [], ◌∷◌, ◌++◌, Option, none, some, Bool, true, false, if◌then◌else◌, lit, concat,
  ◌==◌,
}
use git_bridge.Config.{RepoConfig}
use git_bridge.Errors.{Error, Result, value, failed, wrap}
use git_bridge.History.{new_event, Event, Action, ok, skip, fail, Reason, no_reason, already_absent}
use git_bridge.Notify.{Message, success, error, link}
use git_bridge.Provider.{Provider}
use git_bridge.Mirror.{full_ref_name}
use git_bridge.Mirror.Flow.{Service, State, Act, ◌>>=◌, ◌>>◌, call, finally, send_message, run, ask}
use git_bridge.Mirror.Steps.{endpoint, route_of, leave, leave_as, require_provider}
use git_bridge.Mirror.Sync.{Leg}

-- The event that the exits of `doDeleteRef` and `doRestoreRef` complete.
abbrev pub ref_event : Action → RepoConfig → Leg → Text → Text → Text → Text → Event
ref_event action cfg leg ref_type ref_name source actor = record (new_event action) {
  repo = cfg.name;
  source = source;
  from = endpoint leg.from leg.from_path;
  to = endpoint leg.to leg.to_path;
  ref = full_ref_name ref_type ref_name;
  actor = actor;
}

module _ {W : Type 0} (s : Service W) (cfg : RepoConfig) (leg : Leg)
    (ref_type ref_name : Text) where
  route : Text
  route = route_of leg.from leg.from_path leg.to leg.to_path

  failure_message : Text → Error → Message
  failure_message step e = record {
    level = error;
    title = lit "Ref Delete Failed: " ++ cfg.name;
    body = concat (
        lit "Action: "
        ∷ step
        ∷ lit " "
        ∷ ref_type
        ∷ lit " '"
        ∷ ref_name
        ∷ lit "'\nRoute: "
        ∷ route
        ∷ lit "\nError: "
        ∷ e.message
        ∷ []);
    webhook_url = cfg.slack_webhook_url;
  }

  deleted_message : Provider → Text → Message
  deleted_message tgt tip = record {
    level = success;
    title = lit "Ref Deleted: " ++ cfg.name;
    body = concat (
        lit "Action: delete "
        ∷ ref_type
        ∷ lit " '"
        ∷ ref_name
        ∷ lit "'\nRoute: "
        ∷ route
        ∷ lit "\nURL: "
        ∷ link (tgt.web_url leg.to_path) (endpoint leg.to leg.to_path)
        ∷ lit "\nDeleted tip: "
        ∷ tip
        ∷ lit "\nRestore if needed:\n```git fetch <clone-url> "
        ∷ tip
        ∷ lit "\ngit push <clone-url> "
        ∷ tip
        ∷ lit ":"
        ∷ full_ref_name ref_type ref_name
        ∷ lit "```"
        ∷ []);
    webhook_url = cfg.slack_webhook_url;
  }

  deleted : ℕ → Event → Provider → Text → Option Error → Act W ⊥
  unfolding failure_message deleted_message
  deleted since hist tgt tip (some e) =
      send_message (failure_message (lit "delete") e)
      >> leave_as s since hist Reason.delete_ref e (wrap (lit "delete ref: ") e [])
  deleted since hist tgt tip none =
      send_message (deleted_message tgt tip)
      >> leave s since (record hist { deleted_tip = tip }) ok no_reason none

  -- What the destination holds decides: nothing to delete, or the tip that is about to go.
  tip_outcome : ℕ → Event → Provider → Text → Result Text → Act W ⊥
  unfolding deleted
  tip_outcome since hist tgt dir (failed e) =
      send_message (failure_message (lit "check") e)
      >> leave_as s since hist Reason.check_ref e (wrap (lit "check ref exists: ") e [])
  tip_outcome since hist tgt dir (value tip) =
      if tip == [] then leave s since hist skip already_absent none else do
        gone ← call (s.git.delete_ref dir (tgt.remote leg.to_path) ref_type ref_name)
        deleted since hist tgt tip gone

  check_tip : ℕ → Event → Provider → Text → Act W ⊥
  unfolding tip_outcome
  check_tip since hist tgt dir = do
    tip ← call (s.git.ref_tip (tgt.remote leg.to_path) ref_type ref_name)
    tip_outcome since hist tgt dir tip

  delete_act : Text → Act W ⊥
  unfolding check_tip
  delete_act source = do
    since ← ask s.git.clock
    let hist = ref_event Action.delete cfg leg ref_type ref_name source []
    tgt ← require_provider s since hist leg.to
    src ← require_provider s since hist leg.from
    let dir = concat (s.work_dir ∷ lit "/" ∷ cfg.name ∷ lit "-delete.git" ∷ [])
    finally (check_tip since hist tgt dir) (s.git.remove_all dir)

  -- `doDeleteRef`
  unfoldable pub do_delete_ref : Text → State W → Option Error × State W
  unfolding delete_act route
  do_delete_ref source = run (delete_act source)
