-- ===== src/Mirror/Restore.antt =====
-- internal/mirror/mirror.go, `doRestoreRef`: a deleted ref is put back from the console.
pub mod Once
pub mod Guard
use git_bridge.Base.{
  Text, ℕ, List, [], ◌∷◌, ◌++◌, Option, none, some, not, if◌then◌else◌, lit, concat, ◌==◌,
}
use git_bridge.Config.{RepoConfig}
use git_bridge.Errors.{Error, Sentinel, Result, value, failed, wrap}
use git_bridge.History.{Event, Action, ok, skip, fail, Reason, no_reason, already_up_to_date}
use git_bridge.Notify.{Message, success, error, link}
use git_bridge.Provider.{Provider}
use git_bridge.Mirror.{full_ref_name, source_console}
use git_bridge.Mirror.Flow.{Service, State, Act, ◌>>=◌, ◌>>◌, call, send_message, run, ask, is_busy}
use git_bridge.Mirror.Steps.{endpoint, route_of, leave, leave_as, require_provider, mirror_dir_for}
use git_bridge.Mirror.Sync.{Leg}
use git_bridge.Mirror.Delete.{ref_event}

-- fmt.Errorf("<before>%w<after>", Err…) for one of the sentinels
abbrev pub refusal : Text → Sentinel → Text → Text → Error
refusal before kind what after = record {
  message = concat (before ∷ what ∷ after ∷ []);
  sentinel = some kind;
}

module _ {W : Type 0} (s : Service W) (cfg : RepoConfig) (leg : Leg)
    (ref_type ref_name sha actor : Text) where
  route : Text
  route = route_of leg.from leg.from_path leg.to leg.to_path

  -- `notifyRestoreFailed`
  failure_message : Error → Message
  failure_message e = record {
    level = error;
    title = lit "Ref Restore Failed: " ++ cfg.name;
    body = concat (
        lit "Action: restore "
        ∷ ref_type
        ∷ lit " '"
        ∷ ref_name
        ∷ lit "'\nRoute: "
        ∷ route
        ∷ lit "\nRequested by: "
        ∷ actor
        ∷ lit "\nError: "
        ∷ e.message
        ∷ []);
    webhook_url = cfg.slack_webhook_url;
  }

  restored_message : Provider → Message
  restored_message tgt = record {
    level = success;
    title = lit "Ref Restored: " ++ cfg.name;
    body = concat (
        lit "Action: restore "
        ∷ ref_type
        ∷ lit " '"
        ∷ ref_name
        ∷ lit "'\nRoute: "
        ∷ route
        ∷ lit "\nURL: "
        ∷ link (tgt.web_url leg.to_path) (endpoint leg.to leg.to_path)
        ∷ lit "\nRestored tip: "
        ∷ sha
        ∷ lit "\nRestored by: "
        ∷ actor
        ∷ []);
    webhook_url = cfg.slack_webhook_url;
  }

  -- A failure that is told, recorded, and returned as it is.
  refuse : ℕ → Event → Reason → Error → Act W ⊥
  unfolding failure_message
  refuse since hist why e = send_message (failure_message e) >> leave s since hist fail why (some e)

  created : ℕ → Event → Provider → Option Error → Act W ⊥
  unfolding refuse restored_message
  created since hist tgt (some e) =
      send_message (failure_message e)
      >> leave_as s since hist Reason.create_ref e (wrap (lit "restore ref: ") e [])
  created since hist tgt none =
      send_message (restored_message tgt)
      >> leave s since (record hist { restored_tip = sha }) ok no_reason none

  create : ℕ → Event → Provider → Text → Act W ⊥
  unfolding created
  create since hist tgt dir = do
    made ←
        call (s.git.create_ref dir (tgt.remote leg.to_path) sha (full_ref_name ref_type ref_name))
    created since hist tgt made

  fetched : ℕ → Event → Provider → Text → Option Error → Act W ⊥
  unfolding create refuse
  fetched since hist tgt dir (some e) = refuse since hist Reason.object_gone (
      refusal (sha ++ lit ": ") Sentinel.object_gone (lit "commit is no longer available")
        (lit " (garbage-collected): " ++ e.message))
  fetched since hist tgt dir none = create since hist tgt dir

  cached : ℕ → Event → Provider → Provider → Text → Option Error → Act W ⊥
  unfolding fetched
  cached since hist src tgt dir (some e) = refuse since hist Reason.clone e
  cached since hist src tgt dir none = do
    there ← ask (s.git.has_object dir sha)
    if there then create since hist tgt dir else do
      got ← call (s.git.fetch_object dir (src.remote leg.from_path) sha)
      fetched since hist tgt dir got

  -- The hole is still there: look for the commit, and put it back.
  fill : ℕ → Event → Provider → Provider → Act W ⊥
  unfolding cached
  fill since hist src tgt = do
    dir ← mirror_dir_for s cfg.name leg.from
    made ← call (s.git.ensure_bare_dir dir)
    cached since hist src tgt dir made

  -- The `switch` on the tip that the destination has.
  tip_outcome : ℕ → Event → Provider → Provider → Result Text → Act W ⊥
  unfolding fill refuse
  tip_outcome since hist src tgt (failed e) =
      send_message (failure_message e)
      >> leave_as s since hist Reason.check_ref e (wrap (lit "check ref exists: ") e [])
  tip_outcome since hist src tgt (value tip) =
      if tip == sha
      then leave s since hist skip already_up_to_date none
      else if not (tip == [])
      then refuse since hist Reason.ref_exists (
          refusal (full_ref_name ref_type ref_name ++ lit ": ") Sentinel.ref_exists
            (lit "ref already exists on the destination")
            (concat (lit " — it is at " ∷ tip ∷ lit " on " ∷ hist.to ∷ [])))
      else fill since hist src tgt

  locked : ℕ → Event → Act W ⊥
  unfolding tip_outcome
  locked since hist = do
    src ← require_provider s since hist leg.from
    tgt ← require_provider s since hist leg.to
    tip ← call (s.git.ref_tip (tgt.remote leg.to_path) ref_type ref_name)
    tip_outcome since hist src tgt tip

  restore_act : Act W ⊥
  unfolding locked
  restore_act = do
    since ← ask s.git.clock
    let hist = ref_event Action.restore cfg leg ref_type ref_name source_console actor
    held ← is_busy cfg.name
    if held
        then leave s since hist fail Reason.repo_busy (
            some (
              refusal (cfg.name ++ lit ": ") Sentinel.repo_busy
                (lit "a mirror operation is in progress for this repo") []))
        else locked since hist

  -- `doRestoreRef`
  unfoldable pub do_restore_ref : State W → Option Error × State W
  unfolding restore_act route
  do_restore_ref = run restore_act
