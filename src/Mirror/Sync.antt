-- ===== src/Mirror/Sync.antt =====
-- internal/mirror/mirror.go, `doMirror`: one sync of a repository in one direction.
-- The per-repository lock is taken when the state reaches `prepared`: waiting for it changes nothing
-- of what is modelled.
pub mod Once
pub mod Guard
use git_bridge.Base.{
  Text, ℕ, ◌-◌, List, [], ◌∷◌, ◌++◌, Option, none, some, Bool, true, false, ◌&&◌, ◌||◌, not,
  if◌then◌else◌, lit, concat, ◌==◌, is_empty,
}
use git_bridge.Config.{RepoConfig}
use git_bridge.Errors.{Error, Result, value, failed, wrap}
use git_bridge.History.{
  new_event, Event, Outcome, ok, skip, fail, Reason, no_reason, already_up_to_date, lease_rejected,
  no_refs_to_push, destination_ahead, ref_override, mirror, ForcedRef, HeldRef, forced_reason,
  nothing_lost,
}
use git_bridge.Notify.{Message, success, link}
use git_bridge.Provider.{Provider, Remote}
use git_bridge.Mirror.{EventMeta, ref_name, is_tag, is_branch}
use git_bridge.Mirror.Git.{Git, PushSpec, PushResult}
use git_bridge.Mirror.Flow.{
  Service, State, Act, Flow, finished, going, continue, ◌>>=◌, ◌>>◌, pure, exit, ask, call, change,
  send_message, record_outcome, run,
}
use git_bridge.Mirror.Forced.{ForcedReport, classify_forced, rewrite_note}
use git_bridge.Mirror.Held.{HeldReport}
use git_bridge.Mirror.Plan.{PushPlan, plan_push}
use git_bridge.Mirror.Refs.{ref_override_blocks, resolve_refs, retry_direction_for}
use git_bridge.Mirror.Steps.{
  endpoint, route_of, append_source, leave, leave_as, record_since, require_provider,
  notify_failure, mirror_dir_for, ensure_mirror, report_held, report_forced,
}

-- One direction of a repository, as the parameters of `doMirror` name it.
pub record Leg : Type 0 where
  pub from : Text
  pub from_path : Text
  pub to : Text
  pub to_path : Text

abbrev pub forth : RepoConfig → Leg
forth cfg = record {
  from = cfg.source;
  from_path = cfg.source_path;
  to = cfg.target;
  to_path = cfg.target_path;
}

abbrev pub back : RepoConfig → Leg
back cfg = record {
  from = cfg.target;
  from_path = cfg.target_path;
  to = cfg.source;
  to_path = cfg.source_path;
}

-- The event that every exit of `doMirror` completes.
abbrev pub mirror_event : RepoConfig → Leg → EventMeta → Event
mirror_event cfg leg meta = record (new_event mirror) {
  repo = cfg.name;
  source = meta.source;
  from = endpoint leg.from leg.from_path;
  to = endpoint leg.to leg.to_path;
  ref = meta.ref;
  actor = meta.actor;
}

-- The lines "Rewritten: …" of the success message.
rewritten_lines : List ForcedRef → Text
rewritten_lines [] = []
rewritten_lines (f ∷ fs) =
    let rest = rewritten_lines fs in
    if nothing_lost f && is_branch f.ref
    then concat (lit "\nRewritten: " ∷ f.ref ∷ lit " (" ∷ rewrite_note f ∷ lit ")" ∷ rest ∷ [])
    else rest

author_line : Result Text → Text
author_line (failed e) = []
author_line (value author) = if author == [] then [] else lit "\nPushed by: " ++ author

module _ {W : Type 0} (s : Service W) (cfg : RepoConfig) (leg : Leg) (meta : EventMeta) where
  route : Text
  route = route_of leg.from leg.from_path leg.to leg.to_path

  target_link : Provider → Text
  target_link tgt = link (tgt.web_url leg.to_path) (endpoint leg.to leg.to_path)

  -- A push step that failed: notify, record, and return the error wrapped in `step`.
  push_failed : {A : Type 0} → ℕ → Event → Text → Error → Act W A
  unfolding notify_failure leave_as
  push_failed since hist step e =
      notify_failure s cfg (lit "push") route meta e
      >> leave_as s since hist Reason.push e (wrap (step ++ lit ": ") e [])

  ref_lines : Text → W → Text
  unfolding author_line
  ref_lines dir w =
      if meta.ref == []
      then []
      else concat (
          (if is_tag meta then lit "\nTag: " else lit "\nBranch: ")
          ∷ ref_name meta
          ∷ author_line (s.git.commit_author dir meta.ref w)
          ∷ [])

  success_message : Text → Provider → ℕ → List ForcedRef → W → Message
  unfolding ref_lines rewritten_lines target_link
  success_message dir tgt elapsed forced w = record {
    level = success;
    title = lit "Mirror Sync: " ++ cfg.name;
    body =
        append_source
          (concat (
            lit "Action: branches + tags synced\nRoute: "
            ∷ route
            ∷ lit "\nDuration: "
            ∷ s.git.show_duration elapsed
            ∷ lit "\nTarget: "
            ∷ target_link tgt
            ∷ rewritten_lines forced
            ∷ ref_lines dir w
            ∷ []))
          meta;
    webhook_url = cfg.slack_webhook_url;
  }

  announce : ℕ → Event → Text → Provider → ℕ → Reason → List ForcedRef → Act W ⊥
  unfolding success_message
  announce since hist dir tgt elapsed why forced = do
    message ← ask (success_message dir tgt elapsed forced)
    send_message message
    leave s since hist ok why none

  -- The end of a push that overwrote refs.
  report_overwritten : ℕ → Event → Text → Provider → ℕ → List ForcedRef → Act W ⊥
  unfolding announce
  report_overwritten since hist dir tgt elapsed forced = do
    checked ← ask (λ w. classify_forced s.git dir w forced)
    let hist' = record hist { forced = checked }
    alerted ← report_forced s cfg meta (record {
      route = route;
      dest = hist.to;
      target = target_link tgt;
      elapsed = s.git.show_duration elapsed;
      forced = checked;
    })
    if alerted
        then leave s since hist' ok (forced_reason checked) none
        else announce since hist' dir tgt elapsed (forced_reason checked) checked

  -- The end of a push that git carried out.
  pushed : ℕ → ℕ → Event → Text → Provider → PushResult → Act W ⊥
  unfolding report_overwritten announce
  pushed since start hist dir tgt res = do
    now ← ask s.git.clock
    if not res.changed
        then leave s since hist skip
            (if is_empty res.rejected then already_up_to_date else lease_rejected) none
        else if is_empty res.forced
        then announce since hist dir tgt (now - start) no_reason []
        else report_overwritten since hist dir tgt (now - start) res.forced

  push_outcome : ℕ → ℕ → Event → Text → Provider → Result PushResult → Act W ⊥
  unfolding pushed push_failed
  push_outcome since start hist dir tgt (failed e) = push_failed since hist (lit "push") e
  push_outcome since start hist dir tgt (value res) = pushed since start hist dir tgt res

  -- From the plan on.
  carry_out : ℕ → ℕ → Event → Text → Provider → PushPlan → Act W ⊥
  unfolding push_outcome
  carry_out since start hist dir tgt plan = do
    report_held s cfg meta (record {
      route = route;
      reverse_route = route_of leg.to leg.to_path leg.from leg.from_path;
      dest = hist.to;
      repo = cfg.name;
      direction = retry_direction_for cfg leg.from leg.to;
      held = plan.held;
    })
    let hist' = record hist { held = plan.held }
    if is_empty plan.specs
        then leave s since hist' skip
            (if is_empty plan.held then already_up_to_date else destination_ahead) none
        else do
          res ← call (s.git.push_mirror dir (tgt.remote leg.to_path) plan.specs)
          push_outcome since start hist' dir tgt res

  plan_outcome : ℕ → ℕ → Event → Text → Provider → Result PushPlan → Act W ⊥
  unfolding carry_out push_failed
  plan_outcome since start hist dir tgt (failed e) = push_failed since hist (lit "plan push") e
  plan_outcome since start hist dir tgt (value plan) = carry_out since start hist dir tgt plan

  refs_outcome : ℕ → ℕ → Event → Text → Provider → Result (List Text) → Act W ⊥
  unfolding plan_outcome push_failed
  refs_outcome since start hist dir tgt (failed e) = push_failed since hist (lit "resolve refs") e
  refs_outcome since start hist dir tgt (value []) = leave s since hist skip no_refs_to_push none
  refs_outcome since start hist dir tgt (value (ref ∷ refs)) = do
    plan ←
        call (plan_push s.git dir (tgt.remote leg.to_path) (ref ∷ refs) meta.force meta.force_lease)
    plan_outcome since start hist dir tgt plan

  prepared : ℕ → ℕ → Event → Text → Provider → Option Error → Act W ⊥
  unfolding refs_outcome
  prepared since start hist dir tgt (some e) = leave s since hist fail Reason.clone (some e)
  prepared since start hist dir tgt none = do
    refs ← ask (resolve_refs s.git cfg dir leg.from leg.to meta)
    refs_outcome since start hist dir tgt refs

  mirror_body : ℕ → Event → Act W ⊥
  unfolding prepared
  mirror_body since hist = do
    src ← require_provider s since hist leg.from
    tgt ← require_provider s since hist leg.to
    start ← ask s.git.clock
    dir ← mirror_dir_for s cfg.name leg.from
    ready ← ensure_mirror s cfg (src.remote leg.from_path) dir route meta
    prepared since start hist dir tgt ready

  mirror_act : Act W ⊥
  unfolding mirror_body
  mirror_act = do
    since ← ask s.git.clock
    let hist = mirror_event cfg leg meta
    if not (meta.ref == []) && ref_override_blocks cfg (ref_name meta) leg.from leg.to
        then leave s since hist skip ref_override none
        else mirror_body since hist

  -- `doMirror`
  unfoldable pub do_mirror : State W → Option Error × State W
  unfolding mirror_act route
  do_mirror = run mirror_act
