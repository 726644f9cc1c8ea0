-- ===== src/Mirror/Sync/Guard.antt =====
-- internal/mirror/mirror.go: what `doMirror` may do to the world.
use git_bridge.Base.{
  All, if◌then◌else◌, ◌==◌, ◌&&◌, not, is_empty, Text, ℕ, List, [], ◌∷◌, Option, none, some, ◌≡◌,
  lookup,
}
use mathlib.Core.Path.{subst}
use git_bridge.Config.{RepoConfig}
use git_bridge.Errors.{Error, Result, value, failed, Holds}
use git_bridge.History.{Event, ForcedRef, Reason, skip, ref_override}
use git_bridge.Mirror.{EventMeta, ref_name}
use git_bridge.Mirror.Git.{Git, PushSpec, PushResult}
use git_bridge.Mirror.Flow.{Service, State, run}
use git_bridge.Mirror.Plan.{PushPlan, plan_push}
use git_bridge.Mirror.Plan.Permit.{Permitted, plan_push-Permitted, plan_push-keeps}
use git_bridge.Mirror.Plan.Written.{plan_push-Written}
use git_bridge.Mirror.Refs.{ref_override_blocks}
use git_bridge.Mirror.Refs.Meant.{Meant, Unpinned, resolve_refs-Meant}
use git_bridge.Mirror.Preserves.{
  Upkeep, Preserves, preserves_rules, Preserves-bind, Preserves-ask, Preserves-if, Preserves-leave,
  Preserves-require_provider, Leads, Leads-kept, Leads-if, Leads-call, Leads-ask, Leads-bind,
  returned_world,
}
use git_bridge.Mirror.Steps.{leave}
use git_bridge.Mirror.Steps.Keep.{
  report_held-Preserves, report_forced-Preserves, mirror_dir_for-Preserves, ensure_mirror-Preserves,
}
use git_bridge.Provider.{Provider, Remote}
use git_bridge.Mirror.Sync.{
  Leg, mirror_event, push_failed, announce, report_overwritten, pushed, push_outcome, carry_out,
  plan_outcome, refs_outcome, prepared, mirror_body, mirror_act, do_mirror,
}

module _ {W : Type 0} (g : Git W) (Inv : W → Type 0) where
  -- The property holds on after a push of what the plan permits at that very world, of refs that are
  -- meant by the event.
  abbrev pub PermittedPushes : RepoConfig → Leg → Remote → EventMeta → Type 0
  PermittedPushes cfg leg rem meta =
      (dir : Text) (specs : List PushSpec) (w : W)
      → All (λ spec. Meant cfg leg.from leg.to meta spec.ref) specs
      → Permitted g dir rem meta.force meta.force_lease w specs
      → Inv w
      → Inv (g.push_mirror dir rem specs w).1

module _ {W : Type 0} {Inv : W → Type 0} (s : Service W) (cfg : RepoConfig) (leg : Leg)
    (meta : EventMeta) (since start : ℕ) (hist : Event) (dir : Text) (tgt : Provider) where
  announce-Preserves :
      (hist' : Event) (elapsed : ℕ) (why : Reason) (forced : List ForcedRef)
      → Preserves Inv (announce s cfg leg meta since hist' dir tgt elapsed why forced)
  unfolding announce
  announce-Preserves hist' elapsed why forced = search preserves_rules

  report_overwritten-Preserves :
      (elapsed : ℕ) (forced : List ForcedRef)
      → Preserves Inv (report_overwritten s cfg leg meta since hist dir tgt elapsed forced)
  unfolding report_overwritten
  report_overwritten-Preserves elapsed forced = Preserves-bind _ _ (Preserves-ask _) λ checked.
      Preserves-bind _ _ (report_forced-Preserves s cfg meta _) λ alerted.
        Preserves-if alerted _ _ (Preserves-leave s since _ _ _ none)
          (announce-Preserves _ elapsed _ checked)

  pushed-Preserves :
      (res : PushResult) → Preserves Inv (pushed s cfg leg meta since start hist dir tgt res)
  unfolding pushed
  pushed-Preserves res = Preserves-bind _ _ (Preserves-ask _) λ now.
      Preserves-if (not res.changed) _ _ (Preserves-leave s since hist _ _ none) (
        Preserves-if (is_empty res.forced) _ _ (announce-Preserves hist _ _ [])
          (report_overwritten-Preserves _ res.forced))

  push_outcome-Preserves :
      (res : Result PushResult)
      → Preserves Inv (push_outcome s cfg leg meta since start hist dir tgt res)
  unfolding push_outcome push_failed
  push_outcome-Preserves (failed e) = search preserves_rules
  push_outcome-Preserves (value res) = pushed-Preserves res

module _ {W : Type 0} {Inv : W → Type 0} (s : Service W) (cfg : RepoConfig) (leg : Leg)
    (meta : EventMeta) (keep : Upkeep s.git Inv) (since start : ℕ) (hist : Event) (dir : Text)
    (tgt : Provider)
    (pushes : PermittedPushes s.git Inv cfg leg (tgt.remote leg.to_path) meta) where
  -- The plan permits its writes at the present world.
  abbrev Permits : PushPlan → W → Type 0
  Permits plan w =
      Permitted s.git dir (tgt.remote leg.to_path) meta.force meta.force_lease w plan.specs × Inv w

  carry_out-Leads :
      (plan : PushPlan)
      → All (λ spec. Meant cfg leg.from leg.to meta spec.ref) plan.specs
      → Leads (Permits plan) Inv (carry_out s cfg leg meta since start hist dir tgt plan)
  unfolding carry_out
  carry_out-Leads plan meant =
      Leads-bind _ _ (λ w h. h.1) (report_held-Preserves s cfg meta _)
        λ _.
          Leads-if (is_empty plan.specs) _ _
            (λ nothing. Leads-kept _ (λ w h. h.1) (Preserves-leave s since _ _ _ none))
            λ something. Leads-call _ _ λ res.
              Leads-kept _
                (λ w' (w, after, h).
                  returned_world Inv _ res w' after (pushes dir plan.specs w meant h.0 h.1))
                (push_outcome-Preserves s cfg leg meta since start _ dir tgt res)

  plan_outcome-Leads :
      (ref : Text) (refs : List Text) (plan : Result PushPlan)
      → All (Meant cfg leg.from leg.to meta) (ref ∷ refs)
      → Leads
          (λ w'.
            (w : W) × (plan_push s.git dir
                (tgt.remote leg.to_path)
                (ref ∷ refs)
                meta.force
                meta.force_lease
                w
              ≡ (plan, w'))
            × Inv w)
          Inv
          (plan_outcome s cfg leg meta since start hist dir tgt plan)
  unfolding plan_outcome push_failed
  plan_outcome-Leads ref refs (failed e) meant =
      Leads-kept _
        (λ w' (w, after, h).
          returned_world Inv _ (failed e) w' after
            (plan_push-keeps s.git dir _ keep (ref ∷ refs) _ _ w h))
        (search preserves_rules)
  plan_outcome-Leads ref refs (value plan) meant = record {
    at = λ st (w, after, h).
        (carry_out-Leads plan (
            plan_push-Written s.git dir (Meant cfg leg.from leg.to meta) _ ref refs _ _ w st.world
              plan meant after)).at
          st
          (
            plan_push-Permitted s.git dir _ ref refs _ _ w st.world plan after,
            returned_world Inv _ (value plan) st.world after
                (plan_push-keeps s.git dir _ keep (ref ∷ refs) _ _ w h),
          );
  }

  refs_outcome-Preserves :
      (refs : Result (List Text))
      → Holds (All (Meant cfg leg.from leg.to meta)) refs
      → Preserves Inv (refs_outcome s cfg leg meta since start hist dir tgt refs)
  unfolding refs_outcome push_failed
  refs_outcome-Preserves (failed e) meant = search preserves_rules
  refs_outcome-Preserves (value []) meant = Preserves-leave s since hist _ _ none
  refs_outcome-Preserves (value (ref ∷ refs)) meant =
      let leads : Leads Inv Inv
          (refs_outcome s cfg leg meta since start hist dir tgt (value (ref ∷ refs))) =
        Leads-call _ _ (λ plan. plan_outcome-Leads ref refs plan meant) in
      record { at = leads.at }

  prepared-Preserves :
      (e : Option Error)
      → Unpinned cfg leg.from leg.to meta
      → Preserves Inv (prepared s cfg leg meta since start hist dir tgt e)
  unfolding prepared
  prepared-Preserves (some e) unpinned = Preserves-leave s since hist _ _ (some e)
  prepared-Preserves none unpinned =
      let leads : Leads Inv Inv (prepared s cfg leg meta since start hist dir tgt none) =
        Leads-ask _ _ λ refs. record {
          at = λ st (listed, h).
              (refs_outcome-Preserves refs (
                  subst (Holds (All (Meant cfg leg.from leg.to meta))) listed
                    (resolve_refs-Meant cfg leg.from leg.to meta s.git dir st.world unpinned))).at
                st h;
        } in
      record { at = leads.at }

module _ {W : Type 0} {Inv : W → Type 0} (s : Service W) (cfg : RepoConfig) (leg : Leg)
    (meta : EventMeta) (keep : Upkeep s.git Inv)
    (pushes : (tgt : Provider)
      → lookup leg.to s.providers ≡ some tgt
      → PermittedPushes s.git Inv cfg leg (tgt.remote leg.to_path) meta) where
  mirror_body-Preserves :
      (since : ℕ) (hist : Event)
      → Unpinned cfg leg.from leg.to meta
      → Preserves Inv (mirror_body s cfg leg meta since hist)
  unfolding mirror_body
  mirror_body-Preserves since hist unpinned =
      Preserves-require_provider s since hist leg.from _ λ src there.
        Preserves-require_provider s since hist leg.to _ λ tgt found.
          Preserves-bind _ _ (Preserves-ask _) λ start.
            Preserves-bind _ _ (mirror_dir_for-Preserves s keep cfg.name leg.from) λ dir.
              Preserves-bind _ _ (ensure_mirror-Preserves s keep cfg meta _ dir _) λ ready.
                prepared-Preserves s cfg leg meta keep since start hist dir tgt (pushes tgt found)
                  ready unpinned

  -- Any property of the world that git's reads and the upkeep of the mirror directory respect, and
  -- that a permitted push to the destination of refs that the event means respects, holds on after
  -- `doMirror`. A push is permitted when, at the world it is made in, each of its refs is safe to write
  -- by the tips just read; under force, when each carries the lease that the request named. A ref is
  -- meant when no override pins it to another direction and it is the event's own, if it names one.
  pub do_mirror-guarded : (st : State W) → Inv st.world → Inv (do_mirror s cfg leg meta st).1.world
  unfolding do_mirror mirror_act run
  do_mirror-guarded st h =
      let act : Preserves Inv (mirror_act s cfg leg meta) =
        Preserves-bind _ _ (Preserves-ask _) λ since.
          let leads : Leads Inv Inv (
              if not (meta.ref == []) && ref_override_blocks cfg (ref_name meta) leg.from leg.to
              then leave s since (mirror_event cfg leg meta) skip ref_override none
              else mirror_body s cfg leg meta since (mirror_event cfg leg meta)) =
            Leads-if _ _ _ (λ pinned. Leads-kept _ (λ w k. k) (Preserves-leave s since _ _ _ none))
              λ unpinned.
                Leads-kept _ (λ w k. k)
                  (mirror_body-Preserves since (mirror_event cfg leg meta) unpinned) in
          record { at = leads.at } in
      act.at st h
