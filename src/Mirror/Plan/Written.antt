-- ===== src/Mirror/Plan/Written.antt =====
-- internal/mirror/mirror.go: the refs that `planPush` writes.
use git_bridge.Base.{
  Text, List, [], ◌∷◌, Option, none, some, Bool, true, false, if◌then◌else◌, ◌==◌, Map, lookup, ◌≡◌,
  ap, All, All-append,
}
use git_bridge.Errors.{Result, value, failed, Holds, holds_value}
use git_bridge.Provider.{Remote}
use git_bridge.Mirror.Git.{Git}
use git_bridge.Mirror.Plan.{
  PushPlan, empty_plan, add_spec, compare_tips, judge, plan_ref, plan_loop, with_remote, with_local,
  plan_push,
}

-- What holds of every ref that was asked for holds of every ref that is written.
module _ {W : Type 0} (g : Git W) (dir : Text) (P : Text → Type 0) where
  abbrev Written : PushPlan → Type 0
  Written plan = All (λ spec. P spec.ref) plan.specs

  Written-if : (b : Bool) (p q : PushPlan) → Written p → Written q → Written (if b then p else q)
  Written-if true p q h k = h
  Written-if false p q h k = k

  add_spec-Written :
      (plan : PushPlan) (ref lease : Text)
      → P ref
      → Written plan
      → Written (add_spec plan ref lease)
  add_spec-Written plan ref lease p h = All-append (λ spec. P spec.ref) plan.specs _ h (p, tt)

  judge-Written :
      (w : W) (plan : PushPlan) (ref src : Text) (dst : Option Text)
      → P ref
      → Written plan
      → Written (judge g dir w plan ref src dst)
  unfolding judge compare_tips
  judge-Written w plan ref src none p h = add_spec-Written plan ref [] p h
  judge-Written w plan ref src (some dst) p h = Written-if (dst == src) _ _ h (
      Written-if (g.has_object dir dst w) _ _
        (Written-if (g.is_ancestor dir src dst w) _ _ h (add_spec-Written plan ref dst p h)) h)

  plan_ref-Written :
      (w : W) (remote : Map Text) (force : Bool) (lease : Text) (plan : PushPlan) (ref : Text)
      (src : Option Text)
      → P ref
      → Written plan
      → Written (plan_ref g dir w remote force lease plan ref src)
  unfolding plan_ref
  plan_ref-Written w remote force lease plan ref none p h = h
  plan_ref-Written w remote force lease plan ref (some src) p h =
      Written-if force _ _ (add_spec-Written plan ref lease p h)
        (judge-Written w plan ref src (lookup ref remote) p h)

  plan_loop-Written :
      (w : W) (local remote : Map Text) (force : Bool) (lease : Text) (refs : List Text)
      (plan : PushPlan)
      → All P refs
      → Written plan
      → Written (plan_loop g dir w local remote force lease plan refs)
  unfolding plan_loop
  plan_loop-Written w local remote force lease [] plan ps h = h
  plan_loop-Written w local remote force lease (ref ∷ refs) plan (p, ps) h =
      plan_loop-Written w local remote force lease refs
        (plan_ref g dir w remote force lease plan ref (lookup ref local)) ps
        (plan_ref-Written w remote force lease plan ref (lookup ref local) p h)

  with_remote-Written :
      (rem : Remote) (want : List Text) (force : Bool) (lease : Text) (local : Map Text)
      (r : Result (Map Text) × W)
      → All P want
      → Holds Written (with_remote g dir rem want force lease local r).0
  unfolding with_remote
  with_remote-Written rem want force lease local (failed e, w) ps = tt
  with_remote-Written rem want force lease local (value remote, w) ps =
      plan_loop-Written w local remote force lease want empty_plan ps tt

  with_local-Written :
      (rem : Remote) (want : List Text) (force : Bool) (lease : Text) (r : Result (Map Text))
      (w : W)
      → All P want
      → Holds Written (with_local g dir rem want force lease r w).0
  unfolding with_local
  with_local-Written rem want force lease (failed e) w ps = tt
  with_local-Written rem want force lease (value local) w ps =
      with_remote-Written rem want force lease local (g.remote_refs rem w) ps

  pub plan_push-Written :
      (rem : Remote) (ref : Text) (refs : List Text) (force : Bool) (lease : Text) (w w' : W)
      (plan : PushPlan)
      → All P (ref ∷ refs)
      → plan_push g dir rem (ref ∷ refs) force lease w ≡ (value plan, w')
      → All (λ spec. P spec.ref) plan.specs
  unfolding plan_push
  plan_push-Written rem ref refs force lease w w' plan ps made =
      holds_value Written _ plan (ap (λ x. x.0) made)
        (with_local-Written rem (ref ∷ refs) force lease (g.list_ref_tips dir w) w ps)
