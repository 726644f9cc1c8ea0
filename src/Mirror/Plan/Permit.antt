-- ===== src/Mirror/Plan/Permit.antt =====
-- internal/mirror/mirror.go: the plan of `planPush` against the world that it leaves.
use git_bridge.Base.{
  Text, List, [], ◌∷◌, Option, none, some, Bool, true, false, Map, lookup, ◌≡◌, refl, ap, All,
  All-append,
}
use git_bridge.Errors.{Result, value, failed, failed_or_value}
use git_bridge.Provider.{Remote}
use git_bridge.Mirror.Git.{Git, PushSpec}
use git_bridge.Mirror.Preserves.{Upkeep}
use git_bridge.Mirror.Plan.{
  PushPlan, empty_plan, plan_ref, plan_loop, with_remote, with_local, plan_push,
}
use git_bridge.Mirror.Plan.Guard.{Safe, TipsRead, plan_loop-Sound}

module _ {W : Type 0} (g : Git W) (dir : Text) (rem : Remote) where
  -- A push of these specs is permitted at the world `w`: under force each carries the lease that was
  -- asked for, otherwise each is safe by the tips of both sides, read on the way to `w`.
  abbrev pub Permitted : Bool → Text → W → List PushSpec → Type 0
  Permitted true lease w specs = All (λ spec. spec.lease ≡ lease) specs
  Permitted false lease w specs =
      (w₀ : W) × (local : Map Text) × (remote : Map Text) × TipsRead g dir rem w₀ local remote w
      × All (Safe g dir w local remote) specs

  Leased : Text → PushPlan → Type 0
  Leased lease plan = All (λ spec. spec.lease ≡ lease) plan.specs

  forced_ref :
      (w : W) (remote : Map Text) (lease : Text) (plan : PushPlan) (ref : Text) (src : Option Text)
      → Leased lease plan
      → Leased lease (plan_ref g dir w remote true lease plan ref src)
  unfolding plan_ref Leased
  forced_ref w remote lease plan ref none h = h
  forced_ref w remote lease plan ref (some src) h =
      All-append (λ spec. spec.lease ≡ lease) plan.specs _ h (refl, tt)

  forced_loop :
      (w : W) (local remote : Map Text) (lease : Text) (refs : List Text) (plan : PushPlan)
      → Leased lease plan
      → Leased lease (plan_loop g dir w local remote true lease plan refs)
  unfolding plan_loop
  forced_loop w local remote lease [] plan h = h
  forced_loop w local remote lease (ref ∷ refs) plan h =
      forced_loop w local remote lease refs
        (plan_ref g dir w remote true lease plan ref (lookup ref local))
        (forced_ref w remote lease plan ref (lookup ref local) h)

  loop-Permitted :
      (force : Bool) (lease : Text) (w₀ w : W) (local remote : Map Text) (refs : List Text)
      → TipsRead g dir rem w₀ local remote w
      → Permitted force lease w (plan_loop g dir w local remote force lease empty_plan refs).specs
  unfolding Leased
  loop-Permitted true lease w₀ w local remote refs read =
      forced_loop w local remote lease refs empty_plan tt
  loop-Permitted false lease w₀ w local remote refs read = (
    w₀,
    local,
    remote,
    read,
    (plan_loop-Sound g dir w local remote lease refs empty_plan (tt, tt)).0,
  )

  planned : Result PushPlan → PushPlan
  planned (failed e) = empty_plan
  planned (value plan) = plan

  with_remote-Permitted :
      (want : List Text) (force : Bool) (lease : Text) (local : Map Text) (w₀ : W)
      (r : Result (Map Text) × W) (plan : PushPlan) (w : W)
      → g.list_ref_tips dir w₀ ≡ value local
      → g.remote_refs rem w₀ ≡ r
      → with_remote g dir rem want force lease local r ≡ (value plan, w)
      → Permitted force lease w plan.specs
  unfolding with_remote planned
  with_remote-Permitted want force lease local w₀ (failed e, w') plan w here there made =
      absurd (failed_or_value _ plan (ap (λ x. x.0) made))
  with_remote-Permitted want force lease local w₀ (value remote, w') plan w here there made =
      rw (← ap (λ x. x.1) made, ← ap (λ x. planned x.0) made)
        (loop-Permitted force lease w₀ w' local remote want (here, there))

  with_local-Permitted :
      (want : List Text) (force : Bool) (lease : Text) (r : Result (Map Text)) (w₀ : W)
      (plan : PushPlan) (w : W)
      → g.list_ref_tips dir w₀ ≡ r
      → with_local g dir rem want force lease r w₀ ≡ (value plan, w)
      → Permitted force lease w plan.specs
  unfolding with_local
  with_local-Permitted want force lease (failed e) w₀ plan w here made =
      absurd (failed_or_value _ plan (ap (λ x. x.0) made))
  with_local-Permitted want force lease (value local) w₀ plan w here made =
      with_remote-Permitted want force lease local w₀ (g.remote_refs rem w₀) plan w here refl made

  -- Whatever plan comes out, forced or not, it permits its writes at the world that is left.
  pub plan_push-Permitted :
      (ref : Text) (refs : List Text) (force : Bool) (lease : Text) (w₀ w : W) (plan : PushPlan)
      → plan_push g dir rem (ref ∷ refs) force lease w₀ ≡ (value plan, w)
      → Permitted force lease w plan.specs
  unfolding plan_push
  plan_push-Permitted ref refs force lease w₀ w plan made =
      with_local-Permitted (ref ∷ refs) force lease (g.list_ref_tips dir w₀) w₀ plan w refl made

module _ {W : Type 0} {Inv : W → Type 0} (g : Git W) (dir : Text) (rem : Remote)
    (keep : Upkeep g Inv) where
  with_remote-world :
      (want : List Text) (force : Bool) (lease : Text) (local : Map Text)
      (r : Result (Map Text) × W)
      → (with_remote g dir rem want force lease local r).1 ≡ r.1
  unfolding with_remote
  with_remote-world want force lease local (failed e, w) = refl
  with_remote-world want force lease local (value remote, w) = refl

  with_local-keeps :
      (want : List Text) (force : Bool) (lease : Text) (r : Result (Map Text)) (w : W)
      → Inv w
      → Inv (with_local g dir rem want force lease r w).1
  unfolding with_local
  with_local-keeps want force lease (failed e) w h = h
  with_local-keeps want force lease (value local) w h =
      rw (with_remote-world want force lease local (g.remote_refs rem w)) (keep.remote_refs rem w h)

  pub plan_push-keeps :
      (want : List Text) (force : Bool) (lease : Text) (w : W)
      → Inv w
      → Inv (plan_push g dir rem want force lease w).1
  unfolding plan_push
  plan_push-keeps [] force lease w h = h
  plan_push-keeps (ref ∷ refs) force lease w h =
      with_local-keeps (ref ∷ refs) force lease (g.list_ref_tips dir w) w h
