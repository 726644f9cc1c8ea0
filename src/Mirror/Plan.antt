-- ===== src/Mirror/Plan.antt =====
-- internal/mirror/mirror.go, `planPush`: the guard that compares each ref with the destination.
pub mod Guard
pub mod Coverage
pub mod Permit
pub mod Written
use git_bridge.Base.{
  Text, List, [], ◌∷◌, ◌++◌, Option, none, some, Bool, true, false, if◌then◌else◌, ◌==◌, lit, Map,
  lookup,
}
use git_bridge.Errors.{Result, value, failed, wrap}
use git_bridge.History.{HeldRef, hold_destination_ahead, hold_destination_unknown}
use git_bridge.Provider.{Remote}
use git_bridge.Mirror.Git.{Git, PushSpec}

-- `pushPlan`
pub record PushPlan : Type 0 where
  pub specs : List PushSpec
  pub held : List HeldRef

abbrev pub empty_plan : PushPlan
empty_plan = record { specs = []; held = [] }

abbrev add_spec : PushPlan → Text → Text → PushPlan
add_spec plan ref lease = record plan {
  specs = plan.specs ++ (record { ref = ref; lease = lease } ∷ []);
}

module _ {W : Type 0} (g : Git W) (dir : Text) (w : W) where
  -- The `switch` on a ref that has the tip `src` here and `dst` at the destination.
  compare_tips : PushPlan → Text → Text → Text → PushPlan
  compare_tips plan ref src dst =
      if dst == src
      then plan
      else if g.has_object dir dst w
      then (if g.is_ancestor dir src dst w
          then record plan {
            held =
                plan.held
                ++ (record { ref = ref; reason = hold_destination_ahead; dest = dst } ∷ []);
          }
          else add_spec plan ref dst)
      else record plan {
        held =
            plan.held ++ (record { ref = ref; reason = hold_destination_unknown; dest = dst } ∷ []);
      }

  -- The destination's side of one round of the loop.
  judge : PushPlan → Text → Text → Option Text → PushPlan
  judge plan ref src none = add_spec plan ref []
  judge plan ref src (some dst) = compare_tips plan ref src dst

  -- One round of the loop, for a ref with its local tip, if it has one.
  plan_ref : Map Text → Bool → Text → PushPlan → Text → Option Text → PushPlan
  plan_ref remote force lease plan ref none = plan
  plan_ref remote force lease plan ref (some src) =
      if force then add_spec plan ref lease else judge plan ref src (lookup ref remote)

  unfoldable pub plan_loop : Map Text → Map Text → Bool → Text → PushPlan → List Text → PushPlan
  unfolding plan_ref judge compare_tips
  plan_loop local remote force lease plan [] = plan
  plan_loop local remote force lease plan (ref ∷ refs) =
      plan_loop local remote force lease (plan_ref remote force lease plan ref (lookup ref local))
        refs

module _ {W : Type 0} (g : Git W) (dir : Text) (rem : Remote) where
  with_remote : List Text → Bool → Text → Map Text → Result (Map Text) × W → Result PushPlan × W
  with_remote want force lease local (failed e, w) =
      (failed (wrap (lit "read destination tips: ") e []), w)
  with_remote want force lease local (value remote, w) =
      (value (plan_loop g dir w local remote force lease empty_plan want), w)

  with_local : List Text → Bool → Text → Result (Map Text) → W → Result PushPlan × W
  with_local want force lease (failed e) w = (failed (wrap (lit "read local tips: ") e []), w)
  with_local want force lease (value local) w =
      with_remote want force lease local (g.remote_refs rem w)

  -- `planPush`
  unfoldable pub plan_push : List Text → Bool → Text → W → Result PushPlan × W
  unfolding with_local with_remote plan_loop plan_ref judge compare_tips
  plan_push [] force lease w = (value empty_plan, w)
  plan_push (ref ∷ refs) force lease w =
      with_local (ref ∷ refs) force lease (g.list_ref_tips dir w) w
