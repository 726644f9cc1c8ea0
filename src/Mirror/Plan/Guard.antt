-- ===== src/Mirror/Plan/Guard.antt =====
-- internal/mirror/mirror.go: what an unforced `planPush` writes and withholds.
use git_bridge.Base.{
  Text, List, [], ◌∷◌, Option, none, some, Bool, true, false, ◌==◌, Map, lookup, ◌≡◌, refl, ◌⊎◌,
  inl, inr, All, All-append, Bool-cases,
}
use git_bridge.Errors.{value}
use git_bridge.History.{HeldRef, hold_destination_ahead, hold_destination_unknown}
use git_bridge.Provider.{Remote}
use git_bridge.Mirror.Git.{Git, PushSpec}
use git_bridge.Mirror.Plan.{
  PushPlan, empty_plan, compare_tips, judge, plan_ref, plan_loop, with_remote, with_local,
  plan_push,
}

module _ {W : Type 0} (g : Git W) (dir : Text) (w : W) (local remote : Map Text) where
  -- A write that overwrites nobody's work: of a ref that the destination has not, or of one whose
  -- tip there is leased, is known here, is another than the local tip, and is not ahead of it.
  abbrev pub Safe : PushSpec → Type 0
  Safe spec =
      (src : Text) × (lookup spec.ref local ≡ some src)
      × (((lookup spec.ref remote ≡ none) × (spec.lease ≡ []))
          ⊎ ((lookup spec.ref remote ≡ some spec.lease)
              × ((spec.lease == src) ≡ false)
              × (g.has_object dir spec.lease w ≡ true)
              × (g.is_ancestor dir src spec.lease w ≡ false)))

  -- A ref that is withheld for its stated reason: the destination is ahead of the local tip, or has
  -- a commit that is not here.
  abbrev pub Justified : HeldRef → Type 0
  Justified h =
      (src : Text) × (lookup h.ref local ≡ some src)
      × (lookup h.ref remote ≡ some h.dest)
      × (((h.reason ≡ hold_destination_ahead)
            × (g.has_object dir h.dest w ≡ true)
            × (g.is_ancestor dir src h.dest w ≡ true))
          ⊎ ((h.reason ≡ hold_destination_unknown) × (g.has_object dir h.dest w ≡ false)))

  abbrev pub Sound : PushPlan → Type 0
  Sound plan = All Safe plan.specs × All Justified plan.held

  compare_tips-Sound :
      (plan : PushPlan) (ref src dst : Text)
      → lookup ref local ≡ some src
      → lookup ref remote ≡ some dst
      → Sound plan
      → Sound (compare_tips g dir w plan ref src dst)
  unfolding compare_tips
  compare_tips-Sound plan ref src dst here there (safe, just) = elim (Bool-cases (dst == src)) [
    | inl same ↦ rw same (safe, just)
    | inr moved ↦ elim (Bool-cases (g.has_object dir dst w)) [
      | inl known ↦ elim (Bool-cases (g.is_ancestor dir src dst w)) [
        | inl ahead ↦
            rw (moved, known, ahead)
              (
                safe,
                All-append Justified plan.held _ just
                    ((src, here, there, inl (refl, known, ahead)), tt),
              )
        | inr behind ↦
            rw (moved, known, behind)
              (
                All-append Safe plan.specs _ safe
                    ((src, here, inr (there, moved, known, behind)), tt),
                just,
              )
      ]
      | inr unknown ↦
          rw (moved, unknown)
            (
              safe,
              All-append Justified plan.held _ just ((src, here, there, inr (refl, unknown)), tt),
            )
    ]
  ]

  judge-Sound :
      (plan : PushPlan) (ref src : Text) (dst : Option Text)
      → lookup ref local ≡ some src
      → lookup ref remote ≡ dst
      → Sound plan
      → Sound (judge g dir w plan ref src dst)
  unfolding judge
  judge-Sound plan ref src none here there (safe, just) =
      (All-append Safe plan.specs _ safe ((src, here, inl (there, refl)), tt), just)
  judge-Sound plan ref src (some dst) here there sound =
      compare_tips-Sound plan ref src dst here there sound

  plan_ref-Sound :
      (lease : Text) (plan : PushPlan) (ref : Text) (src : Option Text)
      → lookup ref local ≡ src
      → Sound plan
      → Sound (plan_ref g dir w remote false lease plan ref src)
  unfolding plan_ref
  plan_ref-Sound lease plan ref none here sound = sound
  plan_ref-Sound lease plan ref (some src) here sound =
      judge-Sound plan ref src (lookup ref remote) here refl sound

  pub plan_loop-Sound :
      (lease : Text) (refs : List Text) (plan : PushPlan)
      → Sound plan
      → Sound (plan_loop g dir w local remote false lease plan refs)
  unfolding plan_loop
  plan_loop-Sound lease [] plan sound = sound
  plan_loop-Sound lease (ref ∷ refs) plan sound =
      plan_loop-Sound lease refs (plan_ref g dir w remote false lease plan ref (lookup ref local))
        (plan_ref-Sound lease plan ref (lookup ref local) refl sound)

module _ {W : Type 0} (g : Git W) (dir : Text) (rem : Remote) where
  -- The tips that the two sides have when a push is planned, and the world after they were read.
  abbrev pub TipsRead : W → Map Text → Map Text → W → Type 0
  TipsRead w local remote w' =
      (g.list_ref_tips dir w ≡ value local) × (g.remote_refs rem w ≡ (value remote, w'))

  -- With the tips of both sides read, a plan always comes out, and the world is as it was then.
  pub plan_push-planned :
      (ref : Text) (refs : List Text) (force : Bool) (lease : Text) (w w' : W)
      (local remote : Map Text)
      → TipsRead w local remote w'
      → plan_push g dir rem (ref ∷ refs) force lease w
        ≡ (value (plan_loop g dir w' local remote force lease empty_plan (ref ∷ refs)), w')
  unfolding plan_push with_local with_remote
  plan_push-planned ref refs force lease w w' local remote (here, there) = rw (here, there) refl

  -- With the tips of both sides read, an unforced push is planned so that each ref it writes is either
  -- absent from the destination, and written on the condition that it still is, or leased at the
  -- destination's tip, which differs from the local one, is known here and does not contain it; and
  -- each ref it withholds is withheld because the destination's tip contains the local one, or is not
  -- known here.
  pub plan_push-Sound :
      (ref : Text) (refs : List Text) (lease : Text) (w w' : W) (local remote : Map Text)
      → TipsRead w local remote w'
      → (plan : PushPlan) × (plan_push g dir rem (ref ∷ refs) false lease w ≡ (value plan, w'))
        × Sound g dir w' local remote plan
  plan_push-Sound ref refs lease w w' local remote read = (
    _,
    plan_push-planned ref refs false lease w w' local remote read,
    plan_loop-Sound g dir w' local remote lease (ref ∷ refs) empty_plan (tt, tt),
  )
