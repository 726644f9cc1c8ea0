-- ===== src/Mirror/Plan/Coverage.antt =====
-- internal/mirror/mirror.go: the refs that `planPush` decides about.
use git_bridge.Base.{
  Text, List, [], ◌∷◌, ◌++◌, Option, none, some, Bool, true, false, if◌then◌else◌, ◌==◌, Map,
  lookup, ◌≡◌, refl, ap, ◌⊎◌, inl, inr, Bool-cases, ==_iff, All,
}
use mathlib.Core.List.{Memᴰ}
use mathlib.Core.List.Memᴰ
use git_bridge.Errors.{value}
use git_bridge.History.{HeldRef, Hold, hold_destination_ahead, hold_destination_unknown}
use git_bridge.Provider.{Remote}
use git_bridge.Mirror.Git.{Git}
use git_bridge.Mirror.Plan.{
  PushPlan, empty_plan, add_spec, compare_tips, judge, plan_ref, plan_loop, plan_push,
}
use git_bridge.Mirror.Plan.Guard.{TipsRead, plan_push-planned}

module _ {W : Type 0} (g : Git W) (dir : Text) (w : W) (local remote : Map Text) where
  -- A ref that the plan decides about: it is pushed, or it is held.
  abbrev pub Decided : PushPlan → Text → Type 0
  Decided plan ref =
      ((lease : Text) × Memᴰ (record { ref = ref; lease = lease }) plan.specs)
      ⊎ ((reason : Hold) × (dest : Text) × Memᴰ (record { ref = ref; reason = reason; dest = dest })
            plan.held)

  add_spec-Decided :
      (plan : PushPlan) (ref lease r : Text) → Decided plan r → Decided (add_spec plan ref lease) r
  add_spec-Decided plan ref lease r (inl (l, m)) = inl (l, Memᴰ.append_left _ m)
  add_spec-Decided plan ref lease r (inr h) = inr h

  enters_spec : (plan : PushPlan) (ref lease : Text) → Decided (add_spec plan ref lease) ref
  enters_spec plan ref lease = inl (lease, Memᴰ.append_right plan.specs (Memᴰ.head refl))

  compare_tips-decides :
      (plan : PushPlan) (ref src dst : Text)
      → ((dst == src) ≡ true) ⊎ Decided (compare_tips g dir w plan ref src dst) ref
  unfolding compare_tips
  compare_tips-decides plan ref src dst = elim (Bool-cases (dst == src)) [
    | inl same ↦ inl same
    | inr moved ↦ elim (Bool-cases (g.has_object dir dst w)) [
      | inl known ↦ elim (Bool-cases (g.is_ancestor dir src dst w)) [
        | inl ahead ↦
            rw (moved, known, ahead)
              (inr
                (inr (hold_destination_ahead, dst, Memᴰ.append_right plan.held (Memᴰ.head refl))))
        | inr behind ↦ rw (moved, known, behind) (inr (enters_spec plan ref dst))
      ]
      | inr unknown ↦
          rw (moved, unknown)
            (inr
              (inr (hold_destination_unknown, dst, Memᴰ.append_right plan.held (Memᴰ.head refl))))
    ]
  ]

  Decided-if :
      (b : Bool) (p q : PushPlan) (r : Text)
      → Decided p r
      → Decided q r
      → Decided (if b then p else q) r
  Decided-if true p q r h k = h
  Decided-if false p q r h k = k

  held-Decided :
      (plan : PushPlan) (h : HeldRef) (r : Text)
      → Decided plan r
      → Decided (record plan { held = plan.held ++ (h ∷ []) }) r
  held-Decided plan h r (inl m) = inl m
  held-Decided plan h r (inr (why, dest, m)) = inr (why, dest, Memᴰ.append_left _ m)

  compare_tips-keeps :
      (plan : PushPlan) (ref src dst r : Text)
      → Decided plan r
      → Decided (compare_tips g dir w plan ref src dst) r
  unfolding compare_tips
  compare_tips-keeps plan ref src dst r h = Decided-if (dst == src) _ _ r h (
      Decided-if (g.has_object dir dst w) _ _ r
        (Decided-if (g.is_ancestor dir src dst w) _ _ r (held-Decided plan _ r h)
          (add_spec-Decided plan ref dst r h))
        (held-Decided plan _ r h))

  judge-keeps :
      (plan : PushPlan) (ref src : Text) (dst : Option Text) (r : Text)
      → Decided plan r
      → Decided (judge g dir w plan ref src dst) r
  unfolding judge
  judge-keeps plan ref src none r h = add_spec-Decided plan ref [] r h
  judge-keeps plan ref src (some dst) r h = compare_tips-keeps plan ref src dst r h

  plan_ref-keeps :
      (force : Bool) (lease : Text) (plan : PushPlan) (ref : Text) (src : Option Text) (r : Text)
      → Decided plan r
      → Decided (plan_ref g dir w remote force lease plan ref src) r
  unfolding plan_ref
  plan_ref-keeps force lease plan ref none r h = h
  plan_ref-keeps force lease plan ref (some src) r h =
      Decided-if force _ _ r (add_spec-Decided plan ref lease r h)
        (judge-keeps plan ref src (lookup ref remote) r h)

  plan_loop-keeps :
      (force : Bool) (lease : Text) (r : Text) (refs : List Text) (plan : PushPlan)
      → Decided plan r
      → Decided (plan_loop g dir w local remote force lease plan refs) r
  unfolding plan_loop
  plan_loop-keeps force lease r [] plan h = h
  plan_loop-keeps force lease r (ref ∷ refs) plan h =
      plan_loop-keeps force lease r refs
        (plan_ref g dir w remote force lease plan ref (lookup ref local))
        (plan_ref-keeps force lease plan ref (lookup ref local) r h)

  -- A ref is taken care of when it has no tip here, has the same tip at the destination, or is
  -- decided about.
  abbrev pub Handled : PushPlan → Text → Type 0
  Handled plan ref =
      (src : Text) → lookup ref local ≡ some src → (lookup ref remote ≡ some src) ⊎ Decided plan ref

  judge-handles :
      (plan : PushPlan) (ref src : Text) (dst : Option Text)
      → (dst ≡ some src) ⊎ Decided (judge g dir w plan ref src dst) ref
  unfolding judge
  judge-handles plan ref src none = inr (enters_spec plan ref [])
  judge-handles plan ref src (some dst) = elim (compare_tips-decides plan ref src dst) [
    | inl same ↦ inl (ap some ((==_iff dst src).0 same))
    | inr decided ↦ inr decided
  ]

  plan_ref-handles :
      (force : Bool) (lease : Text) (plan : PushPlan) (ref src : Text)
      → (lookup ref remote ≡ some src)
        ⊎ Decided (plan_ref g dir w remote force lease plan ref (some src)) ref
  unfolding plan_ref
  plan_ref-handles true lease plan ref src = inr (enters_spec plan ref lease)
  plan_ref-handles false lease plan ref src = judge-handles plan ref src (lookup ref remote)

  plan_loop-Handled :
      (force : Bool) (lease : Text) (refs : List Text) (plan : PushPlan)
      → All (Handled (plan_loop g dir w local remote force lease plan refs)) refs
  unfolding plan_loop
  plan_loop-Handled force lease [] plan = tt
  plan_loop-Handled force lease (ref ∷ refs) plan = (
    λ src here. elim (plan_ref-handles force lease plan ref src) [
      | inl same ↦ inl same
      | inr decided ↦ inr (plan_loop-keeps force lease ref refs _ (rw here decided))
    ],
    plan_loop-Handled force lease refs
        (plan_ref g dir w remote force lease plan ref (lookup ref local)),
  )

module _ {W : Type 0} (g : Git W) (dir : Text) (rem : Remote) where
  -- With the tips of both sides read, a push, forced or not, is planned so that every ref that was
  -- asked for and has a tip here is either at that tip at the destination already, or written, or
  -- withheld: none is dropped.
  pub plan_push-Handled :
      (ref : Text) (refs : List Text) (force : Bool) (lease : Text) (w w' : W)
      (local remote : Map Text)
      → TipsRead g dir rem w local remote w'
      → (plan : PushPlan) × (plan_push g dir rem (ref ∷ refs) force lease w ≡ (value plan, w'))
        × All (Handled g dir w' local remote plan) (ref ∷ refs)
  plan_push-Handled ref refs force lease w w' local remote read = (
    _,
    plan_push-planned g dir rem ref refs force lease w w' local remote read,
    plan_loop-Handled g dir w' local remote force lease (ref ∷ refs) empty_plan,
  )
