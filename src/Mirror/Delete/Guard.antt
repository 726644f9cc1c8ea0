-- ===== src/Mirror/Delete/Guard.antt =====
-- internal/mirror/mirror.go: what `doDeleteRef` may do to the world.
use git_bridge.Base.{Text, ℕ, [], Option, none, some, false, lookup, ◌≡◌, ◌==◌}
use git_bridge.Config.{RepoConfig}
use git_bridge.Errors.{Error, Result, value, failed}
use git_bridge.History.{Event}
use git_bridge.Provider.{Provider, Remote}
use git_bridge.Mirror.Git.{Git}
use git_bridge.Mirror.Flow.{Service, State, run}
use git_bridge.Mirror.Preserves.{
  Upkeep, Preserves, preserves_rules, Preserves-bind, Preserves-ask, Preserves-finally,
  Preserves-leave, Preserves-require_provider, Leads, Leads-kept, Leads-if, Leads-call,
  returned_world,
}
use git_bridge.Mirror.Sync.{Leg}
use git_bridge.Mirror.Delete.{deleted, tip_outcome, check_tip, delete_act, do_delete_ref}

module _ {W : Type 0} (g : Git W) (Inv : W → Type 0) where
  -- The property holds on after a delete of a ref for which the destination has just shown a tip.
  abbrev pub SeenDeletes : Remote → Text → Text → Type 0
  SeenDeletes rem ref_type ref_name =
      (dir tip : Text) (w w' : W)
      → g.ref_tip rem ref_type ref_name w ≡ (value tip, w')
      → (tip == []) ≡ false
      → Inv w'
      → Inv (g.delete_ref dir rem ref_type ref_name w').1

module _ {W : Type 0} {Inv : W → Type 0} (s : Service W) (cfg : RepoConfig) (leg : Leg)
    (ref_type ref_name : Text) (keep : Upkeep s.git Inv) where
  deleted-Preserves :
      (since : ℕ) (hist : Event) (tgt : Provider) (tip : Text) (e : Option Error)
      → Preserves Inv (deleted s cfg leg ref_type ref_name since hist tgt tip e)
  unfolding deleted
  deleted-Preserves since hist tgt tip none = search preserves_rules
  deleted-Preserves since hist tgt tip (some e) = search preserves_rules

  -- The world is as the look at the destination's tip has left it.
  abbrev Looked : Provider → Result Text → W → Type 0
  Looked tgt tip w' =
      (w : W) × (s.git.ref_tip (tgt.remote leg.to_path) ref_type ref_name w ≡ (tip, w')) × Inv w

  looked_keeps : (tgt : Provider) (tip : Result Text) (w : W) → Looked tgt tip w → Inv w
  looked_keeps tgt tip w' (w, seen, h) =
      returned_world Inv _ tip w' seen (keep.ref_tip (tgt.remote leg.to_path) ref_type ref_name w h)

  tip_outcome-Leads :
      (since : ℕ) (hist : Event) (tgt : Provider)
      (deletes : SeenDeletes s.git Inv (tgt.remote leg.to_path) ref_type ref_name) (dir : Text)
      (tip : Result Text)
      → Leads (Looked tgt tip) Inv (tip_outcome s cfg leg ref_type ref_name since hist tgt dir tip)
  unfolding tip_outcome
  tip_outcome-Leads since hist tgt deletes dir (failed e) =
      Leads-kept _ (looked_keeps tgt (failed e)) (search preserves_rules)
  tip_outcome-Leads since hist tgt deletes dir (value tip) =
      Leads-if (tip == []) _ _
        (λ absent. Leads-kept _ (looked_keeps tgt (value tip)) (Preserves-leave s since hist _ _ _))
        λ there. Leads-call _ _ λ gone.
          Leads-kept _
            (λ w'' (w', after, looked).
              returned_world Inv _ gone w'' after (
                deletes dir tip looked.0 w' looked.1 there
                  (looked_keeps tgt (value tip) w' looked)))
            (deleted-Preserves since hist tgt tip gone)

  check_tip-Preserves :
      (since : ℕ) (hist : Event) (tgt : Provider)
      (deletes : SeenDeletes s.git Inv (tgt.remote leg.to_path) ref_type ref_name) (dir : Text)
      → Preserves Inv (check_tip s cfg leg ref_type ref_name since hist tgt dir)
  unfolding check_tip
  check_tip-Preserves since hist tgt deletes dir =
      let leads : Leads Inv Inv (check_tip s cfg leg ref_type ref_name since hist tgt dir) =
        Leads-call _ _ (tip_outcome-Leads since hist tgt deletes dir) in
      record { at = leads.at }

module _ {W : Type 0} {Inv : W → Type 0} (s : Service W) (cfg : RepoConfig) (leg : Leg)
    (ref_type ref_name : Text) (keep : Upkeep s.git Inv)
    (deletes : (tgt : Provider)
      → lookup leg.to s.providers ≡ some tgt
      → SeenDeletes s.git Inv (tgt.remote leg.to_path) ref_type ref_name) where
  delete_act-Preserves :
      (source : Text) → Preserves Inv (delete_act s cfg leg ref_type ref_name source)
  unfolding delete_act
  delete_act-Preserves source = Preserves-bind _ _ (Preserves-ask _) λ since.
      Preserves-require_provider s since _ leg.to _ λ tgt found.
        Preserves-require_provider s since _ leg.from _ λ src there.
          Preserves-finally _ _ (keep.remove_all _)
            (check_tip-Preserves s cfg leg ref_type ref_name keep since _ tgt (deletes tgt found) _)

  -- Any property of the world that git's reads and the upkeep of the mirror directory respect, and
  -- that a delete respects when the destination has just shown a tip for that very ref, holds on
  -- after `doDeleteRef`. So a ref is deleted on the destination side only, only the one that was asked
  -- for, and only when it was seen there.
  pub do_delete_ref-guarded :
      (source : Text) (st : State W)
      → Inv st.world
      → Inv (do_delete_ref s cfg leg ref_type ref_name source st).1.world
  unfolding do_delete_ref run
  do_delete_ref-guarded source st h = (delete_act-Preserves source).at st h
