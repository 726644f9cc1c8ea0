-- ===== src/Mirror/Restore/Guard.antt =====
-- internal/mirror/mirror.go: what `doRestoreRef` may do to the world.
use git_bridge.Base.{
  not-false, Text, ℕ, [], Option, none, some, true, lookup, ◌≡◌, ◌∙◌, ◌==◌, not, ◌⊎◌, inl, inr,
  ==_iff,
}
use git_bridge.Config.{RepoConfig}
use git_bridge.Errors.{Error, Result, value, failed}
use git_bridge.History.{Event, Reason}
use git_bridge.Provider.{Provider, Remote}
use git_bridge.Mirror.{full_ref_name}
use git_bridge.Mirror.Git.{Git}
use git_bridge.Mirror.Flow.{Service, State, run, call, ◌>>=◌}
use git_bridge.Mirror.Preserves.{
  Upkeep, Preserves, preserves_rules, Preserves-bind, Preserves-ask, Preserves-if, Preserves-leave,
  Preserves-is_busy, Preserves-require_provider, Leads, Leads-kept, Leads-if, Leads-call, Leads-ask,
  Leads-from, Preserves-call, returned_world,
}
use git_bridge.Mirror.Steps.Keep.{mirror_dir_for-Preserves}
use git_bridge.Mirror.Sync.{Leg}
use git_bridge.Mirror.Restore.{
  refuse, created, create, fetched, cached, fill, tip_outcome, locked, restore_act, do_restore_ref,
}

module _ {W : Type 0} (g : Git W) where
  -- The commit is in the mirror directory, or was just fetched into it.
  abbrev pub AtHand : Text → Remote → Text → W → Type 0
  AtHand dir source sha w =
      (g.has_object dir sha w ≡ true) ⊎ ((w₀ : W) × (g.fetch_object dir source sha w₀ ≡ (none, w)))

module _ {W : Type 0} (g : Git W) (Inv : W → Type 0) where
  -- The property holds on after the creation of a ref that the destination has shown to be missing,
  -- at a commit that is at hand.
  abbrev pub FilledHoles : Remote → Remote → Text → Text → Text → Type 0
  FilledHoles source rem ref_type ref_name sha =
      (dir : Text) (w₀ w₁ w : W)
      → g.ref_tip rem ref_type ref_name w₀ ≡ (value [], w₁)
      → AtHand g dir source sha w
      → Inv w
      → Inv (g.create_ref dir rem sha (full_ref_name ref_type ref_name) w).1

module _ {W : Type 0} {Inv : W → Type 0} (s : Service W) (cfg : RepoConfig) (leg : Leg)
    (ref_type ref_name sha actor : Text) (keep : Upkeep s.git Inv) (since : ℕ) (hist : Event)
    (src tgt : Provider)
    (fills : FilledHoles s.git Inv
      (src.remote leg.from_path)
      (tgt.remote leg.to_path)
      ref_type
      ref_name
      sha) where
  refuse-Preserves :
      (hist' : Event) (why : Reason) (e : Error)
      → Preserves Inv (refuse s cfg leg ref_type ref_name sha actor since hist' why e)
  unfolding refuse
  refuse-Preserves hist' why e = search preserves_rules

  created-Preserves :
      (e : Option Error)
      → Preserves Inv (created s cfg leg ref_type ref_name sha actor since hist tgt e)
  unfolding created
  created-Preserves none = search preserves_rules
  created-Preserves (some e) = search preserves_rules

  -- The hole was seen, and the commit is at hand.
  abbrev Seen : Type 0
  Seen =
      (w₀ : W) × (w₁ : W) × (s.git.ref_tip (tgt.remote leg.to_path) ref_type ref_name w₀
        ≡ (value [], w₁))

  create-Leads :
      (dir : Text)
      → Seen
      → Leads
          (λ w. AtHand s.git dir (src.remote leg.from_path) sha w × Inv w)
          Inv
          (create s cfg leg ref_type ref_name sha actor since hist tgt dir)
  unfolding create
  create-Leads dir (w₀, w₁, hole) = Leads-call _ _ λ made.
      Leads-kept _
        (λ w' (w, after, (at_hand, h)).
          returned_world Inv _ made w' after (fills dir w₀ w₁ w hole at_hand h))
        (created-Preserves made)

  fetched-Leads :
      (dir : Text) (e : Option Error)
      → Seen
      → Leads
          (λ w.
            (w₀ : W) × (s.git.fetch_object dir (src.remote leg.from_path) sha w₀ ≡ (e, w)) × Inv w₀)
          Inv
          (fetched s cfg leg ref_type ref_name sha actor since hist tgt dir e)
  unfolding fetched
  fetched-Leads dir (some e) seen =
      Leads-kept _
        (λ w (w₀, after, h).
          returned_world Inv _ (some e) w after (keep.fetch_object dir _ sha w₀ h))
        (refuse-Preserves hist Reason.object_gone _)
  fetched-Leads dir none seen =
      Leads-from _
        (λ w (w₀, after, h).
          (inr (w₀, after), returned_world Inv _ none w after (keep.fetch_object dir _ sha w₀ h)))
        (create-Leads dir seen)

  cached-Preserves :
      (dir : Text) (e : Option Error)
      → Seen
      → Preserves Inv (cached s cfg leg ref_type ref_name sha actor since hist src tgt dir e)
  unfolding cached
  cached-Preserves dir (some e) seen = refuse-Preserves hist Reason.clone e
  cached-Preserves dir none seen =
      let leads : Leads Inv Inv
          (cached s cfg leg ref_type ref_name sha actor since hist src tgt dir none) =
        Leads-ask _ _ λ there.
          Leads-if there _ _
            (λ yes. Leads-from _ (λ w (known, h). (inl (known ∙ yes), h)) (create-Leads dir seen))
            λ no. Leads-call _ _ λ e.
              Leads-from _ (λ w (w₀, after, (known, h)). (w₀, after, h))
                (fetched-Leads dir e seen) in
      record { at = leads.at }

  fill-Preserves :
      Seen → Preserves Inv (fill s cfg leg ref_type ref_name sha actor since hist src tgt)
  unfolding fill
  fill-Preserves seen =
      Preserves-bind _ _ (mirror_dir_for-Preserves s keep cfg.name leg.from) λ dir.
        Preserves-bind _ _ (Preserves-call _ (keep.ensure_bare_dir dir))
          λ e. cached-Preserves dir e seen

  -- The world is as the look at the destination's tip has left it.
  abbrev Looked : Result Text → W → Type 0
  Looked tip w' =
      (w : W) × (s.git.ref_tip (tgt.remote leg.to_path) ref_type ref_name w ≡ (tip, w')) × Inv w

  looked_keeps : (tip : Result Text) (w : W) → Looked tip w → Inv w
  looked_keeps tip w' (w, seen, h) =
      returned_world Inv _ tip w' seen (keep.ref_tip (tgt.remote leg.to_path) ref_type ref_name w h)

  hole_seen : (tip : Text) (w : W) → (tip == []) ≡ true → Looked (value tip) w → Seen
  hole_seen tip w' absent (w, seen, h) = (w, w', rw (← (==_iff tip []).0 absent) seen)

  tip_outcome-Leads :
      (tip : Result Text)
      → Leads
          (Looked tip)
          Inv
          (tip_outcome s cfg leg ref_type ref_name sha actor since hist src tgt tip)
  unfolding tip_outcome
  tip_outcome-Leads (failed e) = Leads-kept _ (looked_keeps (failed e)) (search preserves_rules)
  tip_outcome-Leads (value tip) =
      Leads-if (tip == sha) _ _
        (λ same. Leads-kept _ (looked_keeps (value tip)) (Preserves-leave s since hist _ _ none))
        λ other.
          Leads-if (not (tip == [])) _ _
            (λ taken. Leads-kept _ (looked_keeps (value tip)) (refuse-Preserves hist _ _))
            λ hole. record {
              at = λ st looked.
                  (fill-Preserves (hole_seen tip st.world (not-false (tip == []) hole) looked)).at
                    st (looked_keeps (value tip) st.world looked);
            }

module _ {W : Type 0} {Inv : W → Type 0} (s : Service W) (cfg : RepoConfig) (leg : Leg)
    (ref_type ref_name sha actor : Text) (keep : Upkeep s.git Inv)
    (fills : (src tgt : Provider)
      → lookup leg.from s.providers ≡ some src
      → lookup leg.to s.providers ≡ some tgt
      → FilledHoles s.git Inv
          (src.remote leg.from_path)
          (tgt.remote leg.to_path)
          ref_type
          ref_name
          sha) where
  locked-Preserves :
      (since : ℕ) (hist : Event)
      → Preserves Inv (locked s cfg leg ref_type ref_name sha actor since hist)
  unfolding locked
  locked-Preserves since hist = Preserves-require_provider s since hist leg.from _ λ src there.
      Preserves-require_provider s since hist leg.to _ λ tgt found.
        let leads : Leads Inv Inv (
            call (s.git.ref_tip (tgt.remote leg.to_path) ref_type ref_name)
            >>= tip_outcome s cfg leg ref_type ref_name sha actor since hist src tgt) =
          Leads-call _ _ (
            tip_outcome-Leads s cfg leg ref_type ref_name sha actor keep since hist src tgt
              (fills src tgt there found)) in
        record { at = leads.at }

  -- Any property of the world that git's reads and the upkeep of the mirror directory respect, and
  -- that the creation of this ref at this commit respects when the destination has shown the ref to be
  -- missing and the commit is at hand, holds on after `doRestoreRef`. So a restore writes nothing but
  -- the ref it was asked for, only into a hole that it saw, and only a commit that it has.
  pub do_restore_ref-guarded :
      (st : State W)
      → Inv st.world
      → Inv (do_restore_ref s cfg leg ref_type ref_name sha actor st).1.world
  unfolding do_restore_ref restore_act run
  do_restore_ref-guarded st h =
      let act : Preserves Inv (restore_act s cfg leg ref_type ref_name sha actor) =
        Preserves-bind _ _ (Preserves-ask _) λ since.
          Preserves-bind _ _ (Preserves-is_busy _) λ held.
            Preserves-if held _ _ (Preserves-leave s since _ _ _ _) (locked-Preserves since _) in
      act.at st h
