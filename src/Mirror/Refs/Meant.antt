-- ===== src/Mirror/Refs/Meant.antt =====
-- internal/mirror/mirror.go: the refs that `resolveRefs` chooses.
use git_bridge.Base.{
  Text, List, [], ◌∷◌, Bool, true, false, not, ◌&&◌, if◌then◌else◌, ◌==◌, ==_iff, ◌≡◌, refl, ◌⊎◌,
  inl, inr, All, Bool-cases, arith,
}
use git_bridge.Config.{RepoConfig}
use git_bridge.Errors.{Result, value, failed, Holds}
use git_bridge.Mirror.{EventMeta, short_name, ref_name}
use git_bridge.Mirror.Git.{Git}
use git_bridge.Mirror.Refs.{
  ref_override_blocks, build_full_refspecs, contains_ref, choose_refs, chosen, resolve_refs,
}

module _ (cfg : RepoConfig) (from to : Text) (meta : EventMeta) where
  -- A ref that may be pushed for this event in this direction.
  abbrev pub Meant : Text → Type 0
  Meant ref =
      (ref_override_blocks cfg (short_name ref) from to ≡ false)
      × ((meta.ref ≡ []) ⊎ (ref ≡ meta.ref))

  full-Meant : (refs : List Text) → meta.ref ≡ [] → All Meant (build_full_refspecs refs cfg from to)
  unfolding build_full_refspecs
  full-Meant [] whole = tt
  full-Meant (ref ∷ refs) whole =
      elim (Bool-cases (ref_override_blocks cfg (short_name ref) from to)) [
        | inl pinned ↦ rw pinned (full-Meant refs whole)
        | inr free ↦ rw free ((free, inl whole), full-Meant refs whole)
      ]

  own-Meant :
      (b : Bool)
      → ref_override_blocks cfg (ref_name meta) from to ≡ false
      → All Meant (if b then meta.ref ∷ [] else [])
  own-Meant true free = ((free, inr refl), tt)
  own-Meant false free = tt

  -- The test of `doMirror` on the event's own ref.
  abbrev pub Unpinned : Type 0
  Unpinned = (not (meta.ref == []) && ref_override_blocks cfg (ref_name meta) from to) ≡ false

  choose_refs-Meant : (refs : List Text) → Unpinned → All Meant (choose_refs refs cfg from to meta)
  unfolding choose_refs
  choose_refs-Meant refs unpinned = elim (Bool-cases (meta.ref == [])) [
    | inl whole ↦ rw whole (full-Meant refs ((==_iff meta.ref []).0 whole))
    | inr named ↦
        rw named (own-Meant (contains_ref meta.ref refs) (ground (arith, named, unpinned)))
  ]

  chosen-Meant :
      (refs : Result (List Text)) → Unpinned → Holds (All Meant) (chosen refs cfg from to meta)
  unfolding chosen
  chosen-Meant (failed e) unpinned = tt
  chosen-Meant (value refs) unpinned = choose_refs-Meant refs unpinned

  -- Whatever refs are listed, those that are pushed for an event that passed its own test are meant.
  pub resolve_refs-Meant :
      {W : Type 0} (g : Git W) (dir : Text) (w : W)
      → Unpinned
      → Holds (All Meant) (resolve_refs g cfg dir from to meta w)
  unfolding resolve_refs
  resolve_refs-Meant g dir w unpinned = chosen-Meant (g.list_refs dir w) unpinned
