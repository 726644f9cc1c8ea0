-- ===== src/Mirror/Entry/Auto.antt =====
-- internal/mirror/mirror.go: requests for a retry that name no direction.
use git_bridge.Base.{
  Text, [], true, ◌||◌, lit, ◌==◌, ==_iff, ◌≡◌, refl, ◌⊎◌, inl, inr, Bool-cases, to_lower,
  trim_space, Map,
}
use git_bridge.Config.{
  RepoConfig, ProviderConfig, direction_source_to_target, direction_target_to_source,
  direction_bidirectional,
}
use git_bridge.Config.Validate.Laws.{RepoOk}
use git_bridge.Mirror.Refs.{direction_allowed}
use git_bridge.Mirror.Refs.Directions.{resolve_auto_direction-allowed}
use git_bridge.Mirror.Sync.{forth, back}
use git_bridge.Mirror.Entry.{resolve_direction, retry}

-- One of the two directions that a run can take, and the repository allows it.
abbrev pub Runnable : RepoConfig → Text → Type 0
Runnable cfg dir =
    ((dir ≡ direction_source_to_target) ⊎ (dir ≡ direction_target_to_source))
    × (direction_allowed cfg.direction dir ≡ true)

abbrev pub Auto : Text → Type 0
Auto direction =
    (to_lower (trim_space direction) == [] || to_lower (trim_space direction) == lit "auto") ≡ true

retry_direction-Runnable :
    (direction retry : Text)
    → (((to_lower retry ≡ direction_source_to_target)
          ⊎ (to_lower retry ≡ direction_target_to_source))
        × ((to_lower direction ≡ direction_bidirectional) ⊎ (to_lower retry ≡ to_lower direction)))
    → ((to_lower retry ≡ direction_source_to_target)
        ⊎ (to_lower retry ≡ direction_target_to_source))
      × (direction_allowed direction (to_lower retry) ≡ true)
unfolding direction_allowed to_lower ◌==◌
retry_direction-Runnable direction retry (inl forth, inl both) = (inl forth, rw (forth, both) refl)
retry_direction-Runnable direction retry (inr back, inl both) = (inr back, rw (back, both) refl)
retry_direction-Runnable direction retry (inl forth, inr same) =
    (inl forth, rw (← same, forth) refl)
retry_direction-Runnable direction retry (inr back, inr same) = (inr back, rw (← same, back) refl)

-- On a repository that the configuration's checks accept, a request with no direction or with "auto",
-- in any case and with space around it, resolves to a direction that a run can take and that the
-- repository allows.
pub resolve_direction-Runnable :
    (providers : Map ProviderConfig) (cfg : RepoConfig) (direction : Text)
    → RepoOk providers cfg
    → Auto direction
    → Runnable cfg (resolve_direction cfg direction)
unfolding resolve_direction
resolve_direction-Runnable providers cfg direction (named, src, tgt, apart, known, chosen, pinned)
      auto =
    rw auto (elim chosen [
      | inl empty ↦
          (let none_set : (cfg.retry_direction == []) ≡ true =
              (==_iff cfg.retry_direction []).1 empty in
            rw none_set (resolve_auto_direction-allowed cfg.direction known))
      | inr set ↦ elim (Bool-cases (cfg.retry_direction == [])) [
        | inl none_set ↦ rw none_set (resolve_auto_direction-allowed cfg.direction known)
        | inr there ↦ rw there (retry_direction-Runnable cfg.direction cfg.retry_direction set)
      ]
    ])
