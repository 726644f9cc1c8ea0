-- ===== src/Mirror/Refs/Directions.antt =====
-- internal/mirror/mirror.go: the two vocabularies of directions.
use git_bridge.Base.{
  Text, Bool, true, false, ◌||◌, if◌then◌else◌, ◌==◌, ◌≡◌, refl, inl, inr, to_lower, ◌⊎◌,
}
use git_bridge.Config.{
  direction_source_to_target, direction_target_to_source, direction_bidirectional,
}
use git_bridge.Mirror.Refs.{
  allows_source_to_target, allows_target_to_source, direction_allowed, resolve_auto_direction,
}

-- A direction that the configuration accepts.
abbrev pub Known : Text → Type 0
Known direction =
    (to_lower direction ≡ direction_source_to_target)
    ⊎ (to_lower direction ≡ direction_target_to_source)
    ⊎ (to_lower direction ≡ direction_bidirectional)

or_if : (a b : Bool) → (if b then true else a) ≡ (a || b)
or_if true true = refl
or_if true false = refl
or_if false true = refl
or_if false false = refl

-- A direction allows the retry "source-to-target" exactly when it allows the source's pushes.
pub direction_allowed-forth :
    (direction : Text)
    → direction_allowed direction direction_source_to_target ≡ allows_source_to_target direction
unfolding direction_allowed allows_source_to_target to_lower
direction_allowed-forth direction =
    or_if (to_lower direction == direction_source_to_target)
      (to_lower direction == direction_bidirectional)

-- The same for "target-to-source" and the target's pushes.
pub direction_allowed-back :
    (direction : Text)
    → direction_allowed direction direction_target_to_source ≡ allows_target_to_source direction
unfolding direction_allowed allows_target_to_source to_lower
direction_allowed-back direction =
    or_if (to_lower direction == direction_target_to_source)
      (to_lower direction == direction_bidirectional)

-- What "auto" resolves to on a known direction is one of the two one-way directions, and the
-- configured direction allows it.
pub resolve_auto_direction-allowed :
    (direction : Text)
    → Known direction
    → ((resolve_auto_direction direction ≡ direction_source_to_target)
        ⊎ (resolve_auto_direction direction ≡ direction_target_to_source))
      × (direction_allowed direction (resolve_auto_direction direction) ≡ true)
unfolding resolve_auto_direction direction_allowed to_lower ◌==◌
resolve_auto_direction-allowed direction (inl forth) = rw forth (inl refl, refl)
resolve_auto_direction-allowed direction (inr (inl back)) = rw back (inr refl, refl)
resolve_auto_direction-allowed direction (inr (inr both)) = rw both (inr refl, refl)
