-- ===== src/Mirror/Refs.antt =====
-- internal/mirror/mirror.go: which refs an event pushes, and the two direction vocabularies.
pub mod Directions
pub mod Meant
use git_bridge.Base.{
  Text, List, [], ◌∷◌, Option, none, some, Bool, true, false, not, ◌&&◌, ◌||◌, if◌then◌else◌, ◌==◌,
  to_lower, lit, concat, trim_prefix, any, is_none,
}
use git_bridge.Config.{
  RepoConfig, RefOverride, match_ref_override, direction_source_to_target,
  direction_target_to_source, direction_bidirectional,
}
use git_bridge.Errors.{Result, value, failed, wrap}
use git_bridge.Mirror.{EventMeta, short_name, refs_heads_prefix}
use git_bridge.Mirror.Git.{Git}

-- `allowsSourceToTarget`
unfoldable pub allows_source_to_target : Text → Bool
allows_source_to_target direction =
    let dir = to_lower direction in
    dir == direction_source_to_target || dir == direction_bidirectional

-- `allowsTargetToSource`
unfoldable pub allows_target_to_source : Text → Bool
allows_target_to_source direction =
    let dir = to_lower direction in
    dir == direction_target_to_source || dir == direction_bidirectional

-- `resolveAutoDirection`
unfoldable pub resolve_auto_direction : Text → Text
resolve_auto_direction cfg_dir =
    let dir = to_lower cfg_dir in
    if dir == direction_bidirectional
    then direction_target_to_source
    else if dir == direction_source_to_target
    then direction_source_to_target
    else if dir == direction_target_to_source
    then direction_target_to_source
    else direction_target_to_source

-- `directionAllowed`
unfoldable pub direction_allowed : Text → Text → Bool
direction_allowed cfg_dir retry_dir =
    let cfg = to_lower cfg_dir in
    if cfg == direction_bidirectional then true else cfg == to_lower retry_dir

-- `retryDirectionFor`
unfoldable pub retry_direction_for : RepoConfig → Text → Text → Text
retry_direction_for cfg from to =
    if from == cfg.source && to == cfg.target
    then direction_source_to_target
    else if from == cfg.target && to == cfg.source
    then direction_target_to_source
    else []

-- `reverseCarries`
unfoldable pub reverse_carries : RepoConfig → Text → Bool
reverse_carries cfg ref =
    to_lower cfg.direction == direction_bidirectional
    && is_none (match_ref_override cfg (trim_prefix ref refs_heads_prefix))

abbrev pub override_forbids : Option RefOverride → Text → Text → Bool
override_forbids none from to = false
override_forbids (some ov) from to = not (ov.from == from) || not (ov.to == to)

-- `refOverrideBlocksDelete`, and the same test of `doMirror` and `buildFullRefspecs`: is the short
-- name `name` pinned to another direction than from → to?
unfoldable pub ref_override_blocks : RepoConfig → Text → Text → Text → Bool
ref_override_blocks cfg name from to = override_forbids (match_ref_override cfg name) from to

-- `buildFullRefspecs`
unfoldable pub build_full_refspecs : List Text → RepoConfig → Text → Text → List Text
build_full_refspecs [] cfg from to = []
build_full_refspecs (ref ∷ refs) cfg from to =
    let rest = build_full_refspecs refs cfg from to in
    if ref_override_blocks cfg (short_name ref) from to then rest else ref ∷ rest

contains_ref : Text → List Text → Bool
contains_ref ref refs = any (λ r. r == ref) refs

-- The rest of `resolveRefs`, once the local refs are listed.
choose_refs : List Text → RepoConfig → Text → Text → EventMeta → List Text
choose_refs refs cfg from to meta =
    if not (meta.ref == [])
    then (if contains_ref meta.ref refs then meta.ref ∷ [] else [])
    else build_full_refspecs refs cfg from to

chosen : Result (List Text) → RepoConfig → Text → Text → EventMeta → Result (List Text)
chosen (failed e) cfg from to meta = failed (wrap (lit "list refs: ") e [])
chosen (value refs) cfg from to meta = value (choose_refs refs cfg from to meta)

-- `resolveRefs`
unfoldable pub resolve_refs :
    {W : Type 0} → Git W → RepoConfig → Text → Text → Text → EventMeta → W → Result (List Text)
unfolding chosen choose_refs contains_ref build_full_refspecs
resolve_refs g cfg dir from to meta w = chosen (g.list_refs dir w) cfg from to meta
