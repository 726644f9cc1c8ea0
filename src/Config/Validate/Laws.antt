-- ===== src/Config/Validate/Laws.antt =====
-- internal/config/config.go: the checks of `validate` on one repository.
pub mod Started
use git_bridge.Base.{
  Text, ℕ, suc, ℤ, pos, int_lt, List, [], ◌∷◌, Option, none, some, Bool, true, false, ◌&&◌, ◌||◌,
  not, if◌then◌else◌, lit, ◌==◌, ==_iff, ◌≡◌, refl, ◌≢◌, ◌⊎◌, inl, inr, ap, sym, ◌∙◌, All, Map,
  lookup, member, insert, lookup-insert, is_none, to_lower, Bool-cases, Option-cases, arith,
  some_or_none,
}
use git_bridge.Config.{
  Config, RepoConfig, ProviderConfig, RefOverride, ConsumerConfig, path_match,
  direction_source_to_target, direction_target_to_source, direction_bidirectional,
}
use git_bridge.Config.Validate.Faults.{first_fault, first_fault-none}
use git_bridge.Config.Validate.Repo.{
  name_faults, claim_sides, claim, endpoint_key, direction_faults, override_faults, unless,
  check_overrides, check_rest, with_claims, check_repos,
}
use git_bridge.Errors.{Error, Result, value, failed}

-- An override that pins its pattern to a direction of the repository that the repository allows.
abbrev pub OverrideOk : RepoConfig → RefOverride → Type 0
OverrideOk r ov =
    ((path_match ov.pattern (lit "x")) ≢ none)
    × (((ov.from ≡ r.source)
          × (ov.to ≡ r.target)
          × (to_lower r.direction ≢ direction_target_to_source))
        ⊎ ((ov.from ≡ r.target)
            × (ov.to ≡ r.source)
            × (to_lower r.direction ≢ direction_source_to_target)))

-- A repository that can be mirrored: two different providers that exist, a direction, a retry
-- direction that is empty or that the direction allows, and overrides that it allows.
abbrev pub RepoOk : Map ProviderConfig → RepoConfig → Type 0
RepoOk providers r =
    (r.name ≢ [])
    × (lookup r.source providers ≢ none)
    × (lookup r.target providers ≢ none)
    × (r.source ≢ r.target)
    × ((to_lower r.direction ≡ direction_source_to_target)
        ⊎ (to_lower r.direction ≡ direction_target_to_source)
        ⊎ (to_lower r.direction ≡ direction_bidirectional))
    × ((r.retry_direction ≡ [])
        ⊎ (((to_lower r.retry_direction ≡ direction_source_to_target)
              ⊎ (to_lower r.retry_direction ≡ direction_target_to_source))
            × ((to_lower r.direction ≡ direction_bidirectional)
                ⊎ (to_lower r.retry_direction ≡ to_lower r.direction))))
    × All (OverrideOk r) r.ref_overrides

pub unless-none : (a b : Option Error) → unless a b ≡ none → (a ≡ none) × (b ≡ none)
unless-none none b h = (refl, h)
unless-none (some e) b h = absurd (some_or_none e h)

is_none-false {ℓ} : {A : Type ℓ} (o : Option A) → is_none o ≡ false → o ≢ none
is_none-false none h e = cc
is_none-false (some a) h e = cc

-- The two sides of an override, from the last three of its tests.
override_sides :
    (from to source target dir : Text)
    → source ≢ target
    → (not (from == source && to == target) && not (from == target && to == source)) ≡ false
    → (dir == direction_source_to_target && not (from == source && to == target)) ≡ false
    → (dir == direction_target_to_source && not (from == target && to == source)) ≡ false
    → ((from ≡ source) × (to ≡ target) × (dir ≢ direction_target_to_source))
      ⊎ ((from ≡ target) × (to ≡ source) × (dir ≢ direction_source_to_target))
override_sides from to source target dir apart one forth back = ground (
  arith,
  ==_iff from source,
  ==_iff to target,
  ==_iff from target,
  ==_iff to source,
  ==_iff dir direction_source_to_target,
  ==_iff dir direction_target_to_source,
)

-- The eight tests on an override.
override_ok :
    (i : ℕ) (r : RepoConfig) (seen : List Text) (j : ℕ) (ov : RefOverride)
    → r.source ≢ r.target
    → first_fault (override_faults i r seen j ov) ≡ none
    → OverrideOk r ov
unfolding override_faults
override_ok i r seen j ov apart h =
    let f = first_fault-none (override_faults i r seen j ov) h in
    (
      is_none-false (path_match ov.pattern (lit "x")) f.1.1.0,
      override_sides ov.from ov.to r.source r.target (to_lower r.direction) apart f.1.1.1.1.1.0
          f.1.1.1.1.1.1.0 f.1.1.1.1.1.1.1.0,
    )

overrides_ok :
    (i : ℕ) (r : RepoConfig)
    → r.source ≢ r.target
    → (seen : List Text) (j : ℕ) (ovs : List RefOverride) → check_overrides i r seen j ovs ≡ none
    → All (OverrideOk r) ovs
unfolding check_overrides
overrides_ok i r apart seen j [] h = tt
overrides_ok i r apart seen j (ov ∷ ovs) h =
    let (here, later) = unless-none (first_fault (override_faults i r seen j ov)) _ h in
    (
      override_ok i r seen j ov apart here,
      overrides_ok i r apart (ov.pattern ∷ seen) (suc j) ovs later,
    )

-- The directions of a repository, from their three tests.
directions_ok :
    (dir retry rd : Text)
    → (not (dir == direction_source_to_target)
        && (not (dir == direction_target_to_source) && not (dir == direction_bidirectional)))
      ≡ false
    → (not (retry == [])
        && (not (rd == direction_source_to_target) && not (rd == direction_target_to_source)))
      ≡ false
    → (not (retry == []) && (not (dir == direction_bidirectional) && not (rd == dir))) ≡ false
    → ((dir ≡ direction_source_to_target)
        ⊎ (dir ≡ direction_target_to_source)
        ⊎ (dir ≡ direction_bidirectional))
      × ((retry ≡ [])
          ⊎ (((rd ≡ direction_source_to_target) ⊎ (rd ≡ direction_target_to_source))
              × ((dir ≡ direction_bidirectional) ⊎ (rd ≡ dir))))
directions_ok dir retry rd one two three = (
  ground (
    arith,
    ==_iff dir direction_source_to_target,
    ==_iff dir direction_target_to_source,
    ==_iff dir direction_bidirectional,
  ),
  ground (
    arith,
    ==_iff retry [],
    ==_iff rd direction_source_to_target,
    ==_iff rd direction_target_to_source,
    ==_iff dir direction_bidirectional,
    ==_iff rd dir,
  ),
)

pub repo_ok :
    (providers : Map ProviderConfig) (names : List Text) (i : ℕ) (r : RepoConfig)
    → first_fault (name_faults providers names i r) ≡ none
    → check_rest i r ≡ none
    → RepoOk providers r
unfolding name_faults check_rest direction_faults
repo_ok providers names i r named rest =
    let n = first_fault-none (name_faults providers names i r) named in
    let (directed, pinned) = unless-none (first_fault (direction_faults i r)) _ rest in
    let d = first_fault-none (direction_faults i r) directed in
    let apart : r.source ≢ r.target =
      λ e. ground (arith, ==_iff r.source r.target, n.1.1.1.1.1.0, e) in
    let dirs =
      directions_ok (to_lower r.direction) r.retry_direction (to_lower r.retry_direction) d.0 d.1.0
        d.1.1.0 in
    (
      λ e. ground (arith, ==_iff r.name [], n.0, e),
      is_none-false (lookup r.source providers) n.1.1.1.0,
      is_none-false (lookup r.target providers) n.1.1.1.1.0,
      apart,
      dirs.0,
      dirs.1,
      overrides_ok i r apart [] 0 r.ref_overrides pinned,
    )
