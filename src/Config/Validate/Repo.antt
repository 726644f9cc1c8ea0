-- ===== src/Config/Validate/Repo.antt =====
-- internal/config/config.go, `validate`: the loop over the repositories.
pub mod Claims
use git_bridge.Base.{
  Text, ℕ, suc, List, [], ◌∷◌, ◌++◌, Option, none, some, Bool, true, false, ◌&&◌, ◌||◌, not,
  if◌then◌else◌, lit, concat, ◌==◌, Map, lookup, insert, member, is_none, show_nat, to_lower,
}
use git_bridge.Config.{
  RepoConfig, ProviderConfig, RefOverride, path_match, direction_source_to_target,
  direction_target_to_source, direction_bidirectional,
}
use git_bridge.Config.Validate.Faults.{first_fault}
use git_bridge.Errors.{Error, Result, value, failed, plain, quote}

-- fmt.Errorf("repo[%d] %s: …", i, r.Name, …)
repo_fault : ℕ → RepoConfig → List Text → Error
repo_fault i r parts =
    plain (concat (lit "repo[" ∷ show_nat i ∷ lit "] " ∷ r.name ∷ lit ": " ∷ parts))

unfoldable pub name_faults : Map ProviderConfig → List Text → ℕ → RepoConfig → List (Bool × Error)
unfolding repo_fault
name_faults providers names i r =
    (r.name == [], plain (concat (lit "repo[" ∷ show_nat i ∷ lit "]: name required" ∷ [])))
    ∷ (
      member r.name names,
      plain (concat (lit "repo[" ∷ show_nat i ∷ lit "]: duplicate repo name " ∷ quote r.name ∷ [])),
    )
    ∷ (r.source == [] || r.target == [], repo_fault i r (lit "source and target required" ∷ []))
    ∷ (
      is_none (lookup r.source providers),
      repo_fault i r (lit "unknown source provider " ∷ quote r.source ∷ []),
    )
    ∷ (
      is_none (lookup r.target providers),
      repo_fault i r (lit "unknown target provider " ∷ quote r.target ∷ []),
    )
    ∷ (
      r.source == r.target,
      repo_fault i r (lit "source and target cannot be the same provider" ∷ []),
    )
    ∷ []

abbrev pub endpoint_key : Text → Text → Text
endpoint_key provider path = provider ++ (b'/' ∷ path)

claimed : ℕ → RepoConfig → Text → Text → Map Text → Option Text → Result (Map Text)
unfolding repo_fault
claimed i r kind key seen (some owner) = failed (
    repo_fault i r (
      kind
      ∷ lit " endpoint "
      ∷ quote key
      ∷ lit " collides with "
      ∷ owner
      ∷ lit " — webhooks dispatch by provider, so only the first would ever run"
      ∷ []))
claimed i r kind key seen none =
    value (insert key (concat (r.name ∷ lit " (" ∷ kind ∷ lit ")" ∷ [])) seen)

-- One round of the loop over the two sides: the endpoint is claimed, or has an owner already.
unfoldable pub claim : ℕ → RepoConfig → Text → Text → Map Text → Result (Map Text)
unfolding claimed
claim i r kind key seen = claimed i r kind key seen (lookup key seen)

unfoldable pub direction_faults : ℕ → RepoConfig → List (Bool × Error)
unfolding repo_fault
direction_faults i r =
    let dir = to_lower r.direction in
    let rd = to_lower r.retry_direction in
    (
      not (dir == direction_source_to_target)
          && (not (dir == direction_target_to_source) && not (dir == direction_bidirectional)),
      repo_fault i r
          (lit "direction must be source-to-target, target-to-source, or bidirectional" ∷ []),
    )
    ∷ (
      not (r.retry_direction == [])
          && (not (rd == direction_source_to_target) && not (rd == direction_target_to_source)),
      repo_fault i r (
          lit "retry_direction must be source-to-target or target-to-source (got "
          ∷ quote r.retry_direction
          ∷ lit ")"
          ∷ []),
    )
    ∷ (
      not (r.retry_direction == []) && (not (dir == direction_bidirectional) && not (rd == dir)),
      repo_fault i r (
          lit "retry_direction "
          ∷ quote r.retry_direction
          ∷ lit " conflicts with one-way direction "
          ∷ quote r.direction
          ∷ []),
    )
    ∷ []

-- fmt.Errorf("repo[%d] %s: ref_overrides[%d]: …", …)
override_fault : ℕ → RepoConfig → ℕ → List Text → Error
unfolding repo_fault
override_fault i r j parts = repo_fault i r (lit "ref_overrides[" ∷ show_nat j ∷ lit "]: " ∷ parts)

-- The override contradicts a one-way repository.
against : ℕ → RepoConfig → ℕ → RefOverride → Error
unfolding override_fault
against i r j ov =
    override_fault i r j (
      lit "direction "
      ∷ quote r.direction
      ∷ lit " does not allow "
      ∷ ov.from
      ∷ lit "→"
      ∷ ov.to
      ∷ [])

unfoldable pub override_faults : ℕ → RepoConfig → List Text → ℕ → RefOverride → List (Bool × Error)
unfolding override_fault against
override_faults i r seen j ov =
    let dir = to_lower r.direction in
    let forward = ov.from == r.source && ov.to == r.target in
    let backward = ov.from == r.target && ov.to == r.source in
    (ov.pattern == [], override_fault i r j (lit "pattern required" ∷ []))
    ∷ (
      member ov.pattern seen,
      override_fault i r j (lit "duplicate pattern " ∷ quote ov.pattern ∷ []),
    )
    ∷ (
      is_none (path_match ov.pattern (lit "x")),
      override_fault i r j
          (lit "invalid pattern " ∷ quote ov.pattern ∷ lit ": syntax error in pattern" ∷ []),
    )
    ∷ (ov.from == [] || ov.to == [], override_fault i r j (lit "from and to required" ∷ []))
    ∷ (ov.from == ov.to, override_fault i r j (lit "from and to cannot be the same provider" ∷ []))
    ∷ (
      not forward && not backward,
      override_fault i r j (
          lit "from/to must be this repo's source("
          ∷ quote r.source
          ∷ lit ") and target("
          ∷ quote r.target
          ∷ lit ")"
          ∷ []),
    )
    ∷ (dir == direction_source_to_target && not forward, against i r j ov)
    ∷ (dir == direction_target_to_source && not backward, against i r j ov)
    ∷ []

-- `some e`, or what comes after
abbrev pub unless : Option Error → Option Error → Option Error
unless (some e) later = some e
unless none later = later

unfoldable pub check_overrides : ℕ → RepoConfig → List Text → ℕ → List RefOverride → Option Error
check_overrides i r seen j [] = none
check_overrides i r seen j (ov ∷ ovs) =
    unless (first_fault (override_faults i r seen j ov))
      (check_overrides i r (ov.pattern ∷ seen) (suc j) ovs)

-- The checks of one repository that come after its endpoints.
unfoldable pub check_rest : ℕ → RepoConfig → Option Error
check_rest i r =
    unless (first_fault (direction_faults i r)) (check_overrides i r [] 0 r.ref_overrides)

-- `Result` of the two claims of a repository
target_claim : ℕ → RepoConfig → Result (Map Text) → Result (Map Text)
target_claim i r (failed e) = failed e
target_claim i r (value seen) = claim i r (lit "target") (endpoint_key r.target r.target_path) seen

unfoldable pub claim_sides : ℕ → RepoConfig → Map Text → Result (Map Text)
unfolding target_claim
claim_sides i r seen =
    target_claim i r (claim i r (lit "source") (endpoint_key r.source r.source_path) seen)

abbrev pub with_claims : Result (Map Text) → (Map Text → Option Error) → Option Error
with_claims (failed e) f = some e
with_claims (value seen) f = f seen

-- The loop over the repositories, with the names and the endpoints that are taken.
unfoldable pub check_repos :
    Map ProviderConfig → ℕ → List Text → Map Text → List RepoConfig → Option Error
check_repos providers i names seen [] = none
check_repos providers i names seen (r ∷ rs) =
    unless (first_fault (name_faults providers names i r)) (
      with_claims (claim_sides i r seen)
        λ taken. unless (check_rest i r) (check_repos providers (suc i) (r.name ∷ names) taken rs))
