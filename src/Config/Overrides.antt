-- ===== src/Config/Overrides.antt =====
-- internal/config/config.go: `MatchRefOverride` on patterns without special characters.
use git_bridge.Base.{Text, List, [], ◌∷◌, Option, none, some, if◌then◌else◌, ◌==◌, ◌≡◌, refl, All}
use git_bridge.Config.{RefOverride, RepoConfig, match_ref_override, first_match}
use git_bridge.Config.Glob.Literal.{IsPlain, path_match_plain}

-- The first override with this very pattern.
abbrev pub find_pattern : Text → List RefOverride → Option RefOverride
find_pattern ref [] = none
find_pattern ref (ov ∷ ovs) =
    let rest = find_pattern ref ovs in if ref == ov.pattern then some ov else rest

first_match-plain :
    (ref : Text) (ovs : List RefOverride)
    → All (λ ov. IsPlain ov.pattern) ovs
    → first_match ref ovs ≡ find_pattern ref ovs
unfolding first_match
first_match-plain ref [] h = refl
first_match-plain ref (ov ∷ ovs) (plain, plains) =
    rw (path_match_plain ov.pattern ref plain, first_match-plain ref ovs plains) refl

-- Where no pattern has a special character, a ref is pinned by the first override whose pattern is the
-- ref's short name, and by no other.
match_ref_override-plain :
    (r : RepoConfig) (ref : Text)
    → All (λ ov. IsPlain ov.pattern) r.ref_overrides
    → match_ref_override r ref ≡ find_pattern ref r.ref_overrides
unfolding match_ref_override
match_ref_override-plain r ref h = first_match-plain ref r.ref_overrides h
