-- ===== src/Config/Validate/Repo/Claims.antt =====
-- internal/config/config.go: the endpoints that `validate` collects.
use git_bridge.Base.{
  Text, ℕ, List, [], ◌∷◌, Option, none, some, false, lit, ◌==◌, ==_iff, ◌≡◌, refl, ◌≢◌, inl, inr,
  ap, sym, ◌∙◌, All, Map, member, lookup, insert, lookup-insert, Bool-cases, arith, some_or_none,
}
use git_bridge.Config.{RepoConfig}
use git_bridge.Config.Validate.Repo.{
  claim_sides, claim, claimed, target_claim, endpoint_key, with_claims,
}
use git_bridge.Errors.{Error, Result, value, failed, failed_or_value}

-- No two members are equal.
abbrev pub Distinct : List Text → Type 0
Distinct [] = Unit
Distinct (k ∷ ks) = All (λ j. k ≢ j) ks × Distinct ks

-- None is taken yet.
abbrev pub Free : Map Text → List Text → Type 0
Free taken ks = All (λ k. lookup k taken ≡ none) ks

insert-Free :
    (key owner : Text) (taken : Map Text) (ks : List Text)
    → Free (insert key owner taken) ks
    → All (λ k. key ≢ k) ks × Free taken ks
insert-Free key owner taken [] h = (tt, tt)
insert-Free key owner taken (k ∷ ks) (h, hs) =
    let (apart, free) = insert-Free key owner taken ks hs in
    let eq = lookup-insert key k owner taken in
    let step : (key ≢ k) × (lookup k taken ≡ none) = elim (Bool-cases (key == k)) [
      | inl same ↦ absurd (some_or_none owner (sym (eq ∙ (rw same refl)) ∙ h))
      | inr other ↦ (λ e. ground (arith, ==_iff key k, other, e), sym (eq ∙ (rw other refl)) ∙ h)
    ] in
    ((step.0, apart), (step.1, free))

claim-Free :
    (key owner : Text) (seen taken : Map Text) (ks : List Text)
    → taken ≡ insert key owner seen
    → Free taken ks
    → All (λ k. key ≢ k) ks × Free seen ks
claim-Free key owner seen taken ks e h = insert-Free key owner seen ks (rw (← e) h)

taken_of : Result (Map Text) → Map Text
taken_of (failed e) = []
taken_of (value m) = m

claimed-value :
    (i : ℕ) (r : RepoConfig) (kind key : Text) (seen taken : Map Text) (o : Option Text)
    → lookup key seen ≡ o
    → claimed i r kind key seen o ≡ value taken
    → (owner : Text) × (lookup key seen ≡ none) × (taken ≡ insert key owner seen)
unfolding claimed taken_of
claimed-value i r kind key seen taken (some owner) found e = absurd (failed_or_value _ taken e)
claimed-value i r kind key seen taken none free e = (_, free, sym (ap taken_of e))

-- A claim that succeeds was of a free key, which is then taken.
claim-value :
    (i : ℕ) (r : RepoConfig) (kind key : Text) (seen taken : Map Text)
    → claim i r kind key seen ≡ value taken
    → (owner : Text) × (lookup key seen ≡ none) × (taken ≡ insert key owner seen)
unfolding claim
claim-value i r kind key seen taken h =
    claimed-value i r kind key seen taken (lookup key seen) refl h

target_claim-value :
    (i : ℕ) (r : RepoConfig) (claimed_first : Result (Map Text)) (taken : Map Text)
    → target_claim i r claimed_first ≡ value taken
    → (mid : Map Text) × (claimed_first ≡ value mid)
      × (claim i r (lit "target") (endpoint_key r.target r.target_path) mid ≡ value taken)
unfolding target_claim
target_claim-value i r (failed e) taken h = absurd (failed_or_value e taken h)
target_claim-value i r (value mid) taken h = (mid, refl, h)

-- When both sides of a repository could be claimed and what follows is free afterwards, the sides
-- and what follows are distinct, and all of it was free before.
pub claim_sides-value :
    (i : ℕ) (r : RepoConfig) (seen taken : Map Text) (ks : List Text)
    → claim_sides i r seen ≡ value taken
    → Free taken ks × Distinct ks
    → Free seen (endpoint_key r.source r.source_path ∷ endpoint_key r.target r.target_path ∷ ks)
      × Distinct (endpoint_key r.source r.source_path ∷ endpoint_key r.target r.target_path ∷ ks)
unfolding claim_sides
claim_sides-value i r seen taken ks h (free, distinct) =
    let src = endpoint_key r.source r.source_path in
    let tgt = endpoint_key r.target r.target_path in
    let (mid, first, second) = target_claim-value i r _ taken h in
    let (o, tgt_free, taken_eq) = claim-value i r (lit "target") tgt mid taken second in
    let (o', src_free, mid_eq) = claim-value i r (lit "source") src seen mid first in
    let (tgt_apart, ks_free) = claim-Free tgt o mid taken ks taken_eq free in
    let (src_apart, all_free) = claim-Free src o' seen mid (tgt ∷ ks) mid_eq (tgt_free, ks_free) in
    ((src_free, all_free), (src_apart, (tgt_apart, distinct)))

pub with_claims-none :
    (c : Result (Map Text)) (f : Map Text → Option Error)
    → with_claims c f ≡ none
    → (taken : Map Text) × (c ≡ value taken) × (f taken ≡ none)
with_claims-none (failed e) f h = absurd (some_or_none e h)
with_claims-none (value taken) f h = (taken, refl, h)

-- Names that are new after this one are others, and were new before.
pub name_apart :
    (k : Text) (names ks : List Text)
    → All (λ j. member j (k ∷ names) ≡ false) ks
    → All (λ j. k ≢ j) ks × All (λ j. member j names ≡ false) ks
unfolding member
name_apart k names [] h = (tt, tt)
name_apart k names (j ∷ ks) (h, hs) =
    let (apart, new) = name_apart k names ks hs in
    let step : (k ≢ j) × (member j names ≡ false) = elim (Bool-cases (k == j)) [
      | inl same ↦ ground (arith, same, h)
      | inr other ↦ (λ e. ground (arith, ==_iff k j, other, e), ground (arith, other, h))
    ] in
    ((step.0, apart), (step.1, new))
