-- ===== src/Config/Validate/Faults.antt =====
-- A run of `if <test> { return <error> }`: the first test that holds gives the error.
use git_bridge.Base.{
  List, [], ◌∷◌, Option, none, some, Bool, true, false, if◌then◌else◌, ◌≡◌, refl, All, some_or_none,
}
use git_bridge.Errors.{Error}

unfoldable pub first_fault : List (Bool × Error) → Option Error
first_fault [] = none
first_fault ((test, e) ∷ rest) = let later = first_fault rest in if test then some e else later

-- Without an error every test has failed.
pub first_fault-none :
    (faults : List (Bool × Error)) → first_fault faults ≡ none → All (λ f. f.0 ≡ false) faults
unfolding first_fault
first_fault-none [] h = tt
first_fault-none ((true, e) ∷ rest) h = absurd (some_or_none e h)
first_fault-none ((false, e) ∷ rest) h = (refl, first_fault-none rest h)
