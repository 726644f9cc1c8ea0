-- ===== src/Errors.antt =====
-- Go errors: the text that `Error()` gives, and the sentinel that `errors.Is` finds in the chain
-- of wrapped errors (the `Err…` variables of internal/mirror/mirror.go).
use mathlib.Core.Path.{subst}
use git_bridge.Base.{
  Text, ℕ, [], ◌∷◌, ◌++◌, Option, none, lit, if◌then◌else◌, nat_eq, ltb, ◌+◌, ◌-◌, ◌/◌, ◌%◌, ◌≢◌,
  ◌≡◌,
}

pub data Sentinel : Type 0 where
  ref_exists object_gone direction_not_allowed ref_overridden unknown_side unknown_repo repo_busy :
      Sentinel

pub record Error : Type 0 where
  pub message : Text
  pub sentinel : Option Sentinel

-- errors.New and a fmt.Errorf that wraps nothing
abbrev pub plain : Text → Error
plain t = record { message = t; sentinel = none }

-- fmt.Errorf("<before>%w<after>", e): the text in place, and the chain kept
abbrev pub wrap : Text → Error → Text → Error
wrap before e after = record e { message = before ++ (e.message ++ after) }

pub hex_digit : ℕ → ℕ
hex_digit n = if ltb n 10 then b'0' + n else b'a' + (n - 10)

-- The escapes of strconv.Quote below U+0080; code points above are printed as they are.
quote_char : ℕ → Text
quote_char c =
    if nat_eq c b'"'
    then lit "\\\""
    else if nat_eq c b'\\'
    then lit "\\\\"
    else if nat_eq c 7
    then lit "\\a"
    else if nat_eq c 8
    then lit "\\b"
    else if nat_eq c 9
    then lit "\\t"
    else if nat_eq c 10
    then lit "\\n"
    else if nat_eq c 11
    then lit "\\v"
    else if nat_eq c 12
    then lit "\\f"
    else if nat_eq c 13
    then lit "\\r"
    else if ltb c 32
    then lit "\\x" ++ (hex_digit (c / 16) ∷ hex_digit (c % 16) ∷ [])
    else if nat_eq c 127
    then lit "\\x7f"
    else c ∷ []

quote_tail : Text → Text
quote_tail [] = lit "\""
quote_tail (c ∷ cs) = quote_char c ++ quote_tail cs

-- fmt's %q
unfoldable pub quote : Text → Text
unfolding quote_tail quote_char hex_digit
quote t = b'"' ∷ quote_tail t

-- A Go result beside its error.
pub data Result {ℓ} (A : Type ℓ) : Type ℓ where
  value : A → Result A
  failed : Error → Result A

pub failed_or_value {ℓ} : {A : Type ℓ} (e : Error) (a : A) → failed e ≢ value a
failed_or_value e a h = cc

-- A property of the value, when there is one.
module _ {ℓ κ} {A : Type ℓ} (P : A → Type κ) where
  abbrev pub Holds : Result A → Type κ
  Holds (failed e) = Unit
  Holds (value a) = P a

  pub holds_value : (r : Result A) (a : A) → r ≡ value a → Holds r → P a
  holds_value r a e h = subst (λ q. Holds q) e h
