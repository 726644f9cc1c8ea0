-- ===== src/Config/Glob.antt =====
-- The function path.Match of Go's standard library, which the override patterns use: a scanner for
-- the pattern, and a matcher. `none` stands for `ErrBadPattern`.
pub mod Literal
use git_bridge.Base.{
  Text, ℕ, ◌+◌, List, [], ◌∷◌, ◌++◌, Option, none, some, Bool, true, false, not, ◌&&◌, ◌||◌, lit,
  leb, nat_eq, is_empty, if◌then◌else◌, ◌≡◌, refl,
}

abbrev pub Range : Type 0
Range = ℕ × ℕ

pub data Item : Type 0 where
  star one : Item
  char : ℕ → Item
  class : Bool → List Range → Item

-- Where the scanner stands in the pattern; the items behind it wait in `done`.
pub data Scan : Type 0 where
  top escape class_open : Scan
  class_low class_low_escape : Bool → List Range → Scan
  class_after class_high class_high_escape : Bool → List Range → ℕ → Scan
  bad : Scan

abbrev pub Scanner : Type 0
Scanner = Scan × List Item

-- An item of a class: the lower end of a range, or the end of the class.
class_item : Bool → List Range → ℕ → List Item → Scanner
class_item neg rs c done =
    if nat_eq c b']' && not (is_empty rs)
    then (top, done ++ (class neg rs ∷ []))
    else if nat_eq c b'\\'
    then (class_low_escape neg rs, done)
    else if nat_eq c b'-' || nat_eq c b']'
    then (bad, done)
    else (class_after neg rs c, done)

scan : Scan → ℕ → List Item → Scanner
unfolding class_item
scan top c done =
    if nat_eq c b'*'
    then (top, done ++ (star ∷ []))
    else if nat_eq c b'?'
    then (top, done ++ (one ∷ []))
    else if nat_eq c b'['
    then (class_open, done)
    else if nat_eq c b'\\'
    then (escape, done)
    else (top, done ++ (char c ∷ []))
scan escape c done = (top, done ++ (char c ∷ []))
scan class_open c done =
    if nat_eq c b'^' then (class_low true [], done) else class_item false [] c done
scan (class_low neg rs) c done = class_item neg rs c done
scan (class_low_escape neg rs) c done = (class_after neg rs c, done)
scan (class_after neg rs lo) c done =
    if nat_eq c b'-'
    then (class_high neg rs lo, done)
    else class_item neg (rs ++ ((lo, lo) ∷ [])) c done
scan (class_high neg rs lo) c done =
    if nat_eq c b'\\'
    then (class_high_escape neg rs lo, done)
    else if nat_eq c b'-' || nat_eq c b']'
    then (bad, done)
    else (class_low neg (rs ++ ((lo, c) ∷ [])), done)
scan (class_high_escape neg rs lo) c done = (class_low neg (rs ++ ((lo, c) ∷ [])), done)
scan bad c done = (bad, done)

-- A pattern that ends in an escape or in a class is refused.
finish : Scanner → Option (List Item)
finish (top, done) = some done
finish (state, done) = none

scan_all : Scanner → Text → Scanner
scan_all s [] = s
scan_all (state, done) (c ∷ cs) = scan_all (scan state c done) cs

parse : Text → Option (List Item)
unfolding scan_all scan finish
parse pattern = finish (scan_all (top, []) pattern)

in_ranges : ℕ → List Range → Bool
in_ranges c [] = false
in_ranges c ((lo, hi) ∷ rs) =
    let rest = in_ranges c rs in if leb lo c && leb c hi then true else rest

class_matches : Bool → List Range → ℕ → Bool
unfolding in_ranges
class_matches true rs c = not (in_ranges c rs)
class_matches false rs c = in_ranges c rs

-- A star and a question mark do not match the separator.
matches : List Item → Text → Bool
unfolding class_matches
matches [] [] = true
matches [] (c ∷ cs) = false
matches (star ∷ items) [] = matches items []
matches (star ∷ items) (c ∷ cs) =
    let here = matches items (c ∷ cs) in
    let longer = matches (star ∷ items) cs in
    if here then true else if nat_eq c b'/' then false else longer
matches (one ∷ items) [] = false
matches (one ∷ items) (c ∷ cs) =
    let rest = matches items cs in if nat_eq c b'/' then false else rest
matches (char d ∷ items) [] = false
matches (char d ∷ items) (c ∷ cs) =
    let rest = matches items cs in if nat_eq c d then rest else false
matches (class neg rs ∷ items) [] = false
matches (class neg rs ∷ items) (c ∷ cs) =
    let rest = matches items cs in if class_matches neg rs c then rest else false

match_parsed : Option (List Item) → Text → Option Bool
match_parsed none name = none
match_parsed (some items) name = some (matches items name)

-- path.Match(pattern, name)
unfoldable pub path_match : Text → Text → Option Bool
unfolding parse match_parsed matches
path_match pattern name = match_parsed (parse pattern) name

glob_tests :
    (path_match (lit "release/*") (lit "release/1.2") ≡ some true)
    × (path_match (lit "release/*") (lit "release/x/y") ≡ some false)
    × (path_match (lit "v[0-9]*.?") (lit "v12.3") ≡ some true)
    × (path_match (lit "[^a-c]x") (lit "bx") ≡ some false)
    × (path_match (lit "[]a]") (lit "a") ≡ none)
    × (path_match (lit "a\\*") (lit "a*") ≡ some true)
    × (path_match (lit "a[") (lit "x") ≡ none)
unfolding path_match
glob_tests = (refl, refl, refl, refl, refl, refl, refl)
