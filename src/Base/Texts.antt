-- ===== src/Base/Texts.antt =====
-- Go strings, and the functions of the `strings` package that the program calls. A string is the
-- list of its code points; the program cuts strings at ASCII characters only.
use Prim.Native.Char.{code}
use Prim.Native.String.{String}
use Prim.Native.Nat.{ℕ, zero, suc, ◌+◌, ◌/◌, ◌%◌}
use mathlib.Core.Path.{◌≡◌, refl}
use mathlib.Core.Logic.{◌↔◌}
use mathlib.Core.Bool.{Bool, true, false, ◌&&◌, ◌||◌}
use mathlib.Core.Option.{Option, none, some}
use mathlib.Core.List.{List, [], ◌∷◌, ◌++◌, map, reverse}
use native.Mathlib.Omega.{arith}
use git_bridge.Base.Tests.{nat_eq, leb, ltb, if◌then◌else◌, is_some, get_or}
use git_bridge.Base.Lists.{is_empty}

abbrev pub Text : Type 0
Text = List ℕ

-- A literal.
abbrev pub lit : String → Text
lit String.[] = []
lit (String.◌∷◌ c s) = code c ∷ lit s

infix 50 ◌==◌
unfoldable pub ◌==◌ : Text → Text → Bool
[] == [] = true
[] == (b ∷ ys) = false
(a ∷ xs) == [] = false
(a ∷ xs) == (b ∷ ys) = nat_eq a b && xs == ys

pub ==_iff : (s t : Text) → ((s == t) ≡ true) ↔ (s ≡ t)
unfolding ◌==◌
==_iff [] [] = ground arith
==_iff [] (b ∷ ys) = ground arith
==_iff (a ∷ xs) [] = ground arith
==_iff (a ∷ xs) (b ∷ ys) = ground (arith, ==_iff xs ys)

pub ==_refl : (s : Text) → (s == s) ≡ true
==_refl s = (==_iff s s).1 refl

-- What is left of `s` behind the prefix `p`.
unfoldable pub after_prefix : Text → Text → Option Text
after_prefix s [] = some s
after_prefix [] (b ∷ ys) = none
after_prefix (a ∷ xs) (b ∷ ys) = let rest = after_prefix xs ys in if nat_eq a b then rest else none

-- strings.HasPrefix, strings.TrimPrefix
unfoldable pub has_prefix : Text → Text → Bool
unfolding after_prefix
has_prefix s p = is_some (after_prefix s p)

unfoldable pub trim_prefix : Text → Text → Text
unfolding after_prefix
trim_prefix s p = get_or s (after_prefix s p)

-- strings.HasSuffix
unfoldable pub has_suffix : Text → Text → Bool
unfolding has_prefix
has_suffix s p = has_prefix (reverse s) (reverse p)

-- strings.Contains
unfoldable pub contains : Text → Text → Bool
unfolding has_prefix
contains [] p = is_empty p
contains (a ∷ xs) p = let rest = contains xs p in if has_prefix (a ∷ xs) p then true else rest

unfoldable pub cons_before : ℕ → Option (Text × Text) → Option (Text × Text)
cons_before a none = none
cons_before a (some (before, after)) = some (a ∷ before, after)

-- strings.Cut, for a separator that is not empty; `none` is `found = false`
unfoldable pub cut : Text → Text → Option (Text × Text)
unfolding cons_before after_prefix
cut [] sep = none
cut (a ∷ xs) sep =
    let rest = cut xs sep in
    elim (after_prefix (a ∷ xs) sep) [ none ↦ cons_before a rest | some after ↦ some ([], after) ]

unfoldable pub cons_head : ℕ → List Text → List Text
cons_head a [] = (a ∷ []) ∷ []
cons_head a (t ∷ ts) = (a ∷ t) ∷ ts

-- strings.Split at one character
unfoldable pub split : Text → ℕ → List Text
unfolding cons_head
split [] sep = [] ∷ []
split (a ∷ xs) sep = let rest = split xs sep in if nat_eq a sep then [] ∷ rest else cons_head a rest

-- `if i := strings.LastIndex(s, sep); i >= 0 { s = s[i+1:] }`
unfoldable pub after_last : Text → ℕ → Text
unfolding contains has_prefix
after_last [] sep = []
after_last (a ∷ xs) sep =
    let rest = after_last xs sep in
    if contains xs (sep ∷ []) then rest else if nat_eq a sep then xs else a ∷ xs

-- `if i := strings.IndexByte(s, sep); i >= 0 { s = s[:i] }`
unfoldable pub before_first : Text → ℕ → Text
before_first [] sep = []
before_first (a ∷ xs) sep = let rest = before_first xs sep in if nat_eq a sep then [] else a ∷ rest

-- unicode.IsSpace
unfoldable pub is_space : ℕ → Bool
is_space c =
    (leb 9 c && leb c 13)
    || nat_eq c 32
    || nat_eq c 0x85
    || nat_eq c 0xa0
    || nat_eq c 0x1680
    || (leb 0x2000 c && leb c 0x200a)
    || nat_eq c 0x2028
    || nat_eq c 0x2029
    || nat_eq c 0x202f
    || nat_eq c 0x205f
    || nat_eq c 0x3000

unfoldable pub drop_while : (ℕ → Bool) → Text → Text
drop_while p [] = []
drop_while p (a ∷ xs) = let rest = drop_while p xs in if p a then rest else a ∷ xs

-- strings.TrimRight with a cutset of one character
unfoldable pub trim_right : Text → ℕ → Text
unfolding drop_while
trim_right s c = reverse (drop_while (λ d. nat_eq d c) (reverse s))

-- strings.TrimSpace
unfoldable pub trim_space : Text → Text
unfolding drop_while is_space
trim_space s = reverse (drop_while is_space (reverse (drop_while is_space s)))

-- unicode.ToLower, exact for every code point that is or becomes an ASCII letter; the dotted
-- capital I and the Kelvin sign become "i" and "k". Others are left as they are, and the program
-- only compares the result with ASCII words.
unfoldable pub to_lower_char : ℕ → ℕ
to_lower_char c =
    if leb b'A' c && leb c b'Z'
    then c + 32
    else if nat_eq c 0x130
    then b'i'
    else if nat_eq c 0x212a
    then b'k'
    else c

-- strings.ToLower
unfoldable pub to_lower : Text → Text
unfolding to_lower_char
to_lower s = map to_lower_char s

-- strings.Join
unfoldable pub join : List Text → Text → Text
join [] sep = []
join (t ∷ []) sep = t
join (t ∷ u ∷ ts) sep = t ++ (sep ++ join (u ∷ ts) sep)

-- The digits of a number, as `%d` prints it; the number itself is enough fuel.
show_from : ℕ → ℕ → Text → Text
show_from zero n acc = acc
show_from (suc fuel) n acc =
    let acc' = (b'0' + n % 10) ∷ acc in
    let rest = show_from fuel (n / 10) acc' in if ltb n 10 then acc' else rest

unfoldable pub show_nat : ℕ → Text
unfolding show_from
show_nat n = show_from (suc n) n []

-- fmt.Sprintf with its pieces in order
unfoldable pub concat : List Text → Text
concat [] = []
concat (t ∷ []) = t
concat (t ∷ u ∷ ts) = t ++ concat (u ∷ ts)
