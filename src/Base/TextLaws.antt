-- ===== src/Base/TextLaws.antt =====
-- Laws of the text functions.
use git_bridge.Base.Texts.{
  Text, after_prefix, has_prefix, trim_prefix, lit, to_lower, trim_space, cut, split, show_nat,
}
use mathlib.Core.Path.{◌≡◌, refl}
use mathlib.Core.Bool.{true}
use mathlib.Core.Option.{some}
use mathlib.Core.List.{[], ◌∷◌, ◌++◌}
use mathlib.Core.Logic.{inl, inr}
use native.Mathlib.Omega.{arith}
use git_bridge.Base.Tests.{Option-cases}

pub after_prefix-append : (p s : Text) → after_prefix (p ++ s) p ≡ some s
unfolding after_prefix
after_prefix-append [] s = refl
after_prefix-append (c ∷ p) s = ground (arith, after_prefix-append p s)

pub has_prefix-append : (p s : Text) → has_prefix (p ++ s) p ≡ true
unfolding has_prefix
has_prefix-append p s = rw (after_prefix-append p s)

pub trim_prefix-append : (p s : Text) → trim_prefix (p ++ s) p ≡ s
unfolding trim_prefix
trim_prefix-append p s = rw (after_prefix-append p s)

-- A prefix and what is behind it make up the text.
pub append_of_after_prefix : (s p t : Text) → after_prefix s p ≡ some t → s ≡ p ++ t
unfolding after_prefix
append_of_after_prefix s [] t h = ground arith
append_of_after_prefix [] (b ∷ ys) t h = cc
append_of_after_prefix (a ∷ xs) (b ∷ ys) t h = ground (arith, append_of_after_prefix xs ys t)

-- A text with a prefix is that prefix and the rest.
pub prefixed : (ref p : Text) → has_prefix ref p ≡ true → ref ≡ p ++ trim_prefix ref p
unfolding has_prefix trim_prefix
prefixed ref p h = elim (Option-cases (after_prefix ref p)) [
  | inl absent ↦ ground (arith, absent, h)
  | inr (rest, there) ↦ rw there (append_of_after_prefix ref p rest there)
]

lower_test : to_lower (lit "Source-To-Target") ≡ lit "source-to-target"
unfolding to_lower
lower_test = refl

trim_test : trim_space (lit "  a b \t") ≡ lit "a b"
unfolding trim_space
trim_test = refl

cut_test : cut (lit "abc...def") (lit "...") ≡ some (lit "abc", lit "def")
unfolding cut
cut_test = refl

split_test : split (lit "a\tb\t") 9 ≡ lit "a" ∷ lit "b" ∷ [] ∷ []
unfolding split
split_test = refl

show_test : show_nat 1205 ≡ lit "1205"
unfolding show_nat
show_test = refl
