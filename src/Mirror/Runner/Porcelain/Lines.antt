-- ===== src/Mirror/Runner/Porcelain/Lines.antt =====
-- internal/mirror/mirror.go, `parsePush`: one printed line, taken apart again.
use git_bridge.Base.{
  Text, ℕ, [], ◌∷◌, ◌++◌, true, false, ◌==◌, nat_eq, split, trim_space, trim_right, ◌≡◌, refl, ap,
  ◌∙◌, arith, append_assoc, is_space, ==_iff, Bool-cases, inl, inr,
}
use git_bridge.Base.Scan.{
  free, lacks, solid, free-append, free-cons, free-narrow, free-nil, split-append, split-lacks,
  trim_space-visible, trim_right-lacks,
}
use git_bridge.Mirror.Runner.Porcelain.{is_break, print_fields}

breaks_are_spaces : (c : ℕ) → is_space c ≡ false → is_break c ≡ false
unfolding is_space
breaks_are_spaces c h = ground (arith, h)

-- White space holds the breaks.
pub solid_unbroken : (t : Text) → solid t ≡ true → free is_break t ≡ true
solid_unbroken t h = free-narrow is_space is_break t breaks_are_spaces h

unbroken-lacks :
    (sep : ℕ) (t : Text)
    → ((c : ℕ) → is_break c ≡ false → nat_eq c sep ≡ false)
    → free is_break t ≡ true
    → lacks sep t ≡ true
unbroken-lacks sep t narrow h = free-narrow is_break (λ c. nat_eq c sep) t narrow h

module _ (mark : ℕ) (from to text : Text) (marked : is_break mark ≡ false)
    (from_free : free is_break from ≡ true) (to_solid : solid to ≡ true)
    (text_free : free is_break text ≡ true) where
  lacks_other :
      (sep : ℕ)
      → ((c : ℕ) → is_break c ≡ false → nat_eq c sep ≡ false)
      → nat_eq 9 sep ≡ false
      → nat_eq b':' sep ≡ false
      → lacks sep (print_fields mark from to text) ≡ true
  lacks_other sep narrow no_tab no_colon =
      let p = λ (c : ℕ). nat_eq c sep in
      free-append p (mark ∷ (9 ∷ from)) (b':' ∷ (to ++ (9 ∷ text)))
        (free-cons p mark (9 ∷ from) (narrow mark marked)
          (free-cons p 9 from no_tab (unbroken-lacks sep from narrow from_free)))
        (free-cons p b':' (to ++ (9 ∷ text)) no_colon (
          free-append p to (9 ∷ text) (unbroken-lacks sep to narrow (solid_unbroken to to_solid))
            (free-cons p 9 text no_tab (unbroken-lacks sep text narrow text_free))))

  -- The three fields of the line.
  pub split-line :
      split (print_fields mark from to text) 9 ≡ (mark ∷ []) ∷ (from ++ (b':' ∷ to)) ∷ text ∷ []
  split-line =
      let tab_ends : (c : ℕ) → is_break c ≡ false → nat_eq c 9 ≡ false = λ c h. ground (arith, h) in
      let refs_lack : lacks 9 (from ++ (b':' ∷ to)) ≡ true =
        free-append _ from (b':' ∷ to) (unbroken-lacks 9 from tab_ends from_free)
          (free-cons _ b':' to refl (unbroken-lacks 9 to tab_ends (solid_unbroken to to_solid))) in
      let mark_lacks : lacks 9 (mark ∷ []) ≡ true =
        free-cons _ mark [] (tab_ends mark marked) (free-nil _) in
      rw (← append_assoc from (b':' ∷ to) (9 ∷ text)) (
        split-append 9 (mark ∷ []) ((from ++ (b':' ∷ to)) ++ (9 ∷ text)) mark_lacks
        ∙ ap (λ l. (mark ∷ []) ∷ l)
            (split-append 9 (from ++ (b':' ∷ to)) text refs_lack
              ∙ ap (λ l. (from ++ (b':' ∷ to)) ∷ l)
                  (split-lacks 9 text (unbroken-lacks 9 text tab_ends text_free))))

  pub lacks-line : lacks 10 (print_fields mark from to text) ≡ true
  lacks-line = lacks_other 10 (λ c h. ground (arith, h)) refl refl

  pub trim_right-line :
      trim_right (print_fields mark from to text) 13 ≡ print_fields mark from to text
  trim_right-line =
      trim_right-lacks (print_fields mark from to text) 13
        (lacks_other 13 (λ c h. ground (arith, h)) refl refl)

  pub visible-line : (trim_space (print_fields mark from to text) == []) ≡ false
  unfolding is_space
  visible-line = elim (Bool-cases (trim_space (print_fields mark from to text) == [])) [
    | inl blank ↦ absurd (
        trim_space-visible (mark ∷ (9 ∷ from)) b':' (to ++ (9 ∷ text)) refl ((==_iff _ []).0 blank))
    | inr visible ↦ visible
  ]
