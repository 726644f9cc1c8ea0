-- ===== src/Mirror/Runner/Tips.antt =====
-- internal/mirror/mirror.go, `parseRefTips`: the listings of `git for-each-ref` and `git ls-remote`, and the
-- tips that are read in them.
use git_bridge.Base.{
  Text, ℕ, List, [], ◌∷◌, ◌++◌, Option, none, some, true, false, lit, ◌==◌, nat_eq, has_suffix, cut,
  trim_space, is_space, lookup, lookup-insert, Map, ◌≡◌, ◌≢◌, refl, ap, ◌∙◌, arith, map, ==_iff,
  Bool-cases, inl, inr, if◌then◌else◌,
}
use git_bridge.Base.TextLaws.{after_prefix-append}
use git_bridge.Base.Scan.{
  lacks, solid, free-append, free-cons, free-narrow, cut-append, trim_space-lone, trim_space-solid,
  unlines, AllLack, split-unlines,
}
use git_bridge.Mirror.Runner.{parse_ref_tips, tip_lines, tip_cut}

-- A ref and its tip, as git lists them.
pub record Listed : Type 0 where
  pub sha : Text
  pub ref : Text

-- The lines "<sha><sep><ref>".
unfoldable pub print_tips : ℕ → List Listed → Text
print_tips sep es = unlines (map (λ e. e.sha ++ (sep ∷ e.ref)) es)

-- Object and ref names hold no white space.
abbrev pub IsListed : Listed → Type 0
IsListed e = (e.sha ≢ []) × (solid e.sha ≡ true) × (e.ref ≢ []) × (solid e.ref ≡ true)

abbrev pub AllListed : List Listed → Type 0
AllListed [] = Unit
AllListed (e ∷ es) = IsListed e × AllListed es

abbrev pub or_before : Option Text → Option Text → Option Text
or_before none before = before
or_before (some later) before = some later

-- What one entry says of this ref. The peeled entries of annotated tags say nothing.
abbrev pub own_tip : Text → Listed → Option Text
own_tip asked e =
    if has_suffix e.ref (lit "^{}") then none else if e.ref == asked then some e.sha else none

-- The tip of the last entry for this ref.
unfoldable pub tip_of : Text → List Listed → Option Text
tip_of asked [] = none
tip_of asked (e ∷ es) = or_before (tip_of asked es) (own_tip asked e)

or_before_assoc : (a b c : Option Text) → or_before a (or_before b c) ≡ or_before (or_before a b) c
or_before_assoc none b c = refl
or_before_assoc (some a) b c = refl

nonempty : (t : Text) → t ≢ [] → (t == []) ≡ false
nonempty t h = elim (Bool-cases (t == [])) [
  | inl blank ↦ absurd (h ((==_iff t []).0 blank))
  | inr filled ↦ filled
]

before_nothing : (asked : Text) (o : Option Text) → or_before o (lookup {V = Text} asked []) ≡ o
unfolding lookup
before_nothing asked none = refl
before_nothing asked (some tip) = refl

newline_apart : (c : ℕ) → is_space c ≡ false → nat_eq c 10 ≡ false
unfolding is_space
newline_apart c h = ground (arith, h)

no_newlines : (t : Text) → solid t ≡ true → lacks 10 t ≡ true
no_newlines t h = free-narrow is_space (λ c. nat_eq c 10) t newline_apart h

module _ (sep : ℕ) (spaced : is_space sep ≡ true) (no_newline : nat_eq sep 10 ≡ false) where
  lacks_sep : (t : Text) → solid t ≡ true → lacks sep t ≡ true
  lacks_sep t h = free-narrow is_space (λ c. nat_eq c sep) t apart h
    where
      apart : (c : ℕ) → is_space c ≡ false → nat_eq c sep ≡ false
      apart c k = ground (arith, k, spaced)

  line_cut :
      (e : Listed)
      → IsListed e
      → cut (trim_space (e.sha ++ (sep ∷ e.ref))) (sep ∷ []) ≡ some (e.sha, e.ref)
  line_cut e (sha_some, sha_solid, ref_some, ref_solid) =
      rw (trim_space-solid e.sha (sep ∷ []) e.ref sha_some sha_solid ref_some ref_solid) (
        cut-append sep [] e.sha e.ref (lacks_sep e.sha sha_solid)
          (after_prefix-append (sep ∷ []) e.ref))

  line_lookup :
      (asked : Text) (e : Listed) (tips : Map Text)
      → IsListed e
      → lookup asked (tip_cut (cut (trim_space (e.sha ++ (sep ∷ e.ref))) (sep ∷ [])) tips)
        ≡ or_before (own_tip asked e) (lookup asked tips)
  unfolding tip_cut
  line_lookup asked e tips (a, b, c, d) = rw (line_cut e (a, b, c, d)) (
      rw (trim_space-lone e.ref d) (
        rw (trim_space-lone e.sha b, nonempty e.ref c)
          (elim (Bool-cases (has_suffix e.ref (lit "^{}"))) [
            | inl peeled ↦ rw peeled refl
            | inr whole ↦ rw whole (
                lookup-insert e.ref asked e.sha tips ∙ elim (Bool-cases (e.ref == asked)) [
                  | inl this ↦ rw this refl
                  | inr another ↦ rw another refl
                ])
          ])))

  lines_lookup :
      (asked : Text) (es : List Listed) (tips : Map Text)
      → AllListed es
      → lookup asked (tip_lines (sep ∷ []) (map (λ e. e.sha ++ (sep ∷ e.ref)) es ++ ([] ∷ [])) tips)
        ≡ or_before (tip_of asked es) (lookup asked tips)
  unfolding tip_lines tip_cut tip_of cut trim_space
  lines_lookup asked [] tips h = refl
  lines_lookup asked (e ∷ es) tips (k, h) =
      lines_lookup asked es (tip_cut (cut (trim_space (e.sha ++ (sep ∷ e.ref))) (sep ∷ [])) tips) h
      ∙ ap (or_before (tip_of asked es)) (line_lookup asked e tips k)
      ∙ or_before_assoc (tip_of asked es) (own_tip asked e) (lookup asked tips)

  lines_lack : (es : List Listed) → AllListed es → AllLack 10 (map (λ e. e.sha ++ (sep ∷ e.ref)) es)
  lines_lack [] h = tt
  lines_lack (e ∷ es) ((a, b, c, d), h) = (
    free-append _ e.sha (sep ∷ e.ref) (no_newlines e.sha b)
        (free-cons _ sep e.ref no_newline (no_newlines e.ref d)),
    lines_lack es h,
  )

  -- In a listing of refs and tips, whose names are not empty and hold no white space, apart by a white
  -- space that is no line break, `parseRefTips` finds for every ref the tip of its last entry, and no tip
  -- for a ref that is not listed; the peeled entries of annotated tags, which name a commit in place of
  -- the tag, hide no other.
  pub parse_ref_tips-print_tips :
      (asked : Text) (es : List Listed)
      → AllListed es
      → lookup asked (parse_ref_tips (print_tips sep es) (sep ∷ [])) ≡ tip_of asked es
  unfolding parse_ref_tips print_tips tip_of
  parse_ref_tips-print_tips asked es h =
      let lines = map (λ (e : Listed). e.sha ++ (sep ∷ e.ref)) es in
      ap (λ ls. lookup asked (tip_lines (sep ∷ []) ls [])) (split-unlines lines (lines_lack es h))
      ∙ lines_lookup asked es [] h
      ∙ before_nothing asked (tip_of asked es)
