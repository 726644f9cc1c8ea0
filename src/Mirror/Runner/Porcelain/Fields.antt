-- ===== src/Mirror/Runner/Porcelain/Fields.antt =====
-- internal/mirror/mirror.go, `parseForcedLine` and `parseRejectedLine`: the fields of one line.
use git_bridge.Base.{
  Text, ℕ, [], ◌∷◌, ◌++◌, Option, none, some, true, false, lit, ◌==◌, nat_eq, has_prefix,
  after_prefix, cut, before_first, trim_space, ◌≡◌, ◌≢◌, refl, arith, append-nil, is_space, ==_iff,
  Bool-cases, inl, inr,
}
use git_bridge.Base.Scan.{
  free, lacks, solid, free-narrow, after_last-append, before_first-append, before_first-lacks,
  cut-append, trim_space-lone,
}
use git_bridge.Base.TextLaws.{after_prefix-append}
use git_bridge.Mirror.Git.{PushResult}
use git_bridge.Mirror.Runner.{
  push_round, push_line, flagged, parse_forced_line, forced_fields, forced_tips, forced_parts,
  parse_rejected_line, rejected_fields,
}
use git_bridge.Mirror.Runner.Porcelain.{forced, summary, remark_text, is_break, print_fields, IsTip}
use git_bridge.Mirror.Runner.Porcelain.Lines.{split-line, trim_right-line, visible-line}

pub nonempty : (t : Text) → t ≢ [] → (t == []) ≡ false
nonempty t h = elim (Bool-cases (t == [])) [
  | inl blank ↦ absurd (h ((==_iff t []).0 blank))
  | inr filled ↦ filled
]

space_apart : (c : ℕ) → is_space c ≡ false → nat_eq c b' ' ≡ false
unfolding is_space
space_apart c h = ground (arith, h)

no_space : (t : Text) → solid t ≡ true → lacks b' ' t ≡ true
no_space t h = free-narrow is_space (λ c. nat_eq c b' ') t space_apart h

-- The tips of a forced update, out of its summary.
pub tips_read :
    (to old new : Text) (remark : Option Text)
    → to ≢ []
    → IsTip old
    → IsTip new
    → forced_tips to (cut (summary (forced old new remark)) (lit "..."))
      ≡ some (record {
        ref = to;
        old = old;
        new = new;
        preserved = false;
        lost = [];
        lost_total = 0;
        elsewhere = 0;
      })
unfolding forced_tips forced_parts
tips_read to old new remark named (old_some, old_solid, old_dots) (new_some, new_solid, new_dots) =
    rw (cut-append b'.' (b'.' ∷ b'.' ∷ []) old (new ++ remark_text remark) old_dots dots) (
      rw (before_remark remark) (
        rw (trim_space-lone old old_solid, trim_space-lone new new_solid)
          (rw (nonempty to named, nonempty old old_some, nonempty new new_some) refl)))
  where
    dots :
        after_prefix
          (b'.' ∷ ((b'.' ∷ b'.' ∷ []) ++ (new ++ remark_text remark)))
          (b'.' ∷ b'.' ∷ b'.' ∷ [])
        ≡ some (new ++ remark_text remark)
    dots = after_prefix-append (lit "...") (new ++ remark_text remark)

    before_remark : (n : Option Text) → before_first (new ++ remark_text n) b' ' ≡ new
    before_remark none = rw (append-nil new) (before_first-lacks b' ' new (no_space new new_solid))
    before_remark (some words) = before_first-append b' ' new words (no_space new new_solid)

module _ (mark : ℕ) (from to text : Text) (marked : is_break mark ≡ false)
    (from_free : free is_break from ≡ true) (to_solid : solid to ≡ true)
    (to_colon : lacks b':' to ≡ true) (text_free : free is_break text ≡ true) where
  -- A printed line is passed over only if its mark looks like the start of one of git's own lines.
  pub round_flagged :
      (res : PushResult)
      → nat_eq mark b'T' ≡ false
      → nat_eq mark b'D' ≡ false
      → push_round (print_fields mark from to text) res
        ≡ flagged mark (print_fields mark from to text) res
  unfolding push_round push_line has_prefix after_prefix
  round_flagged res no_t no_d =
      rw (trim_right-line mark from to text marked from_free to_solid text_free) (
        rw (visible-line mark from to text marked from_free to_solid text_free)
          (rw (no_t, no_d) refl))

  pub forced_read :
      parse_forced_line (print_fields mark from to text) ≡ forced_tips to (cut text (lit "..."))
  unfolding parse_forced_line forced_fields
  forced_read =
      rw (split-line mark from to text marked from_free to_solid text_free)
        (rw (after_last-append b':' from to to_colon) refl)

  pub rejected_read :
      parse_rejected_line (print_fields mark from to text) ≡ to ++ (lit ": " ++ trim_space text)
  unfolding parse_rejected_line rejected_fields
  rejected_read =
      rw (split-line mark from to text marked from_free to_solid text_free)
        (rw (after_last-append b':' from to to_colon) refl)
