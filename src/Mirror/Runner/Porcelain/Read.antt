-- ===== src/Mirror/Runner/Porcelain/Read.antt =====
-- internal/mirror/mirror.go, `parsePush`: the printed report is read as what happened.
use git_bridge.Base.{
  Text, ℕ, List, [], ◌∷◌, ◌++◌, Option, true, false, lit, ◌==◌, nat_eq, has_prefix, after_prefix,
  trim_space, trim_right, ◌≡◌, ◌≢◌, refl, ap, ◌∙◌, arith, map, append_assoc, append-nil, is_space,
}
use git_bridge.Base.Scan.{
  free, free-nil, lacks, solid, free-append, free-cons, free-narrow, trim_space-visible,
  trim_right-lacks, AllLack, split-unlines,
}
use git_bridge.Mirror.Git.{PushResult}
use git_bridge.Mirror.Runner.{parse_push, push_lines, push_round, flagged, add_forced, no_change}
use git_bridge.Mirror.Runner.Porcelain.{
  Update, fast_forward, forced, created, removed, current, refused, Report, flag, summary,
  remark_text, is_break, print_fields, print_line, print_push, IsClean, CleanUpdate, tell, outcome,
}
use git_bridge.Mirror.Runner.Porcelain.Lines.{solid_unbroken, lacks-line}
use git_bridge.Mirror.Runner.Porcelain.Fields.{
  nonempty, tips_read, round_flagged, forced_read, rejected_read,
}

unbroken_forced :
    (old new : Text) (remark : Option Text)
    → solid old ≡ true
    → solid new ≡ true
    → free is_break (remark_text remark) ≡ true
    → free is_break (summary (forced old new remark)) ≡ true
unbroken_forced old new remark o w k =
    let end : free is_break (new ++ remark_text remark) ≡ true =
      free-append is_break new (remark_text remark) (solid_unbroken new w) k in
    free-append is_break old (lit "..." ++ (new ++ remark_text remark)) (solid_unbroken old o)
      (free-append is_break (lit "...") (new ++ remark_text remark) three_dots end)
  where
    three_dots : free is_break (lit "...") ≡ true
    three_dots =
        free-cons is_break b'.' _ refl
          (free-cons is_break b'.' _ refl (free-cons is_break b'.' [] refl (free-nil is_break)))

unbroken : (u : Update) → CleanUpdate u → free is_break (summary u) ≡ true
unbroken (fast_forward old new) (o, w) =
    free-append is_break old (b'.' ∷ b'.' ∷ new) (solid_unbroken old o.1) (
      free-cons is_break b'.' (b'.' ∷ new) refl
        (free-cons is_break b'.' new refl (solid_unbroken new w.1)))
unbroken (forced old new remark) (o, w, k) = unbroken_forced old new remark o.1 w.1 k
unbroken (created text) k = k
unbroken (removed text) k = k
unbroken (current text) k = k
unbroken (refused text) k = k

marked : (u : Update) → is_break (flag u) ≡ false
marked (fast_forward old new) = refl
marked (forced old new remark) = refl
marked (created text) = refl
marked (removed text) = refl
marked (current text) = refl
marked (refused text) = refl

not_heading : (u : Update) → (nat_eq (flag u) b'T' ≡ false) × (nat_eq (flag u) b'D' ≡ false)
not_heading (fast_forward old new) = (refl, refl)
not_heading (forced old new remark) = (refl, refl)
not_heading (created text) = (refl, refl)
not_heading (removed text) = (refl, refl)
not_heading (current text) = (refl, refl)
not_heading (refused text) = (refl, refl)

module _ (from to : Text) (from_free : free is_break from ≡ true) (named : to ≢ [])
    (to_solid : solid to ≡ true) (to_colon : lacks b':' to ≡ true) (res : PushResult) where
  flagged_tells :
      (u : Update)
      → CleanUpdate u
      → flagged (flag u) (print_fields (flag u) from to (summary u)) res
        ≡ tell res (record { from = from; to = to; update = u })
  unfolding flagged add_forced
  flagged_tells (fast_forward old new) k = rw (append-nil res.forced, append-nil res.rejected) refl
  flagged_tells (forced old new remark) (o, w, k) =
      let text = summary (forced old new remark) in
      let whole = unbroken (forced old new remark) (o, w, k) in
      rw (forced_read b'+' from to text refl from_free to_solid to_colon whole)
        (rw (tips_read to old new remark named o w, append-nil res.rejected) refl)
  flagged_tells (created text) k = rw (append-nil res.forced, append-nil res.rejected) refl
  flagged_tells (removed text) k = rw (append-nil res.forced, append-nil res.rejected) refl
  flagged_tells (current text) k = rw (append-nil res.forced, append-nil res.rejected) refl
  flagged_tells (refused text) k =
      rw (rejected_read b'!' from to text refl from_free to_solid to_colon k, append-nil res.forced)
        refl

round_tells :
    (r : Report) → IsClean r → (res : PushResult) → push_round (print_line r) res ≡ tell res r
round_tells r (f, n, s, c, u) res =
    let (no_t, no_d) = not_heading r.update in
    round_flagged (flag r.update) r.from r.to (summary r.update) (marked r.update) f s c
      (unbroken r.update u) res no_t no_d
    ∙ flagged_tells r.from r.to f n s c res r.update u

abbrev pub AllClean : List Report → Type 0
AllClean [] = Unit
AllClean (r ∷ rs) = IsClean r × AllClean rs

push_lines-reports :
    (rs : List Report) (more : List Text) (res : PushResult)
    → AllClean rs
    → push_lines (map print_line rs ++ more) res ≡ push_lines more (outcome res rs)
unfolding push_lines
push_lines-reports [] more res h = refl
push_lines-reports (r ∷ rs) more res (clean, h) =
    ap (push_lines (map print_line rs ++ more)) (round_tells r clean res)
    ∙ push_lines-reports rs more (tell res r) h

lines_lack :
    (rs : List Report) (more : List Text)
    → AllClean rs
    → AllLack 10 more
    → AllLack 10 (map print_line rs ++ more)
lines_lack [] more h k = k
lines_lack (r ∷ rs) more ((f, n, s, c, u), h) k =
    let line =
      lacks-line (flag r.update) r.from r.to (summary r.update) (marked r.update) f s
        (unbroken r.update u) in
    (line, lines_lack rs more h k)

no_break_no_newline : (c : ℕ) → is_break c ≡ false → nat_eq c 10 ≡ false
no_break_no_newline c h = ground (arith, h)

no_break_no_return : (c : ℕ) → is_break c ≡ false → nat_eq c 13 ≡ false
no_break_no_return c h = ground (arith, h)

heading_skipped :
    (url : Text) (res : PushResult)
    → free is_break (lit "To " ++ url) ≡ true
    → push_round (lit "To " ++ url) res ≡ res
unfolding push_round has_prefix after_prefix is_space
heading_skipped url res h =
    rw
      (trim_right-lacks (lit "To " ++ url) 13
        (free-narrow is_break _ (lit "To " ++ url) no_break_no_return h))
      (rw
        (nonempty (trim_space (lit "To " ++ url))
          (trim_space-visible [] b'T' (b'o' ∷ b' ' ∷ url) refl))
        refl)

ending_skipped : (res : PushResult) → push_lines (lit "Done" ∷ [] ∷ []) res ≡ res
unfolding push_lines push_round trim_right trim_space has_prefix ◌==◌
ending_skipped res = refl

-- What a push reports is what is read: in the report of any updates, where the address, the local names
-- and git's remarks hold no tab or line break, the names at the destination are not empty and hold no
-- white space or colon, and the tips are not empty and hold no white space or dot, `parsePush` finds
-- whether a ref moved, each forced update with its ref and both tips, and each refusal with its ref and
-- reason, all in order.
pub parse_push-print_push :
    (url : Text) (rs : List Report)
    → free is_break url ≡ true
    → AllClean rs
    → parse_push (print_push url rs) ≡ outcome no_change rs
unfolding parse_push print_push push_lines
parse_push-print_push url rs h clean =
    let heading = lit "To " ++ url in
    let unbroken_heading : free is_break heading ≡ true =
      free-cons is_break b'T' _ refl
        (free-cons is_break b'o' _ refl (free-cons is_break b' ' url refl h)) in
    let lines = map print_line rs ++ (lit "Done" ∷ []) in
    let all_lack : AllLack 10 (heading ∷ lines) = (
      free-narrow is_break _ heading no_break_no_newline unbroken_heading,
      lines_lack rs (lit "Done" ∷ []) clean (done_lacks, tt),
    ) in
    ap (λ ls. push_lines ls no_change)
      (split-unlines (heading ∷ lines) all_lack
        ∙ ap (λ l. heading ∷ l) (append_assoc (map print_line rs) (lit "Done" ∷ []) ([] ∷ [])))
    ∙ ap (push_lines (map print_line rs ++ (lit "Done" ∷ [] ∷ [])))
        (heading_skipped url no_change unbroken_heading)
    ∙ push_lines-reports rs (lit "Done" ∷ [] ∷ []) no_change clean
    ∙ ending_skipped (outcome no_change rs)
  where
    done_lacks : lacks 10 (lit "Done") ≡ true
    done_lacks =
        free-cons _ b'D' _ refl (
          free-cons _ b'o' _ refl (free-cons _ b'n' _ refl (free-cons _ b'e' [] refl (free-nil _))))
