-- ===== src/Mirror/Forced.antt =====
-- internal/mirror/mirror.go: what a forced update discarded (`classifyForced`), and how it is told.
use git_bridge.Base.{
  Text, ◌-◌, List, [], ◌∷◌, ◌++◌, ◌&&◌, if◌then◌else◌, lit, concat, nat_eq, ltb, length, take, keep,
  not, is_empty, map, show_nat, join,
}
use git_bridge.Errors.{Result, value, failed}
use git_bridge.History.{ForcedRef, LostCommit, nothing_lost}
use git_bridge.Mirror.{is_branch}
use git_bridge.Mirror.Git.{Git, UnmatchedReport}

mark_checked : ForcedRef → Result UnmatchedReport → ForcedRef
mark_checked f (failed e) = f
mark_checked f (value rep) = record f {
  preserved = nat_eq rep.total 0 && nat_eq rep.elsewhere 0;
  lost = rep.lost;
  lost_total = rep.total;
  elsewhere = rep.elsewhere;
}

module _ {W : Type 0} (g : Git W) (dir : Text) (w : W) where
  -- One round of `classifyForced`.
  classify_ref : ForcedRef → ForcedRef
  unfolding mark_checked
  classify_ref f =
      if is_branch f.ref then mark_checked f (g.unmatched_commits dir f.new f.old w) else f

  -- `classifyForced`
  unfoldable pub classify_forced : List ForcedRef → List ForcedRef
  unfolding classify_ref
  classify_forced [] = []
  classify_forced (f ∷ fs) = classify_ref f ∷ classify_forced fs

-- `shortSHA`
unfoldable pub short_sha : Text → Text
short_sha sha = if ltb 10 (length sha) then take 10 sha else sha

lost_line : LostCommit → Text
unfolding short_sha
lost_line c =
    concat (lit "    lost " ∷ short_sha c.sha ∷ lit " " ∷ c.author ∷ lit ": " ∷ c.subject ∷ [])

-- `lostCommitLines`
unfoldable pub lost_commit_lines : ForcedRef → List Text
unfolding lost_line
lost_commit_lines f =
    if is_empty f.lost
    then lit "    (could not determine which commits were discarded — compare the two tips by hand)"
      ∷ []
    else map lost_line f.lost
      ++ ((if ltb (length f.lost) f.lost_total
            then concat
                (lit "    … and " ∷ show_nat (f.lost_total - length f.lost) ∷ lit " more" ∷ [])
              ∷ []
            else [])
          ++ (if ltb 0 f.elsewhere
              then concat (
                  lit "    "
                  ∷ show_nat f.elsewhere
                  ∷ lit " more left this branch but remain on other branches of the pushing side"
                  ∷ [])
                ∷ []
              else []))

-- `rewriteNote`
unfoldable pub rewrite_note : ForcedRef → Text
rewrite_note f =
    if nat_eq f.elsewhere 0
    then lit "content preserved"
    else concat (
        show_nat f.elsewhere
        ∷ lit " commit(s) left this branch, still on other branches of the pushing side"
        ∷ [])

-- The two lists that `reportForced` collects: branches that may have lost commits, and branches that
-- were rewritten with nothing lost.
unfoldable pub lossy_branches : List ForcedRef → List ForcedRef
unfolding nothing_lost
lossy_branches fs = keep (λ f. is_branch f.ref && not (nothing_lost f)) fs

unfoldable pub preserved_branches : List ForcedRef → List ForcedRef
unfolding nothing_lost
preserved_branches fs = keep (λ f. is_branch f.ref && nothing_lost f) fs

-- "• <ref>: <old> → <new>"
moved_line : ForcedRef → Text
moved_line f = concat (lit "• " ∷ f.ref ∷ lit ": " ∷ f.old ∷ lit " → " ∷ f.new ∷ [])

overwritten_lines : List ForcedRef → List Text
overwritten_lines [] = []
overwritten_lines (f ∷ fs) = moved_line f ∷ (lost_commit_lines f ++ overwritten_lines fs)

recovery_line : ForcedRef → Text
recovery_line f = lit "  git fetch <clone-url> " ++ f.old

kept_line : ForcedRef → Text
kept_line f = concat (moved_line f ∷ lit " (" ∷ rewrite_note f ∷ lit ")" ∷ [])

-- `forcedReport`; `elapsed` is the printed duration
pub record ForcedReport : Type 0 where
  pub route : Text
  pub dest : Text
  pub target : Text
  pub elapsed : Text
  pub forced : List ForcedRef

kept_part : List ForcedRef → Text
kept_part [] = []
kept_part (f ∷ fs) =
    lit "\n\nAlso rewritten in this push, with nothing lost:\n"
    ++ join (map kept_line (f ∷ fs)) (lit "\n")

-- The body of the alert of `reportForced`, before the source line.
unfoldable pub forced_body : ForcedReport → Text
unfolding overwritten_lines moved_line recovery_line kept_line kept_part
forced_body rep =
    let lossy = lossy_branches rep.forced in
    concat (
      lit "Overwritten refs:\n"
      ∷ join (overwritten_lines lossy) (lit "\n")
      ∷ lit
          "\n\nSync succeeded, but the push overwrote a branch at the destination and may have discarded commits there.\nRoute: "
      ∷ rep.route
      ∷ lit "\nDuration: "
      ∷ rep.elapsed
      ∷ lit "\nTarget: "
      ∷ rep.target
      ∷ lit "\n\nCommits reachable only from an old tip are gone from "
      ∷ rep.dest
      ∷ lit ". They survive until git garbage-collects them — recover with:\n"
      ∷ join (map recovery_line lossy) (lit "\n")
      ∷ kept_part (preserved_branches rep.forced)
      ∷ [])
