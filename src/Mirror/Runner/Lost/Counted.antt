-- ===== src/Mirror/Runner/Lost/Counted.antt =====
-- internal/mirror/mirror.go, `UnmatchedCommits`: what the report counts.
use git_bridge.Base.{
  Text, ℕ, zero, suc, ◌+◌, List, [], ◌∷◌, ◌++◌, Option, none, some, Bool, true, false, ◌&&◌, not,
  lit, if◌then◌else◌, ltb, length, length-append, take, keep, map, Map, member, ◌≡◌, refl, sym, ap,
  ◌∙◌, arith, append_assoc, append-nil, Bool-cases, inl, inr,
}
use git_bridge.Errors.{Result, value, failed, failed_or_value}
use git_bridge.History.{LostCommit, max_lost_commits}
use git_bridge.Mirror.Git.{UnmatchedReport}
use git_bridge.Mirror.Runner.Lost.Sorted.{
  Sorted, done, held, lost_one, moved_one, content_gone-Gone, content_kept-Held, member-Memᴰ,
  Memᴰ-member, not_both,
}
use git_bridge.Mirror.Runner.Lost.{
  SideCommit, parse_side_commits, parse_patch_ids, fields, content_gone, count_lost, count_loop,
  max_classify_commits, and_then, with_commits, with_counts, unmatched_commits,
}

-- A list cut to `n` grows by one while it has room.
take-snoc :
    {A : Type 0} (n : ℕ) (xs : List A) (x : A)
    → (if ltb (length (take n xs)) n then take n xs ++ (x ∷ []) else take n xs)
      ≡ take n (xs ++ (x ∷ []))
take-snoc zero xs x = refl
take-snoc (suc n) [] x = room n
  where
    room : (m : ℕ) → (if ltb 0 (suc m) then x ∷ [] else []) ≡ x ∷ take m []
    room zero = ground arith
    room (suc m) = ground arith
take-snoc (suc n) (y ∷ ys) x =
    branch (ltb (length (take n ys)) n) (ltb (suc (length (take n ys))) (suc n)) (ground arith)
    ∙ ap (λ l. y ∷ l) (take-snoc n ys x)
  where
    branch :
        (small big : Bool)
        → big ≡ small
        → (if big then y ∷ (take n ys ++ (x ∷ [])) else y ∷ take n ys)
          ≡ y ∷ (if small then take n ys ++ (x ∷ []) else take n ys)
    branch true big same = rw same refl
    branch false big same = rw same refl

plus_nothing : (n : ℕ) → n ≡ n + 0
plus_nothing n = omega arith

module _ (kept discarded : Map Text) (branchless : List Text) where
  -- The commits whose content is gone and that no branch reaches, and those that another branch reaches.
  pub lost_commits : List SideCommit → List LostCommit
  lost_commits cs =
      map (λ c. c.commit)
        (keep (λ c. content_gone kept discarded c && member c.commit.sha branchless) cs)

  pub moved_commits : List SideCommit → List LostCommit
  moved_commits cs =
      map (λ c. c.commit)
        (keep (λ c. content_gone kept discarded c && not (member c.commit.sha branchless)) cs)

  -- The report on a list of such commits.
  abbrev pub counted : List LostCommit → ℕ → UnmatchedReport
  counted lost elsewhere = record {
    lost = take max_lost_commits lost;
    total = length lost;
    elsewhere = elsewhere;
  }

  count_lost-counted :
      (lost : List LostCommit) (elsewhere : ℕ) (c : LostCommit)
      → count_lost (counted lost elsewhere) c ≡ counted (lost ++ (c ∷ [])) elsewhere
  count_lost-counted lost elsewhere c = λ i. record {
    lost = take-snoc 10 lost c i;
    total = sym (length-append lost (c ∷ [])) i;
    elsewhere = elsewhere;
  }

  count_loop-counted :
      (cs : List SideCommit) (lost : List LostCommit) (elsewhere : ℕ)
      → count_loop kept discarded branchless cs (counted lost elsewhere)
        ≡ counted (lost ++ lost_commits cs) (elsewhere + length (moved_commits cs))
  unfolding count_loop lost_commits moved_commits
  count_loop-counted [] lost elsewhere =
      λ i. counted (sym (append-nil lost) i) (plus_nothing elsewhere i)
  count_loop-counted (c ∷ cs) lost elsewhere = elim (Bool-cases (content_gone kept discarded c)) [
    | inr there ↦ rw there (count_loop-counted cs lost elsewhere)
    | inl gone ↦ elim (Bool-cases (member c.commit.sha branchless)) [
      | inr elsewhere_too ↦
          rw (gone, elsewhere_too)
            (count_loop-counted cs lost (elsewhere + 1)
              ∙ ap (counted (lost ++ lost_commits cs)) (omega arith))
      | inl nowhere ↦
          rw (gone, nowhere)
            (ap (count_loop kept discarded branchless cs)
                (count_lost-counted lost elsewhere c.commit)
              ∙ count_loop-counted cs (lost ++ (c.commit ∷ [])) elsewhere
              ∙ ap (λ l. counted l (elsewhere + length (moved_commits cs)))
                  (append_assoc lost (c.commit ∷ []) (lost_commits cs)))
    ]
  ]

module _ (kept discarded : Map Text) (branchless : List Text) where
  commits-Sorted :
      (cs : List SideCommit)
      → Sorted kept discarded branchless cs
          (lost_commits kept discarded branchless cs)
          (moved_commits kept discarded branchless cs)
  unfolding lost_commits moved_commits
  commits-Sorted [] = done
  commits-Sorted (c ∷ cs) = elim (Bool-cases (content_gone kept discarded c)) [
    | inr there ↦
        rw there (held c cs _ _ (content_kept-Held kept discarded c there) (commits-Sorted cs))
    | inl gone ↦ elim (Bool-cases (member c.commit.sha branchless)) [
      | inl nowhere ↦
          rw (gone, nowhere)
            (lost_one c cs _ _ (content_gone-Gone kept discarded c gone)
              (member-Memᴰ c.commit.sha branchless nowhere) (commits-Sorted cs))
      | inr reached ↦
          rw (gone, reached)
            (moved_one c cs _ _ (content_gone-Gone kept discarded c gone)
              (λ mem.
                not_both (member c.commit.sha branchless) (Memᴰ-member c.commit.sha branchless mem)
                  reached)
              (commits-Sorted cs))
    ]
  ]

value_same : {A : Type 0} (a b : A) → value a ≡ value b → a ≡ b
value_same a b h = cc

and_then-value {ℓ κ} :
    {A : Type ℓ} {B : Type κ} (m : Result A) (f : A → Result B) (b : B)
    → and_then m f ≡ value b
    → (a : A) × (m ≡ value a) × (f a ≡ value b)
and_then-value (failed e) f b h = absurd (failed_or_value e b h)
and_then-value (value a) f b h = (a, refl, h)

module _ (git_output : List Text → Result Text) (patches : Text → Text → Result Text)
    (scan_counts : Text → Option (ℕ × ℕ)) (kept discarded : Text) where
  abbrev range : Text
  range = kept ++ (lit "..." ++ discarded)

  -- What git has said of the two sides, and the report that counts it.
  pub record Compared (rep : UnmatchedReport) : Type 0 where
    pub listing : Text
    pub commits : List SideCommit
    pub kept_ids : Map Text
    pub discarded_ids : Map Text
    pub branchless : Text
    pub listed :
        git_output
          (lit "log" ∷ lit "--right-only" ∷ lit "--format=%H%x00%P%x00%an%x00%s" ∷ range ∷ [])
        ≡ value listing
    pub parsed : parse_side_commits listing ≡ value commits
    pub kept_read : and_then (patches (lit "--left-only") range) parse_patch_ids ≡ value kept_ids
    pub discarded_read :
        and_then (patches (lit "--right-only") range) parse_patch_ids ≡ value discarded_ids
    pub branches :
        git_output (lit "rev-list" ∷ discarded ∷ lit "--not" ∷ lit "--branches" ∷ [])
        ≡ value branchless
    pub lost_ones : List LostCommit
    pub moved_ones : List LostCommit
    pub sorted : Sorted kept_ids discarded_ids (fields branchless) commits lost_ones moved_ones
    pub counts : rep ≡ record {
      lost = take 10 lost_ones;
      total = length lost_ones;
      elsewhere = length moved_ones;
    }

  with_commits-Compared :
      (listing : Text) (r : Result (List SideCommit)) (rep : UnmatchedReport)
      → git_output
          (lit "log" ∷ lit "--right-only" ∷ lit "--format=%H%x00%P%x00%an%x00%s" ∷ range ∷ [])
        ≡ value listing
      → parse_side_commits listing ≡ r
      → with_commits git_output patches scan_counts discarded range r ≡ value rep
      → Compared rep
  unfolding with_commits
  with_commits-Compared listing (failed e) rep listed parsed h = absurd (failed_or_value _ rep h)
  with_commits-Compared listing (value commits) rep listed parsed h =
      let (kept_ids, kept_read, next) = and_then-value _ _ rep h in
      let (discarded_ids, discarded_read, last) = and_then-value _ _ rep next in
      let (branchless, branches, counts) = and_then-value _ _ rep last in
      record {
        listing = listing;
        commits = commits;
        kept_ids = kept_ids;
        discarded_ids = discarded_ids;
        branchless = branchless;
        listed = listed;
        parsed = parsed;
        kept_read = kept_read;
        discarded_read = discarded_read;
        branches = branches;
        lost_ones = lost_commits kept_ids discarded_ids (fields branchless) commits;
        moved_ones = moved_commits kept_ids discarded_ids (fields branchless) commits;
        sorted = commits-Sorted kept_ids discarded_ids (fields branchless) commits;
        counts =
            sym (value_same _ rep counts)
            ∙ count_loop-counted kept_ids discarded_ids (fields branchless) commits [] 0
            ∙ ap
                (counted kept_ids discarded_ids (fields branchless)
                  (lost_commits kept_ids discarded_ids (fields branchless) commits))
                (omega arith);
      }

  with_counts-Compared :
      (counts : Text) (o : Option (ℕ × ℕ)) (rep : UnmatchedReport)
      → with_counts git_output patches scan_counts discarded range counts o ≡ value rep
      → Compared rep
  unfolding with_counts
  with_counts-Compared counts none rep h = absurd (failed_or_value _ rep h)
  with_counts-Compared counts (some (left, right)) rep h =
      elim (Bool-cases (ltb max_classify_commits (left + right))) [
        | inl too_far ↦ absurd (failed_or_value _ rep (rw too_far at h))
        | inr near ↦
            let (listing, listed, next) = and_then-value _ _ rep (rw near at h) in
            with_commits-Compared listing (parse_side_commits listing) rep listed refl next
      ]

  -- When `UnmatchedCommits` gives a report, it counts the commits of the discarded side, as git lists
  -- them, that are gone: the merges, and those whose patch is none of the kept side's. The gone ones that
  -- no branch reaches are the total, and the first ten of them are listed, in git's order; the gone ones
  -- that a branch reaches are counted apart. A commit that is no merge, and has no patch or one of the
  -- kept side's, is not counted.
  pub unmatched_commits-Compared :
      (rep : UnmatchedReport)
      → unmatched_commits git_output patches scan_counts kept discarded ≡ value rep
      → Compared rep
  unfolding unmatched_commits
  unmatched_commits-Compared rep h =
      let (counts, ran, next) =
        and_then-value
          (git_output (lit "rev-list" ∷ lit "--count" ∷ lit "--left-right" ∷ range ∷ []))
          (λ counts.
            with_counts git_output patches scan_counts discarded range counts (scan_counts counts))
          rep h in
      with_counts-Compared counts (scan_counts counts) rep next
