-- ===== src/Mirror/Runner/Lost/Sorted.antt =====
-- internal/mirror/mirror.go, `UnmatchedCommits`: which commits an overwrite has lost, said apart from the
-- code.
use mathlib.Core.List.{Memᴰ}
use git_bridge.Base.{
  Text, List, [], ◌∷◌, none, some, Bool, true, false, ◌==◌, ==_iff, ◌≡◌, refl, sym, ◌⊎◌, inl, inr,
  Map, lookup, member, Bool-cases, Option-cases, arith,
}
use git_bridge.History.{LostCommit}
use git_bridge.Mirror.Runner.Lost.{SideCommit, patch_kept, content_gone}

-- Is this patch one of these?
abbrev pub Among : Text → List (Text × Text) → Type 0
Among id [] = ⊥
Among id ((sha, other) ∷ rest) = (other ≡ id) ⊎ Among id rest

-- The kept side lacks what the commit carries: it is a merge, or has a patch that is none of the kept
-- side's. The patches are named by commit.
abbrev pub Gone : Map Text → Map Text → SideCommit → Type 0
Gone kept discarded c =
    (c.merge ≡ true)
    ⊎ ((id : Text) × (lookup c.commit.sha discarded ≡ some id) × (Among id kept → ⊥))

-- The commit is no merge, and has no patch or one that the kept side has as well.
abbrev pub Held : Map Text → Map Text → SideCommit → Type 0
Held kept discarded c =
    (c.merge ≡ false)
    × ((lookup c.commit.sha discarded ≡ none)
        ⊎ ((id : Text) × (lookup c.commit.sha discarded ≡ some id) × Among id kept))

-- The commits in order, sorted into those that are gone and on no branch, and those that are gone but that
-- a branch reaches.
pub data Sorted (kept discarded : Map Text) (branchless : List Text)
    : List SideCommit → List LostCommit → List LostCommit → Type 0 where
  done : Sorted kept discarded branchless [] [] []
  held :
      (c : SideCommit) (cs : List SideCommit) (lost moved : List LostCommit)
      → Held kept discarded c
      → Sorted kept discarded branchless cs lost moved
      → Sorted kept discarded branchless (c ∷ cs) lost moved
  lost_one :
      (c : SideCommit) (cs : List SideCommit) (lost moved : List LostCommit)
      → Gone kept discarded c
      → Memᴰ c.commit.sha branchless
      → Sorted kept discarded branchless cs lost moved
      → Sorted kept discarded branchless (c ∷ cs) (c.commit ∷ lost) moved
  moved_one :
      (c : SideCommit) (cs : List SideCommit) (lost moved : List LostCommit)
      → Gone kept discarded c
      → (Memᴰ c.commit.sha branchless → ⊥)
      → Sorted kept discarded branchless cs lost moved
      → Sorted kept discarded branchless (c ∷ cs) lost (c.commit ∷ moved)

patch_kept-Among : (id : Text) (kept : Map Text) → patch_kept id kept ≡ true → Among id kept
unfolding patch_kept
patch_kept-Among id [] h = cc
patch_kept-Among id ((sha, other) ∷ rest) h = elim (Bool-cases (other == id)) [
  | inl same ↦ inl ((==_iff other id).0 same)
  | inr apart ↦ inr (patch_kept-Among id rest (rw apart at h))
]

Among-patch_kept : (id : Text) (kept : Map Text) → Among id kept → patch_kept id kept ≡ true
unfolding patch_kept
Among-patch_kept id [] h = absurd h
Among-patch_kept id ((sha, other) ∷ rest) (inl same) = rw ((==_iff other id).1 same) refl
Among-patch_kept id ((sha, other) ∷ rest) (inr more) =
    let below = Among-patch_kept id rest more in ground (arith, below)

module _ (kept discarded : Map Text) where
  pub content_gone-Gone :
      (c : SideCommit) → content_gone kept discarded c ≡ true → Gone kept discarded c
  unfolding content_gone
  content_gone-Gone c h = elim (Bool-cases c.merge) [
    | inl merge ↦ inl merge
    | inr plain_one ↦ elim (Option-cases (lookup c.commit.sha discarded)) [
      | inl missing ↦ absurd (ground (arith, h, plain_one, missing))
      | inr (id, there) ↦
          inr (
            id,
            there,
            λ among. ground (arith, h, plain_one, there, Among-patch_kept id kept among),
          )
    ]
  ]

  pub content_kept-Held :
      (c : SideCommit) → content_gone kept discarded c ≡ false → Held kept discarded c
  unfolding content_gone
  content_kept-Held c h = elim (Option-cases (lookup c.commit.sha discarded)) [
    | inl missing ↦ (ground (arith, h), inl missing)
    | inr (id, there) ↦
        (ground (arith, h), inr (id, there, patch_kept-Among id kept (ground (arith, h, there))))
  ]

pub not_both : (b : Bool) → b ≡ true → b ≡ false → ⊥
not_both true h k = cc
not_both false h k = cc

pub member-Memᴰ : (k : Text) (js : List Text) → member k js ≡ true → Memᴰ k js
unfolding member
member-Memᴰ k [] h = cc
member-Memᴰ k (j ∷ js) h = elim (Bool-cases (j == k)) [
  | inl same ↦ Memᴰ.head (sym ((==_iff j k).0 same))
  | inr apart ↦ Memᴰ.tail (member-Memᴰ k js (rw apart at h))
]

pub Memᴰ-member : (k : Text) (js : List Text) → Memᴰ k js → member k js ≡ true
unfolding member
Memᴰ-member k [] mem = elim mem [ ]
Memᴰ-member k (j ∷ js) (Memᴰ.head e) = rw ((==_iff j k).1 (sym e)) refl
Memᴰ-member k (j ∷ js) (Memᴰ.tail mem) = let below = Memᴰ-member k js mem in ground (arith, below)
