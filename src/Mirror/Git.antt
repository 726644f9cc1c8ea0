-- ===== src/Mirror/Git.antt =====
-- internal/mirror/mirror.go, `GitRunner`: what the service asks of git. `W` is everything outside
-- the process (repositories, directories, the clock). What only reads the mirror directory is a
-- function of the world; whatever writes it, or talks to a remote, returns the next world, in which
-- others may have acted as well.
use git_bridge.Base.{Text, ℕ, List, Bool, Option, Map}
use git_bridge.Errors.{Error, Result}
use git_bridge.History.{ForcedRef, LostCommit}
use git_bridge.Provider.{Remote}

-- `PushSpec`: an empty lease says that the ref must not exist at the destination.
pub record PushSpec : Type 0 where
  pub ref : Text
  pub lease : Text

pub record PushResult : Type 0 where
  pub changed : Bool
  pub forced : List ForcedRef
  pub rejected : List Text

pub record UnmatchedReport : Type 0 where
  pub lost : List LostCommit
  pub total : ℕ
  pub elsewhere : ℕ

pub record Git (W : Type 0) : Type 0 where
  pub clone_mirror : Remote → Text → W → Option Error × W
  pub fetch_mirror : Remote → Text → W → Option Error × W
  pub push_mirror : Text → Remote → List PushSpec → W → Result PushResult × W
  pub list_refs : Text → W → Result (List Text)
  pub list_ref_tips : Text → W → Result (Map Text)
  pub remote_refs : Remote → W → Result (Map Text) × W
  pub is_ancestor : Text → Text → Text → W → Bool
  pub unmatched_commits : Text → Text → Text → W → Result UnmatchedReport
  pub delete_ref : Text → Remote → Text → Text → W → Option Error × W
  pub ref_tip : Remote → Text → Text → W → Result Text × W
  pub ensure_bare_dir : Text → W → Option Error × W
  pub has_object : Text → Text → W → Bool
  pub fetch_object : Text → Remote → Text → W → Option Error × W
  pub create_ref : Text → Remote → Text → Text → W → Option Error × W
  pub commit_author : Text → Text → W → Result Text
  pub gc_auto : Text → W → Option Error × W
  pub sanitize_cache : Text → Remote → W → Option Error × W
  -- the standard library's part: `isGitDir`, os.Rename, os.RemoveAll, the clock in milliseconds, and
  -- how a duration is printed
  pub is_git_dir : Text → W → Bool
  pub rename : Text → Text → W → Option Error × W
  pub remove_all : Text → W → W
  pub clock : W → ℕ
  pub show_duration : ℕ → Text
