-- ===== src/Mirror/Runner/Push.antt =====
-- internal/mirror/mirror.go: how a push is run (`newGitRemoteCmd`, `runPush`, `PushMirror`). Running git is a
-- function of the command line and the environment, on the world; timeouts and process groups are its own.
pub mod Batches
pub mod Unforced
use git_bridge.Base.{
  Text, ℕ, zero, suc, List, [], ◌∷◌, ◌++◌, Option, none, some, Bool, true, false, ◌||◌, not, lit,
  concat, ◌==◌, if◌then◌else◌, take, drop, is_empty, length,
}
use git_bridge.Errors.{Result, value, failed, plain}
use git_bridge.Mirror.Git.{PushSpec, PushResult}
use git_bridge.Mirror.Runner.{parse_push, all_stale_lease, no_change}
use git_bridge.Provider.{Remote, has_credentials}

-- What a finished command leaves: its two streams and both in one, the error if it failed, whether it
-- exited with code 1, and whether its context had run out of time.
pub record Exec : Type 0 where
  pub stdout : Text
  pub stderr : Text
  pub combined : Text
  pub err : Option Text
  pub exit_one : Bool
  pub deadline_exceeded : Bool

-- `credentialFlags`
abbrev pub credential_flags : List Text
credential_flags =
    lit "-c" ∷ lit "credential.interactive=true" ∷ lit "-c" ∷ lit "credential.helper=" ∷ []

-- What the process has of its surroundings: os.Environ and the path of its own executable, which is empty
-- where it is not found, and git itself.
pub record Host (W : Type 0) : Type 0 where
  pub environ : List Text
  pub askpass_helper : Text
  pub run_git : List Text → List Text → W → Exec × W

-- `gitRemoteEnv`
unfoldable pub git_remote_env : {W : Type 0} → Host W → Remote → List Text
git_remote_env h rem =
    let env = h.environ ++ (lit "GIT_TERMINAL_PROMPT=0" ∷ []) in
    if not (has_credentials rem) || h.askpass_helper == []
    then env
    else env
      ++ ((lit "GIT_ASKPASS=" ++ h.askpass_helper)
          ∷ lit "GIT_BRIDGE_ASKPASS=1"
          ∷ (lit "GIT_BRIDGE_ASKPASS_USERNAME=" ++ rem.username)
          ∷ (lit "GIT_BRIDGE_ASKPASS_PASSWORD=" ++ rem.password)
          ∷ lit "LC_ALL=C"
          ∷ [])

-- `newGitRemoteCmd`: the arguments
unfoldable pub remote_args : Remote → List Text → List Text
remote_args rem args = if has_credentials rem then credential_flags ++ args else args

-- The end of `runPush`.
pub push_read : Text → Exec → Option Text → Result PushResult
push_read label out none = value (parse_push out.stdout)
push_read label out (some err) =
    if out.deadline_exceeded
    then failed (
        plain (
          concat
            (label ∷ lit ": timed out (deadline exceeded): " ∷ err ∷ lit ": " ∷ out.stderr ∷ [])))
    else if all_stale_lease (parse_push out.stdout).rejected
    then value (parse_push out.stdout)
    else failed (plain (concat (label ∷ lit ": " ∷ err ∷ lit ": " ∷ out.stderr ∷ [])))

-- The two arguments of each ref: its lease, and the refspec without a plus.
unfoldable pub spec_args : List PushSpec → List Text
spec_args [] = []
spec_args (s ∷ ss) =
    (lit "--force-with-lease=" ++ (s.ref ++ (lit ":" ++ s.lease)))
    ∷ (s.ref ++ (lit ":" ++ s.ref))
    ∷ spec_args ss

-- The command line that `runPush` builds of its own arguments.
unfoldable pub push_line : Text → Remote → List Text → List Text
unfolding remote_args
push_line dir rem push_args = remote_args rem (
    (lit "-C" ∷ dir ∷ lit "-c" ∷ lit "core.abbrev=40" ∷ lit "push" ∷ lit "--porcelain" ∷ [])
    ++ push_args)

abbrev pub push_batch_size : ℕ
push_batch_size = 500

abbrev pub joined : PushResult → PushResult → PushResult
joined res batch = record {
  changed = res.changed || batch.changed;
  forced = res.forced ++ batch.forced;
  rejected = res.rejected ++ batch.rejected;
}

abbrev pub after_batch :
    {W : Type 0}
    → (PushResult → W → Result PushResult × W)
    → PushResult
    → Result PushResult × W
    → Result PushResult × W
after_batch next res (failed e, w) = (failed e, w)
after_batch next res (value batch, w) = next (joined res batch) w

module _ {W : Type 0} (h : Host W) (dir : Text) (rem : Remote) where
  -- `runPush`
  unfoldable pub run_push : Text → List Text → W → Result PushResult × W
  unfolding push_line git_remote_env push_read
  run_push label push_args w =
      let (out, w') = h.run_git (push_line dir rem push_args) (git_remote_env h rem) w in
      (push_read label out out.err, w')

  -- One round of the loop of `PushMirror`.
  unfoldable pub push_batch : List PushSpec → W → Result PushResult × W
  unfolding spec_args run_push
  push_batch batch w = run_push (lit "push refs") (rem.url ∷ spec_args batch) w

  -- The loop, over the refs from `start` on; each round takes at least one, so their number is enough fuel.
  unfoldable pub push_loop : ℕ → List PushSpec → PushResult → W → Result PushResult × W
  unfolding push_batch
  push_loop zero specs res w = (value res, w)
  push_loop (suc fuel) specs res w =
      let rest =
        after_batch (push_loop fuel (drop push_batch_size specs)) res
          (push_batch (take push_batch_size specs) w) in
      if is_empty specs then (value res, w) else rest

  -- `PushMirror`
  unfoldable pub push_mirror : List PushSpec → W → Result PushResult × W
  unfolding push_loop
  push_mirror specs w = push_loop (length specs) specs no_change w
