-- ===== src/Mirror/Runner/Commands.antt =====
-- internal/mirror/mirror.go: the methods of `defaultGitRunner` that run one command each.
use git_bridge.Base.{
  Text, ℕ, List, [], ◌∷◌, ◌++◌, Option, none, some, Bool, true, false, lit, concat, ◌==◌,
  if◌then◌else◌, split, cut, trim_space, Map,
}
use git_bridge.Errors.{Error, Result, value, failed, plain, quote}
use git_bridge.Mirror.{full_ref_name}
use git_bridge.Mirror.Git.{UnmatchedReport}
use git_bridge.Mirror.Runner.{parse_ref_tips}
use git_bridge.Mirror.Runner.Lost.{unmatched_commits}
use git_bridge.Mirror.Runner.Push.{Exec, Host, git_remote_env, remote_args}
use git_bridge.Provider.{Remote}

-- Two commands, the first piped into the second: the pipe or the first does not come up, or both end.
pub data Piped : Type 0 where
  no_pipe not_started : Text → Piped
  ended : Exec → Exec → Piped

-- The machine that the runner works on: git with a remote and without one, where a local command that
-- only reads leaves the world as it is; and the file system. An error of the file system is its text.
pub record Machine (W : Type 0) : Type 0 where
  pub host : Host W
  pub read_git : List Text → W → Exec
  pub write_git : List Text → W → Exec × W
  pub pipe_git : List Text → List Text → W → Piped
  pub mkdir_all : Text → W → Option Text × W
  pub remove_all : Text → W → Option Text × W
  pub remove : Text → W → Option Text × W
  pub rename : Text → Text → W → Option Text × W
  -- the names in a directory, each with the time since it was written, in nanoseconds, if that is known
  pub read_dir : Text → W → Option (List (Text × Option ℕ))
  pub has_user_info : Text → Bool  -- does the address parse, with a user in it?
  pub scan_counts : Text → Option (ℕ × ℕ)
  pub is_file : Text → W → Bool
  pub clock : W → ℕ
  pub show_duration : ℕ → Text

-- fmt.Errorf("<label>: %w: %s", err, text)
abbrev pub command_error : Text → Text → Text → Error
command_error label err text = plain (concat (label ∷ lit ": " ∷ err ∷ lit ": " ∷ text ∷ []))

-- The error of a command, with what it has printed.
abbrev pub ran : Text → Text → Option Text → Option Error
ran label text none = none
ran label text (some err) = some (command_error label err text)

-- The output of a command, or its error.
abbrev pub printed {ℓ} : {A : Type ℓ} → Text → Exec → Option Text → (Text → A) → Result A
printed label out none use_output = value (use_output out.stdout)
printed label out (some err) use_output = failed (command_error label err out.stderr)

abbrev pub succeeded : Option Text → Bool
succeeded none = true
succeeded (some err) = false

-- The loop of `ListRefs`
pub trimmed_lines : List Text → List Text
trimmed_lines [] = []
trimmed_lines (raw ∷ raws) =
    let rest = trimmed_lines raws in
    let line = trim_space raw in if line == [] then rest else line ∷ rest

-- The end of `RefTip`: an absent ref has the empty tip.
unfoldable pub first_tip : Text → Text
first_tip output =
    let out = trim_space output in
    if out == []
    then []
    else elim (cut out (9 ∷ [])) [ none ↦ trim_space out | some (sha, rest) ↦ trim_space sha ]

abbrev patch_id_args : List Text
patch_id_args =
    lit "log"
    ∷ lit "-p"
    ∷ lit "--binary"
    ∷ lit "--no-merges"
    ∷ lit "--no-color"
    ∷ lit "--no-ext-diff"
    ∷ lit "--no-textconv"
    ∷ lit "--no-renames"
    ∷ lit "--src-prefix=a/"
    ∷ lit "--dst-prefix=b/"
    ∷ lit "--format=commit %H"
    ∷ []

-- The end of `patchIDs`: the error of the second command comes first.
patches_read : Text → Text → Exec → Option Text → Option Text → Exec → Result Text
patches_read side range log_run (some err) log_err id_run =
    failed
      (command_error (concat (lit "patch-id " ∷ side ∷ lit " " ∷ range ∷ [])) err id_run.stderr)
patches_read side range log_run none (some err) id_run =
    failed (command_error (concat (lit "log -p " ∷ side ∷ lit " " ∷ range ∷ [])) err log_run.stderr)
patches_read side range log_run none none id_run = value id_run.stdout

piped_patches : Text → Text → Piped → Result Text
unfolding patches_read
piped_patches side range (no_pipe err) =
    failed (plain (concat (lit "patch-id " ∷ side ∷ lit " " ∷ range ∷ lit ": " ∷ err ∷ [])))
piped_patches side range (not_started err) =
    failed (plain (concat (lit "log -p " ∷ side ∷ lit " " ∷ range ∷ lit ": " ∷ err ∷ [])))
piped_patches side range (ended log_run id_run) =
    patches_read side range log_run id_run.err log_run.err id_run

-- `args[0]` of `gitOutput`, which has arguments
first_word : List Text → Text
first_word [] = []
first_word (a ∷ rest) = a

module _ {W : Type 0} (m : Machine W) where
  -- A command of `newGitRemoteCmd`
  unfoldable pub run_remote : Remote → List Text → W → Exec × W
  run_remote rem args w = m.host.run_git (remote_args rem args) (git_remote_env m.host rem) w

  -- `gitOutput`
  unfoldable pub git_output : Text → W → List Text → Result Text
  unfolding first_word
  git_output dir w args =
      let out = m.read_git (lit "-C" ∷ dir ∷ args) w in
      printed (lit "git " ++ first_word args) out out.err trim_space

  -- `patchIDs`, before its output is parsed
  unfoldable pub patches : Text → W → Text → Text → Result Text
  unfolding piped_patches
  patches dir w side range = piped_patches side range (
      m.pipe_git (lit "-C" ∷ dir ∷ (patch_id_args ++ (side ∷ range ∷ [])))
        (lit "-C" ∷ dir ∷ lit "patch-id" ∷ lit "--verbatim" ∷ []) w)

  -- `UnmatchedCommits` in this directory
  unfoldable pub unmatched_in : Text → Text → Text → W → Result UnmatchedReport
  unfolding git_output patches
  unmatched_in dir kept discarded w =
      unmatched_commits (git_output dir w) (patches dir w) m.scan_counts kept discarded

  -- `ListRefs`
  unfoldable pub list_refs : Text → W → Result (List Text)
  unfolding trimmed_lines
  list_refs dir w =
      let out =
        m.read_git
          (lit "-C"
            ∷ dir
            ∷ lit "for-each-ref"
            ∷ lit "--format=%(refname)"
            ∷ lit "refs/heads/"
            ∷ lit "refs/tags/"
            ∷ [])
          w in
      printed (lit "for-each-ref") out out.err (λ text. trimmed_lines (split text 10))

  -- `ListRefTips`
  unfoldable pub list_ref_tips : Text → W → Result (Map Text)
  list_ref_tips dir w =
      let out =
        m.read_git
          (lit "-C"
            ∷ dir
            ∷ lit "for-each-ref"
            ∷ lit "--format=%(objectname) %(refname)"
            ∷ lit "refs/heads/"
            ∷ lit "refs/tags/"
            ∷ [])
          w in
      printed (lit "for-each-ref tips") out out.err (λ text. parse_ref_tips text (lit " "))

  -- `RemoteRefs`
  unfoldable pub remote_refs : Remote → W → Result (Map Text) × W
  unfolding run_remote
  remote_refs rem w =
      let (out, w') =
        run_remote rem (lit "ls-remote" ∷ lit "--heads" ∷ lit "--tags" ∷ rem.url ∷ []) w in
      (printed (lit "ls-remote refs") out out.err (λ text. parse_ref_tips text (9 ∷ [])), w')

  -- `IsAncestor`
  unfoldable pub is_ancestor : Text → Text → Text → W → Bool
  is_ancestor dir ancestor descendant w =
      succeeded
        (m.read_git
          (lit "-C" ∷ dir ∷ lit "merge-base" ∷ lit "--is-ancestor" ∷ ancestor ∷ descendant ∷ [])
          w).err

  -- `HasObject`
  unfoldable pub has_object : Text → Text → W → Bool
  has_object dir sha w =
      succeeded
        (m.read_git (lit "-C" ∷ dir ∷ lit "cat-file" ∷ lit "-e" ∷ (sha ++ lit "^{commit}") ∷ [])
          w).err

  -- `CommitAuthor`
  unfoldable pub commit_author : Text → Text → W → Result Text
  commit_author dir ref w =
      let out =
        m.read_git (lit "-C" ∷ dir ∷ lit "log" ∷ lit "-1" ∷ lit "--format=%an" ∷ ref ∷ []) w in
      elim out.err [
        | none ↦ value (trim_space out.combined)
        | some err ↦ failed (command_error (lit "git log for ref " ++ quote ref) err out.combined)
      ]

  -- `FetchMirror`
  unfoldable pub fetch_mirror : Remote → Text → W → Option Error × W
  unfolding run_remote
  fetch_mirror rem dir w =
      let (out, w') =
        run_remote rem
          (lit "-C" ∷ dir ∷ lit "fetch" ∷ lit "--prune" ∷ rem.url ∷ lit "+refs/*:refs/*" ∷ []) w in
      (ran (lit "fetch mirror") out.combined out.err, w')

  -- `RefTip`
  unfoldable pub ref_tip : Remote → Text → Text → W → Result Text × W
  unfolding run_remote first_tip
  ref_tip rem ref_type ref_name w =
      let ref = full_ref_name ref_type ref_name in
      let (out, w') = run_remote rem (lit "ls-remote" ∷ rem.url ∷ ref ∷ []) w in
      (printed (lit "ls-remote " ++ ref) out out.err first_tip, w')

  -- `FetchObject`
  unfoldable pub fetch_object : Text → Remote → Text → W → Option Error × W
  unfolding run_remote
  fetch_object dir rem sha w =
      let (out, w') =
        run_remote rem (lit "-C" ∷ dir ∷ lit "fetch" ∷ lit "--no-tags" ∷ rem.url ∷ sha ∷ []) w in
      (ran (lit "fetch object " ++ sha) out.stderr out.err, w')

  -- `CreateRef`
  unfoldable pub create_ref : Text → Remote → Text → Text → W → Option Error × W
  unfolding run_remote
  create_ref dir rem sha full_ref w =
      let (out, w') =
        run_remote rem
          (lit "-C"
            ∷ dir
            ∷ lit "push"
            ∷ (lit "--force-with-lease=" ++ (full_ref ++ lit ":"))
            ∷ rem.url
            ∷ (sha ++ (lit ":" ++ full_ref))
            ∷ [])
          w in
      (ran (lit "create ref " ++ full_ref) out.stderr out.err, w')

  -- A directory is made, and git makes it a bare repository; then the rest runs.
  unfoldable pub with_bare_dir : Text → Text → W → (W → Option Error × W) → Option Error × W
  with_bare_dir label dir w rest =
      let (unmade, w₁) = m.mkdir_all dir w in
      let (out, w₂) = m.write_git (lit "init" ∷ lit "--bare" ∷ dir ∷ []) w₁ in
      let after = rest w₂ in
      elim unmade [
        | some err ↦ (some (plain (concat (lit "create work dir: " ∷ err ∷ []))), w₁)
        | none ↦ elim out.err [
          | some err ↦ (some (plain (concat (label ∷ lit ": " ∷ err ∷ []))), w₂)
          | none ↦ after
        ]
      ]

  -- `EnsureBareDir`
  unfoldable pub ensure_bare_dir : Text → W → Option Error × W
  unfolding with_bare_dir
  ensure_bare_dir dir w = with_bare_dir (lit "git init " ++ dir) dir w (λ w'. (none, w'))

  -- `DeleteRef`
  unfoldable pub delete_ref : Text → Remote → Text → Text → W → Option Error × W
  unfolding with_bare_dir run_remote
  delete_ref work_dir rem ref_type ref_name w = with_bare_dir (lit "git init") work_dir w λ w₁.
      let (out, w₂) =
        run_remote rem
          (lit "-C"
            ∷ work_dir
            ∷ lit "push"
            ∷ rem.url
            ∷ (lit ":" ++ full_ref_name ref_type ref_name)
            ∷ [])
          w₁ in
      (ran (lit "push delete ref") out.combined out.err, w₂)
