-- ===== src/Mirror/Runner/Blind.antt =====
-- internal/mirror/mirror.go, `defaultGitRunner`: what of a remote's credentials its commands carry.
use git_bridge.Base.{
  is_empty, lit, ◌++◌, Option, none, some, Text, ℕ, zero, suc, List, [], ◌∷◌, if◌then◌else◌, ◌≡◌,
  refl, ap, take, drop, length,
}
use git_bridge.Errors.{Result, value, failed}
use git_bridge.Mirror.{full_ref_name}
use git_bridge.Mirror.Runner.{no_change}
use git_bridge.Mirror.Git.{PushSpec, PushResult}
use git_bridge.Mirror.Runner.Cache.{
  default_git_runner, clone_mirror, sanitize_cache, sanitized, cloned_after, told,
}
use git_bridge.Mirror.Runner.Commands.{
  Machine, run_remote, remote_refs, fetch_mirror, ref_tip, fetch_object, create_ref, delete_ref,
  with_bare_dir, ran,
}
use git_bridge.Mirror.Runner.Push.{
  push_read, after_batch, Exec, remote_args, git_remote_env, push_line, push_mirror, push_loop,
  push_batch, run_push,
}
use git_bridge.Provider.{Remote, has_credentials}

module _ {W : Type 0} (m : Machine W) (url user password user' password' : Text)
    (both : has_credentials (record { url = url; username = user; password = password })
      ≡ has_credentials (record { url = url; username = user'; password = password' })) where
  abbrev one : Remote
  one = record { url = url; username = user; password = password }

  abbrev other : Remote
  other = record { url = url; username = user'; password = password' }

  -- The same machine, but for a git that is always handed the environment of `one`.
  abbrev handed : Machine W
  handed = record m {
    host = record m.host {
      run_git = λ args env w. m.host.run_git args (git_remote_env m.host one) w;
    };
  }

  same_args : (args : List Text) → remote_args one args ≡ remote_args other args
  unfolding remote_args
  same_args args = rw both refl

  same_run : (args : List Text) (w : W) → run_remote m one args w ≡ run_remote handed other args w
  unfolding run_remote
  same_run args w = ap (λ a. m.host.run_git a (git_remote_env m.host one) w) (same_args args)

  same_clone : (dir : Text) (w : W) → clone_mirror m one dir w ≡ clone_mirror handed other dir w
  unfolding clone_mirror
  same_clone dir w =
      let tmp_dir = dir ++ lit ".tmp" in
      let w' = (m.remove_all tmp_dir w).1 in
      ap (cloned_after m tmp_dir dir (m.remove_all tmp_dir w).0 w')
        (same_run (lit "clone" ∷ lit "--mirror" ∷ url ∷ tmp_dir ∷ []) w')

  same_fetch : (dir : Text) (w : W) → fetch_mirror m one dir w ≡ fetch_mirror handed other dir w
  unfolding fetch_mirror
  same_fetch dir w = rw (same_run _ w) refl

  same_refs : (w : W) → remote_refs m one w ≡ remote_refs handed other w
  unfolding remote_refs
  same_refs w = rw (same_run _ w) refl

  same_tip :
      (ref_type ref_name : Text) (w : W)
      → ref_tip m one ref_type ref_name w ≡ ref_tip handed other ref_type ref_name w
  unfolding ref_tip
  same_tip ref_type ref_name w = rw (same_run _ w) refl

  same_object :
      (dir sha : Text) (w : W) → fetch_object m dir one sha w ≡ fetch_object handed dir other sha w
  unfolding fetch_object
  same_object dir sha w = rw (same_run _ w) refl

  same_create :
      (dir sha ref : Text) (w : W)
      → create_ref m dir one sha ref w ≡ create_ref handed dir other sha ref w
  unfolding create_ref
  same_create dir sha ref w = rw (same_run _ w) refl

  same_delete :
      (dir ref_type ref_name : Text) (w : W)
      → delete_ref m dir one ref_type ref_name w ≡ delete_ref handed dir other ref_type ref_name w
  unfolding delete_ref
  same_delete dir ref_type ref_name w = ap (with_bare_dir m (lit "git init") dir w) (λ i w'.
      let (out, w'') =
        same_run
          (lit "-C" ∷ dir ∷ lit "push" ∷ url ∷ (lit ":" ++ full_ref_name ref_type ref_name) ∷ []) w'
          i in
      (ran (lit "push delete ref") out.combined out.err, w''))

  same_sanitized :
      (dir : Text) (r : Result (Option Text)) (w : W)
      → sanitized m dir one r w ≡ sanitized handed dir other r w
  unfolding sanitized
  same_sanitized dir (failed e) w = refl
  same_sanitized dir (value none) w = refl
  same_sanitized dir (value (some cur)) w = refl

  same_sanitize :
      (dir : Text) (w : W) → sanitize_cache m dir one w ≡ sanitize_cache handed dir other w
  unfolding sanitize_cache
  same_sanitize dir w = same_sanitized dir _ w

  same_push_run :
      (dir label : Text) (args : List Text) (w : W)
      → run_push m.host dir one label args w ≡ run_push handed.host dir other label args w
  unfolding run_push push_line run_remote
  same_push_run dir label args w =
      ap (λ (ended : Exec × W). (push_read label ended.0 ended.0.err, ended.1))
        (same_run
          ((lit "-C" ∷ dir ∷ lit "-c" ∷ lit "core.abbrev=40" ∷ lit "push" ∷ lit "--porcelain" ∷ [])
            ++ args)
          w)

  same_batch :
      (dir : Text) (specs : List PushSpec) (w : W)
      → push_batch m.host dir one specs w ≡ push_batch handed.host dir other specs w
  unfolding push_batch
  same_batch dir specs w = same_push_run dir _ _ w

  same_loop :
      (dir : Text) (fuel : ℕ) (specs : List PushSpec) (res : PushResult) (w : W)
      → push_loop m.host dir one fuel specs res w ≡ push_loop handed.host dir other fuel specs res w
  unfolding push_loop
  same_loop dir zero specs res w = refl
  same_loop dir (suc fuel) specs res w = rw (same_batch dir (take 500 specs) w) (
      ap
        (λ (next : PushResult → W → Result PushResult × W).
          if is_empty specs
          then (value res, w)
          else after_batch next res (push_batch handed.host dir other (take 500 specs) w))
        (λ i r v. same_loop dir fuel (drop 500 specs) r v i))

  -- Beside git's environment, only whether a remote has credentials decides what the runner does: with
  -- another user name and password for the same address, both there or both missing as before, and with
  -- git handed the environment of the first remote, every method of the runner that talks to a remote, or
  -- writes its address down, runs the same and gives the same results and errors.
  pub default_git_runner-blind :
      (dir sha ref ref_type ref_name : Text) (specs : List PushSpec) (w : W)
      → ((default_git_runner m).clone_mirror one dir w
          ≡ (default_git_runner handed).clone_mirror other dir w)
        × ((default_git_runner m).fetch_mirror one dir w
            ≡ (default_git_runner handed).fetch_mirror other dir w)
        × ((default_git_runner m).push_mirror dir one specs w
            ≡ (default_git_runner handed).push_mirror dir other specs w)
        × ((default_git_runner m).remote_refs one w
            ≡ (default_git_runner handed).remote_refs other w)
        × ((default_git_runner m).delete_ref dir one ref_type ref_name w
            ≡ (default_git_runner handed).delete_ref dir other ref_type ref_name w)
        × ((default_git_runner m).ref_tip one ref_type ref_name w
            ≡ (default_git_runner handed).ref_tip other ref_type ref_name w)
        × ((default_git_runner m).fetch_object dir one sha w
            ≡ (default_git_runner handed).fetch_object dir other sha w)
        × ((default_git_runner m).create_ref dir one sha ref w
            ≡ (default_git_runner handed).create_ref dir other sha ref w)
        × ((default_git_runner m).sanitize_cache dir one w
            ≡ (default_git_runner handed).sanitize_cache dir other w)
  unfolding push_mirror
  default_git_runner-blind dir sha ref ref_type ref_name specs w = (
    same_clone dir w,
    same_fetch dir w,
    same_loop dir (length specs) specs no_change w,
    same_refs w,
    same_delete dir ref_type ref_name w,
    same_tip ref_type ref_name w,
    same_object dir sha w,
    same_create dir sha ref w,
    ap (told m) (same_sanitize dir w),
  )
