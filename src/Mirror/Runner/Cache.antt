-- ===== src/Mirror/Runner/Cache.antt =====
-- internal/mirror/mirror.go: the methods of `defaultGitRunner` that look after the cache directory
-- (`CloneMirror`, `SanitizeCache`, `GCAuto`), and the runner as the service's git.
use git_bridge.Base.{
  Text, ℕ, suc, List, [], ◌∷◌, ◌++◌, Option, none, some, Bool, false, ◌&&◌, lit, concat, ◌==◌, ltb,
  ◌*◌, if◌then◌else◌, has_suffix, trim_space, show_nat,
}
use git_bridge.Errors.{Error, Result, value, failed, plain}
use git_bridge.Mirror.Git.{Git}
use git_bridge.Mirror.Runner.Commands.{
  Machine, command_error, ran, succeeded, run_remote, list_refs, list_ref_tips, remote_refs,
  is_ancestor, has_object, commit_author, fetch_mirror, ref_tip, fetch_object, create_ref,
  ensure_bare_dir, delete_ref, unmatched_in,
}
use git_bridge.Mirror.Runner.Push.{Exec, push_mirror}
use git_bridge.Provider.{Remote}

-- `GCStats`
pub record GcStats : Type 0 where
  pub packs_before : ℕ
  pub packs_after : ℕ
  pub keeps_pruned : ℕ

abbrev pub gc_auto_pack_limit : ℕ
gc_auto_pack_limit = 15

-- in nanoseconds
abbrev pub stale_keep_age : ℕ
stale_keep_age = 24 * 3600 * 1000000000

abbrev pub remote_origin_url_key : Text
remote_origin_url_key = lit "remote.origin.url"

-- Is this an abandoned marker? One whose age is not known is not.
unfoldable pub is_stale_keep : Text × Option ℕ → Bool
is_stale_keep (name, none) = false
is_stale_keep (name, some age) = has_suffix name (lit ".keep") && ltb stale_keep_age age

-- The loop of `countPacks`
count_packs_in : List (Text × Option ℕ) → ℕ
count_packs_in [] = 0
count_packs_in (entry ∷ rest) =
    let n = count_packs_in rest in if has_suffix entry.0 (lit ".pack") then suc n else n

abbrev pack_dir : Text → Text
pack_dir dir = dir ++ lit "/objects/pack"

module _ {W : Type 0} (m : Machine W) where
  -- `countPacks`
  unfoldable pub count_packs : Text → W → ℕ
  unfolding count_packs_in
  count_packs dir w = elim (m.read_dir (pack_dir dir) w) [
    | none ↦ 0
    | some entries ↦ count_packs_in entries
  ]

  -- The loop of `pruneStaleKeeps`
  unfoldable pub prune_entries : Text → List (Text × Option ℕ) → W → ℕ × W
  unfolding is_stale_keep
  prune_entries packs [] w = (0, w)
  prune_entries packs (entry ∷ rest) w =
      let (err, w₁) = m.remove (packs ++ (lit "/" ++ entry.0)) w in
      let (n, w₂) = prune_entries packs rest w₁ in
      let passed = prune_entries packs rest w in
      if is_stale_keep entry then (if succeeded err then suc n else n, w₂) else passed

  -- `pruneStaleKeeps`
  unfoldable pub prune_stale_keeps : Text → W → ℕ × W
  unfolding prune_entries
  prune_stale_keeps dir w = elim (m.read_dir (pack_dir dir) w) [
    | none ↦ (0, w)
    | some entries ↦ prune_entries (pack_dir dir) entries w
  ]

  -- `GCAuto`
  unfoldable pub gc_auto : Text → W → (GcStats × Option Error) × W
  unfolding prune_stale_keeps count_packs
  gc_auto dir w =
      let (pruned, w₁) = prune_stale_keeps dir w in
      let before = count_packs dir w₁ in
      let (out, w₂) =
        m.write_git
          (lit "-C"
            ∷ dir
            ∷ lit "-c"
            ∷ lit "gc.autoDetach=false"
            ∷ lit "-c"
            ∷ (lit "gc.autoPackLimit=" ++ show_nat gc_auto_pack_limit)
            ∷ lit "gc"
            ∷ lit "--auto"
            ∷ lit "--quiet"
            ∷ [])
          w₁ in
      let after = if succeeded out.err then count_packs dir w₂ else 0 in
      (
        (
          record { packs_before = before; packs_after = after; keeps_pruned = pruned },
          ran (lit "gc --auto") out.combined out.err,
        ),
        w₂,
      )

  -- `CloneMirror`, once the clone is there: the old copy goes, and the new one takes its place.
  unfoldable pub swap_in : Text → Text → W → Option Error × W
  swap_in tmp_dir dir w =
      let (kept, w₁) = m.remove_all dir w in
      let (stuck, w₂) = m.rename tmp_dir dir w₁ in
      elim kept [
        | some err ↦ (
          some (plain (concat (lit "cleanup before swap: " ∷ err ∷ []))),
          (m.remove_all tmp_dir w₁).1,
        )
        | none ↦ elim stuck [
          | some err ↦ (
            some (plain (concat (lit "swap mirror into place: " ∷ err ∷ []))),
            (m.remove_all tmp_dir w₂).1,
          )
          | none ↦ (none, w₂)
        ]
      ]

  -- `CloneMirror`, with the clone run.
  unfoldable pub cloned : Text → Text → Exec → Option Text → W → Option Error × W
  unfolding swap_in
  cloned tmp_dir dir out (some err) w =
      (some (plain (concat (err ∷ lit ": " ∷ out.combined ∷ []))), (m.remove_all tmp_dir w).1)
  cloned tmp_dir dir out none w = swap_in tmp_dir dir w

  -- `CloneMirror`, with what removing an old temporary copy came to.
  unfoldable pub cloned_after : Text → Text → Option Text → W → Exec × W → Option Error × W
  unfolding cloned
  cloned_after tmp_dir dir (some err) w run =
      (some (plain (concat (lit "cleanup temp before clone: " ∷ err ∷ []))), w)
  cloned_after tmp_dir dir none w (out, w') = cloned tmp_dir dir out out.err w'

  -- `CloneMirror`
  unfoldable pub clone_mirror : Remote → Text → W → Option Error × W
  unfolding run_remote cloned_after
  clone_mirror rem dir w =
      let tmp_dir = dir ++ lit ".tmp" in
      let (dirty, w') = m.remove_all tmp_dir w in
      cloned_after tmp_dir dir dirty w'
        (run_remote m rem (lit "clone" ∷ lit "--mirror" ∷ rem.url ∷ tmp_dir ∷ []) w')

  -- `gitConfigGet`: `none` is a key that is not there.
  config_read : Text → Exec → Option Text → Result (Option Text)
  config_read key out none = value (some (trim_space out.stdout))
  config_read key out (some err) =
      if out.exit_one
      then value none
      else failed (command_error (lit "git config --get " ++ key) err out.stderr)

  unfoldable pub git_config_get : Text → Text → W → Result (Option Text)
  unfolding config_read
  git_config_get dir key w =
      let out = m.read_git (lit "-C" ∷ dir ∷ lit "config" ∷ lit "--get" ∷ key ∷ []) w in
      config_read key out out.err

  -- `gitConfigSet`
  unfoldable pub git_config_set : Text → Text → Text → W → Option Error × W
  git_config_set dir key v w =
      let (out, w') = m.write_git (lit "-C" ∷ dir ∷ lit "config" ∷ key ∷ v ∷ []) w in
      (ran (lit "git config " ++ key) out.stderr out.err, w')

  -- `SanitizeCache`, with the address that the cache has: whether credentials were removed.
  unfoldable pub sanitized : Text → Remote → Result (Option Text) → W → Result Bool × W
  unfolding git_config_set
  sanitized dir rem (failed e) w = (failed e, w)
  sanitized dir rem (value none) w = (value false, w)
  sanitized dir rem (value (some cur)) w =
      let (err, w') = git_config_set dir remote_origin_url_key rem.url w in
      if cur == rem.url
      then (value false, w)
      else (elim err [ none ↦ value (m.has_user_info cur) | some e ↦ failed e ], w')

  -- `SanitizeCache`
  unfoldable pub sanitize_cache : Text → Remote → W → Result Bool × W
  unfolding git_config_get sanitized
  sanitize_cache dir rem w = sanitized dir rem (git_config_get dir remote_origin_url_key w) w

  -- What the service hears of a method that also tells what it did, which is only logged.
  abbrev pub told : {A : Type 0} → Result A × W → Option Error × W
  told (value a, w) = (none, w)
  told (failed e, w) = (some e, w)

  abbrev renamed : Option Text × W → Option Error × W
  renamed (none, w) = (none, w)
  renamed (some err, w) = (some (plain err), w)

  -- `defaultGitRunner`, with `isGitDir`
  abbrev pub default_git_runner : Git W
  default_git_runner = record {
    clone_mirror = clone_mirror;
    fetch_mirror = fetch_mirror m;
    push_mirror = push_mirror m.host;
    list_refs = list_refs m;
    list_ref_tips = list_ref_tips m;
    remote_refs = remote_refs m;
    is_ancestor = is_ancestor m;
    unmatched_commits = unmatched_in m;
    delete_ref = delete_ref m;
    ref_tip = ref_tip m;
    ensure_bare_dir = ensure_bare_dir m;
    has_object = has_object m;
    fetch_object = fetch_object m;
    create_ref = create_ref m;
    commit_author = commit_author m;
    gc_auto = λ dir w. let (told_of, w') = gc_auto dir w in (told_of.1, w');
    sanitize_cache = λ dir rem w. told (sanitize_cache dir rem w);
    is_git_dir = λ dir w. m.is_file (dir ++ lit "/HEAD") w;
    rename = λ old new w. renamed (m.rename old new w);
    remove_all = λ dir w. (m.remove_all dir w).1;
    clock = m.clock;
    show_duration = m.show_duration;
  }
