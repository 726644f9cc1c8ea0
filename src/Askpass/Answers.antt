-- ===== src/Askpass/Answers.antt =====
-- internal/askpass/askpass.go with internal/mirror/mirror.go, `gitRemoteEnv`: what git is answered.
use git_bridge.Base.{
  Text, List, [], ◌∷◌, ◌++◌, Option, none, some, true, false, lit, ◌==◌, ==_iff, after_prefix,
  has_prefix, to_lower, trim_space, get_or, ◌≡◌, ◌≢◌, refl, ap, ◌∙◌, is_space, Bool-cases, inl, inr,
}
use git_bridge.Base.Scan.{free, trim_space-front}
use git_bridge.Askpass.{
  or_else, last_entry, getenv, env_active, env_username, env_password, answer, serve,
}
use git_bridge.Mirror.Runner.Push.{Host, git_remote_env}
use git_bridge.Provider.{Remote, has_credentials}

or_else_assoc : (a b c : Option Text) → or_else (or_else a b) c ≡ or_else a (or_else b c)
or_else_assoc none b c = refl
or_else_assoc (some v) b c = refl

or_else-none : (a : Option Text) → a ≡ or_else a none
or_else-none none = refl
or_else-none (some v) = refl

last_entry-append :
    (xs ys : List Text) (key : Text)
    → last_entry (xs ++ ys) key ≡ or_else (last_entry ys key) (last_entry xs key)
unfolding last_entry
last_entry-append [] ys key = or_else-none (last_entry ys key)
last_entry-append (x ∷ xs) ys key =
    ap (λ o. or_else o (after_prefix x (key ++ lit "="))) (last_entry-append xs ys key)
    ∙ or_else_assoc (last_entry ys key) (last_entry xs key) (after_prefix x (key ++ lit "="))

-- What the runner adds for a remote with credentials.
abbrev side_channel : Text → Remote → List Text
side_channel helper rem =
    (lit "GIT_ASKPASS=" ++ helper)
    ∷ lit "GIT_BRIDGE_ASKPASS=1"
    ∷ (lit "GIT_BRIDGE_ASKPASS_USERNAME=" ++ rem.username)
    ∷ (lit "GIT_BRIDGE_ASKPASS_PASSWORD=" ++ rem.password)
    ∷ lit "LC_ALL=C"
    ∷ []

asks_username :
    (rest : Text)
    → has_prefix (to_lower (trim_space (lit "Username" ++ rest))) (lit "username") ≡ true
unfolding has_prefix after_prefix to_lower is_space free
asks_username rest =
    let (kept, e) = trim_space-front (lit "Usernam") b'e' rest (λ e. cc) refl refl in rw e refl

asks_password :
    (rest : Text)
    → has_prefix (to_lower (trim_space (lit "Password" ++ rest))) (lit "username") ≡ false
unfolding has_prefix after_prefix to_lower is_space free
asks_password rest =
    let (kept, e) = trim_space-front (lit "Passwor") b'd' rest (λ e. cc) refl refl in rw e refl

module _ {W : Type 0} (h : Host W) (rem : Remote) (shown : has_credentials rem ≡ true)
    (found : h.askpass_helper ≢ []) where
  env_added :
      git_remote_env h rem
      ≡ (h.environ ++ (lit "GIT_TERMINAL_PROMPT=0" ∷ [])) ++ side_channel h.askpass_helper rem
  unfolding git_remote_env
  env_added = rw (shown, helper) refl
    where
      helper : (h.askpass_helper == []) ≡ false
      helper = elim (Bool-cases (h.askpass_helper == [])) [
        | inl missing ↦ absurd (found ((==_iff h.askpass_helper []).0 missing))
        | inr there ↦ there
      ]

  -- A variable that the side channel sets has that value, whatever the surroundings hold.
  set_last :
      (key v : Text)
      → last_entry (side_channel h.askpass_helper rem) key ≡ some v
      → getenv (git_remote_env h rem) key ≡ v
  unfolding getenv
  set_last key v e =
      let before = h.environ ++ (lit "GIT_TERMINAL_PROMPT=0" ∷ []) in
      ap (λ env. get_or [] (last_entry env key)) env_added
      ∙ ap (get_or []) (
          last_entry-append before (side_channel h.askpass_helper rem) key
          ∙ ap (λ o. or_else o (last_entry before key)) e)

  active : getenv (git_remote_env h rem) env_active ≡ lit "1"
  unfolding last_entry after_prefix
  active = set_last env_active (lit "1") refl

  username_set : getenv (git_remote_env h rem) env_username ≡ rem.username
  unfolding last_entry after_prefix
  username_set = set_last env_username rem.username refl

  password_set : getenv (git_remote_env h rem) env_password ≡ rem.password
  unfolding last_entry after_prefix
  password_set = set_last env_password rem.password refl

  -- A helper that git runs with the environment of a remote with credentials answers git's two prompts
  -- with the remote's own
  -- credentials, whatever the surroundings hold, when the program knows its own path: a prompt that begins
  -- with "Username" with the user name, one that begins with "Password" with the password.
  pub serve-credentials :
      (rest : Text)
      → (serve (git_remote_env h rem) ((lit "Username" ++ rest) ∷ [])
          ≡ some (rem.username ++ lit "\n"))
        × (serve (git_remote_env h rem) ((lit "Password" ++ rest) ∷ [])
            ≡ some (rem.password ++ lit "\n"))
  unfolding serve answer ◌==◌
  serve-credentials rest = (
    rw active (rw (asks_username rest, username_set) refl),
    rw active (rw (asks_password rest, password_set) refl),
  )
