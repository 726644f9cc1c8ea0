-- ===== src/Askpass.antt =====
-- internal/askpass/askpass.go: the program run by git as its askpass helper.
pub mod Answers
use git_bridge.Base.{
  Text, List, [], ◌∷◌, ◌++◌, Option, none, some, Bool, lit, ◌==◌, if◌then◌else◌, after_prefix,
  has_prefix, to_lower, trim_space, get_or, not,
}

abbrev pub or_else : Option Text → Option Text → Option Text
or_else none o = o
or_else (some v) o = some v

-- The value of a variable in an environment: of a duplicated name the last entry counts.
unfoldable pub last_entry : List Text → Text → Option Text
last_entry [] key = none
last_entry (e ∷ es) key = or_else (last_entry es key) (after_prefix e (key ++ lit "="))

-- os.Getenv
unfoldable pub getenv : List Text → Text → Text
unfolding last_entry
getenv env key = get_or [] (last_entry env key)

abbrev pub env_active : Text
env_active = lit "GIT_BRIDGE_ASKPASS"

abbrev pub env_username : Text
env_username = lit "GIT_BRIDGE_ASKPASS_USERNAME"

abbrev pub env_password : Text
env_password = lit "GIT_BRIDGE_ASKPASS_PASSWORD"

-- `Answer`
unfoldable pub answer : List Text → Text → Text
answer env prompt =
    if has_prefix (to_lower (trim_space prompt)) (lit "username")
    then getenv env env_username
    else getenv env env_password

-- `args[0]`, where there is one
first_arg : List Text → Text
first_arg [] = []
first_arg (a ∷ rest) = a

-- `Serve`: what is printed, or `none` where the process is the service
unfoldable pub serve : List Text → List Text → Option Text
unfolding first_arg answer
serve env args =
    if not (getenv env env_active == lit "1")
    then none
    else some (answer env (first_arg args) ++ lit "\n")
