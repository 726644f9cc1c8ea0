-- ===== src/Provider.antt =====
-- internal/provider: remotes, and the three provider types.
-- The address that GitLab builds goes through Go's URL parser, which is an argument here.
use git_bridge.Base.{
  Text, [], ◌∷◌, ◌++◌, lit, concat, ◌==◌, if◌then◌else◌, Bool, not, ◌||◌, lookup, get_or,
  trim_right, Option,
}
use git_bridge.Config.{ProviderConfig}
use git_bridge.Errors.{Result, value, failed, plain, quote}

-- `Remote`
pub record Remote : Type 0 where
  pub url : Text
  pub username : Text
  pub password : Text

-- `Remote.HasCredentials`
unfoldable pub has_credentials : Remote → Bool
has_credentials r = not (r.username == []) || not (r.password == [])

-- The interface `Provider`.
pub record Provider : Type 0 where
  pub remote : Text → Remote
  pub web_url : Text → Text
  pub type : Text

-- `cfg.Credentials[key]`: the empty string where the key is missing
abbrev credential : ProviderConfig → Text → Text
credential cfg key = get_or [] (lookup key cfg.credentials)

unfoldable pub new_codecommit : ProviderConfig → Provider
new_codecommit cfg = record {
  remote = λ path. record {
    url =
        concat
          (lit "https://git-codecommit." ∷ cfg.region ∷ lit ".amazonaws.com/v1/repos/" ∷ path ∷ []);
    username = credential cfg (lit "git_username");
    password = credential cfg (lit "git_password");
  };
  web_url = λ path. concat (
      lit "https://"
      ∷ cfg.region
      ∷ lit ".console.aws.amazon.com/codesuite/codecommit/repositories/"
      ∷ path
      ∷ lit "/browse"
      ∷ []);
  type = lit "codecommit";
}

unfoldable pub new_github : ProviderConfig → Provider
new_github cfg = record {
  remote = λ path. record {
    url = concat (lit "https://github.com/" ∷ path ∷ lit ".git" ∷ []);
    username = lit "x-access-token";
    password = credential cfg (lit "token");
  };
  web_url = λ path. lit "https://github.com/" ++ path;
  type = lit "github";
}

-- What `url.Parse` and `URL.String` do for `cloneURL`: the base address with its user information
-- dropped and its path replaced, or `none` where it does not parse.
abbrev pub SetPath : Type 0
SetPath = Text → Text → Option Text

-- `GitLab.cloneURL`
clone_url : SetPath → Text → Text → Text
clone_url set_path base path =
    get_or (concat (base ∷ lit "/" ∷ path ∷ lit ".git" ∷ []))
      (set_path base (concat (lit "/" ∷ path ∷ lit ".git" ∷ [])))

unfoldable pub new_gitlab : SetPath → ProviderConfig → Provider
unfolding clone_url
new_gitlab set_path cfg =
    let base = trim_right cfg.base_url b'/' in
    record {
      remote = λ path. record {
        url = clone_url set_path base path;
        username = lit "oauth2";
        password = credential cfg (lit "token");
      };
      web_url = λ path. concat (base ∷ lit "/" ∷ path ∷ []);
      type = lit "gitlab";
    }

-- `provider.New`
unfoldable pub new_provider : SetPath → Text → ProviderConfig → Result Provider
unfolding new_codecommit new_gitlab new_github
new_provider set_path name cfg =
    if cfg.type == lit "codecommit"
    then value (new_codecommit cfg)
    else if cfg.type == lit "gitlab"
    then value (new_gitlab set_path cfg)
    else if cfg.type == lit "github"
    then value (new_github cfg)
    else failed (
        plain
          (concat (lit "unknown provider type " ∷ quote cfg.type ∷ lit " for " ∷ quote name ∷ [])))
