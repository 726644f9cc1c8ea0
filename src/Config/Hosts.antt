-- ===== src/Config/Hosts.antt =====
-- internal/config/config.go, `HostResolver`: the host of an instance's URL names its provider.
pub mod Sole
use git_bridge.Base.{
  Text, List, [], ◌∷◌, Option, none, some, Bool, true, false, ◌&&◌, not, if◌then◌else◌, lit, ◌==◌,
  Map, lookup, insert, delete, is_some, get_or, trim_space, to_lower, before_first, contains,
  has_prefix,
}
use git_bridge.Config.{ProviderConfig}

-- `url.Parse`'s host of a URL that it accepts
abbrev pub UrlHost : Type 0
UrlHost = Text → Option Text

module _ (url_host : UrlHost) where
  -- Without a scheme the part before the first slash counts.
  bare_host : Text → Text
  bare_host raw =
      let host = before_first raw b'/' in
      if contains host (lit ":") && (not (contains host (lit "]")) && has_prefix host (lit ":"))
      then []
      else to_lower host

  parsed_host : Text → Option Text → Text
  unfolding bare_host
  parsed_host raw none = bare_host raw
  parsed_host raw (some host) = if host == [] then bare_host raw else to_lower host

  -- `normalizeHost`
  unfoldable pub normalize_host : Text → Text
  unfolding parsed_host
  normalize_host url =
      let raw = trim_space url in if raw == [] then [] else parsed_host raw (url_host raw)

  -- The loop of `HostResolver`: the index, and the hosts that are claimed more than once.
  index_loop : Map Text → List Text → Map ProviderConfig → Map Text × List Text
  index_loop index ambiguous [] = (index, ambiguous)
  index_loop index ambiguous ((name, p) ∷ ps) =
      let host = normalize_host p.base_url in
      if host == []
      then index_loop index ambiguous ps
      else if is_some (lookup host index)
      then index_loop index (host ∷ ambiguous) ps
      else index_loop (insert host name index) ambiguous ps

  drop_all : List Text → Map Text → Map Text
  drop_all [] index = index
  drop_all (host ∷ hosts) index = drop_all hosts (delete host index)

  -- `Config.HostResolver`
  unfoldable pub host_resolver : Map ProviderConfig → Map Text
  unfolding index_loop drop_all
  host_resolver providers =
      let (index, ambiguous) = index_loop [] [] providers in drop_all ambiguous index

  -- `HostResolver.Resolve`
  unfoldable pub resolve : Map Text → Text → Text
  resolve index url =
      let host = normalize_host url in if host == [] then [] else get_or [] (lookup host index)
