-- ===== src/Server/Views.antt =====
-- internal/server/console.go, `historyHandler` and `meHandler`: the routes that the console page reads.
-- The parameters of the query come as a function of their names, empty where they are missing.
use git_bridge.Base.{
  Text, ℕ, ℤ, pos, negsuc, List, [], ◌∷◌, Option, none, some, Bool, not, if◌then◌else◌, lit, ◌==◌,
  ltb, split, trim_space, length,
}
use git_bridge.History.{Event}
use git_bridge.History.Writer.{Query}
use git_bridge.Mirror.{source_cron}
use git_bridge.Server.{max_history_limit}

abbrev pub default_history_limit : ℕ
default_history_limit = 100

-- The limit that the caller asks for: `none` is not a positive integer. `atoi` is strconv.Atoi.
unfoldable pub asked_limit : (Text → Option ℤ) → Text → Option ℕ
asked_limit atoi raw = if raw == [] then some default_history_limit else elim (atoi raw) [
  | none ↦ none
  | some (negsuc n) ↦ none
  | some (pos n) ↦
      if ltb 0 n then some (if ltb n max_history_limit then n else max_history_limit) else none
]

unfoldable pub history_query : (Text → Text) → ℕ → Query
history_query param limit = record {
  limit = limit;
  failures_only = param (lit "failures") == lit "true";
  repo = trim_space (param (lit "repo"));
  routine_source = (if param (lit "hide_routine") == lit "true" then source_cron else []);
  forced_only = param (lit "forced") == lit "true";
  source = trim_space (param (lit "source"));
}

-- What the page gets: events with their number, and the choices of its filters.
pub data View : Type 0 where
  refused : ℕ → Text → View
  listed : List Event → ℕ → List Text → List Text → View

-- `history.Reader`
pub record HistoryReader : Type 0 where
  pub recent : Query → List Event
  pub repos : List Text
  pub sources : List Text

-- `historyHandler`
unfoldable pub history_handler : (Text → Option ℤ) → HistoryReader → Bool → (Text → Text) → View
unfolding asked_limit history_query
history_handler atoi reader is_get param =
    if not is_get
    then refused 405 (lit "method not allowed")
    else elim (asked_limit atoi (param (lit "limit"))) [
      | none ↦ refused 400 (lit "limit must be a positive integer")
      | some limit ↦
          let events = reader.recent (history_query param limit) in
          listed events (length events) reader.repos reader.sources
    ]

group_names : List Text → List Text
group_names [] = []
group_names (g ∷ gs) =
    let rest = group_names gs in if trim_space g == [] then rest else trim_space g ∷ rest

-- The reply of `meHandler`
pub record Viewer : Type 0 where
  pub user : Text
  pub name : Text
  pub email : Text
  pub groups : List Text
  pub api_docs_url : Text
  pub restore_enabled : Bool
  pub force_enabled : Bool

-- `meHandler`, on the headers that the portal sets; `none` is a method that is not allowed
unfoldable pub me_handler : Text → Bool → Bool → Bool → (Text → Text) → Option Viewer
unfolding group_names
me_handler api_docs_url restore_enabled force_enabled is_get header =
    if not is_get
    then none
    else some (record {
      user = trim_space (header (lit "X-Auth-User"));
      name = trim_space (header (lit "X-Auth-Name"));
      email = trim_space (header (lit "X-Auth-Email"));
      groups = group_names (split (header (lit "X-Auth-Groups")) b',');
      api_docs_url = api_docs_url;
      restore_enabled = restore_enabled;
      force_enabled = force_enabled;
    })
