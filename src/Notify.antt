-- ===== src/Notify.antt =====
-- internal/notify/notify.go: messages and their Slack payload.
use git_bridge.Base.{Text, [], ◌∷◌, ◌++◌, lit, concat, ◌==◌, if◌then◌else◌}

-- The level strings; `unknown` is any other one.
pub data Level : Type 0 where
  success error warning data_loss : Level
  unknown : Text → Level

pub record Message : Type 0 where
  pub level : Level
  pub title : Text
  pub body : Text
  pub webhook_url : Text

-- `Link`
unfoldable pub link : Text → Text → Text
link url label =
    if url == [] then label else concat (lit "<" ∷ url ∷ lit "|" ∷ label ∷ lit ">" ∷ [])

-- `levelPrefix`, with the fallback of `Send`
unfoldable pub level_prefix : Level → Text
level_prefix success = lit "✅"
level_prefix error = lit "❌"
level_prefix warning = lit "⚠" ++ (0xfe0f ∷ [])
level_prefix data_loss = lit "🚨"
level_prefix (unknown t) = lit "✅"

-- `levelColor`, with the fallback of `Send`
unfoldable pub level_color : Level → Text
level_color success = lit "#2eb886"
level_color error = lit "#a30200"
level_color warning = lit "#daa038"
level_color data_loss = lit "#e8590c"
level_color (unknown t) = lit "#2eb886"

pub record Slack : Type 0 where
  pub webhook_url : Text
  pub channel : Text

-- `slackPayload` with its one attachment, and the address that it goes to
pub record Post : Type 0 where
  pub url : Text
  pub channel : Text
  pub color : Text
  pub fallback : Text
  pub text : Text

-- `Slack.Send` up to the request; what the server answers is only logged.
unfoldable pub send : Slack → Message → Post
unfolding level_prefix level_color
send s msg = record {
  url = (if msg.webhook_url == [] then s.webhook_url else msg.webhook_url);
  channel = s.channel;
  color = level_color msg.level;
  fallback = concat (level_prefix msg.level ∷ lit " " ∷ msg.title ∷ []);
  text = concat (level_prefix msg.level ∷ lit " *" ∷ msg.title ∷ lit "*\n" ∷ msg.body ∷ []);
}
