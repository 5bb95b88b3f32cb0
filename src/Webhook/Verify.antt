-- ===== src/Webhook/Verify.antt =====
-- src/linear/webhook-verify.ts: the signature of a delivery and its time.
use linear_agent_bridge.Base.{
  ℕ, ◌+◌, Bool, true, false, ◌&&◌, if◌then◌else◌, Option, none, some, Text, text, same, ltb, leb,
}
use linear_agent_bridge.Json.{Number, whole, fraction, Json, number, field}
use linear_agent_bridge.Recovery.Base64.{Bytes}

-- What the server takes from Node: `hmac_hex secret body` is the HMAC-SHA256 in hexadecimal, and
-- `parse` is `JSON.parse(body.toString("utf8"))`, where `none` is a `SyntaxError`.
pub record Node : Type 0 where
  pub hmac_hex : Text → Bytes → Text
  pub parse : Bytes → Option Json

-- `STALE_THRESHOLD_MS`
abbrev pub stale_threshold_ms : ℕ
stale_threshold_ms = 60000

-- `verifyWebhookSignature`. UTF-8 keeps strings without surrogates apart, and a header is Latin-1.
unfoldable pub verify_webhook_signature : Node → Bytes → Option Text → Text → Bool
verify_webhook_signature node raw_body none secret = false
verify_webhook_signature node raw_body (some header) secret =
    same (node.hmac_hex secret raw_body) header

-- `Math.abs(now - timestamp) <= STALE_THRESHOLD_MS`
abbrev pub is_near : ℕ → Number → Bool
is_near now (whole false n) = leb n (now + stale_threshold_ms) && leb now (n + stale_threshold_ms)
is_near now (fraction false n) =
    ltb n (now + stale_threshold_ms) && leb now (n + stale_threshold_ms)
is_near now (whole true n) = leb (now + n) stale_threshold_ms
is_near now (fraction true n) = ltb (now + n) stale_threshold_ms

abbrev is_near_json : ℕ → Option Json → Bool
is_near_json now (some (number n)) = is_near now n
is_near_json now _ = false

abbrev is_fresh_record : ℕ → Json → Bool
unfolding field
is_fresh_record now (Json.object m) = is_near_json now (field (text "webhookTimestamp") m)
is_fresh_record now _ = false

-- `hasFreshWebhookTimestamp`
unfoldable pub has_fresh_webhook_timestamp : Json → ℕ → Bool
unfolding field
has_fresh_webhook_timestamp payload now = is_fresh_record now payload

abbrev fresh_if_parsed : Option Json → ℕ → Bool
unfolding has_fresh_webhook_timestamp
fresh_if_parsed none now = false
fresh_if_parsed (some payload) now = has_fresh_webhook_timestamp payload now

-- `verifyWebhook`
unfoldable pub verify_webhook : Node → Bytes → Option Text → Text → ℕ → Bool
unfolding verify_webhook_signature has_fresh_webhook_timestamp
verify_webhook node raw_body header secret now =
    if verify_webhook_signature node raw_body header secret
    then fresh_if_parsed (node.parse raw_body) now
    else false
