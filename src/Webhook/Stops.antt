-- ===== src/Webhook/Stops.antt =====
-- src/server.ts: when the parts of the program agree that an event is a stop, and that a run came
-- before it.
use linear_agent_bridge.Base.{
  ℕ, ◌≡◌, refl, ap, ◌∙◌, Bool, true, false, not, ◌&&◌, ◌||◌, Option, none, some, Text, text, same,
  leb, arith,
}
use linear_agent_bridge.Base.Options.{bind_inv, guard_inv}
use linear_agent_bridge.Recovery.Types.{
  IngressAction, created, prompted, Payload, Vault, Envelope, occurred_at,
}
use linear_agent_bridge.Recovery.Base64.{some_eq}
use linear_agent_bridge.Recovery.Payloads.{Dates, has_text, trim, is_stop_word, is_stop_prompt}
use linear_agent_bridge.State.Types.{Receipt, Fence, Env}
use linear_agent_bridge.State.Checks.{
  by_time, sign_of, is_created, at_most, is_valid_recovery_stop_fence,
}
use linear_agent_bridge.State.Sequence.{receipt_is_at_or_before_fence}
use linear_agent_bridge.Webhook.Event.{
  Event, Activity, recovery_payload, payload_of, prompted_payload_of, context_of, is_stop_event,
  prompt_of, either, is_stop_activity_of,
}
use linear_agent_bridge.Webhook.Runs.{
  is_created_action, is_earlier, is_same_time, run_is_at_or_before_stop,
}
use linear_agent_bridge.Webhook.Handler.{dates_of}
use linear_agent_bridge.Webhook.Recovered.{is_stop}
use Prim.Native.Nat.{compare}

-- The signal of the content is a string other than "stop", and hides a signal "stop" of the
-- activity.
abbrev hides : Option Text → Option Text → Bool
hides none signal = false
hides (some t) signal = not (same t (text "stop")) && has_text signal (text "stop")

unfoldable pub is_hidden_stop : Option Activity → Bool
is_hidden_stop none = false
is_hidden_stop (some a) = hides a.content_signal a.signal

or_false : (x : Bool) → x ≡ (x || false)
or_false true = refl
or_false false = refl

hidden_or : (s o w : Bool) → (s || (o || w)) ≡ ((s || w) || (not s && o))
hidden_or true o w = refl
hidden_or false true true = refl
hidden_or false true false = refl
hidden_or false false true = refl
hidden_or false false false = refl

signals_agree :
    (content outer : Option Text) (word : Bool)
    → (has_text content (text "stop") || (has_text outer (text "stop") || word))
      ≡ ((has_text (either content outer) (text "stop") || word) || hides content outer)
signals_agree none outer word = or_false (has_text outer (text "stop") || word)
signals_agree (some t) outer word =
    hidden_or (same t (text "stop")) (has_text outer (text "stop")) word

stop_of :
    (dates : Dates) (e : Event) (a : Option Activity) (p : Payload)
    → payload_of dates e a ≡ some p
    → is_stop_activity_of a ≡ (is_stop p || is_hidden_stop a)
unfolding payload_of is_stop_activity_of is_hidden_stop prompted_payload_of is_stop_prompt
stop_of dates e none p h =
    let (prompt, found, made) = bind_inv (context_of e.prompt_context e.issue) _ p h in
    ap (λ x. is_stop x || false) (some_eq made)
stop_of dates e (some a) p h =
    signals_agree a.content_signal a.signal (is_stop_word (trim (prompt_of a)))
    ∙ ap (λ x. is_stop x || hides a.content_signal a.signal) (some_eq h)

-- An event is claimed as a stop exactly if the payload kept for it says stop, except that it is
-- also claimed as a stop when its content has another signal that hides the activity's signal
-- "stop"; for events whose payload can be kept.
pub is_stop_event-recovery_payload :
    (dates : Dates) (e : Event) (p : Payload)
    → recovery_payload dates e ≡ some p
    → is_stop_event e ≡ (is_stop p || is_hidden_stop e.activity)
unfolding is_stop_event recovery_payload
is_stop_event-recovery_payload dates e p h = stop_of dates e e.activity p h

orders_agree :
    (action : IngressAction) (t u : Option ℕ) (n m : ℕ)
    → (is_created_action action || (is_earlier t u || is_same_time t u && leb n m))
      ≡ (is_created action || at_most (by_time t u (sign_of (compare n m))))
orders_agree created t u n m = refl
orders_agree prompted none u n m = refl
orders_agree prompted (some t) none n m = refl
orders_agree prompted (some t) (some u) n m = ground arith

-- When the store can compare a receipt with a stop fence, it has opened the payload of the receipt
-- under the receipt's identity and sequence, and its answer is the one that the server gives for a
-- run with the receipt's action, its payload's time and its sequence.
pub receipt_is_at_or_before_fence-run :
    (env : Env) (r : Receipt) (f : Fence) (b : Bool)
    → receipt_is_at_or_before_fence env r f ≡ some b
    → (vault : Vault) × (envelope : Envelope) × (n : ℕ) × (p : Payload) × (env.vault ≡ some vault)
      × (r.recovery_envelope ≡ some envelope)
      × (r.recovery_sequence ≡ some n)
      × (vault.open_ingress r.identity n envelope ≡ some p)
      × (run_is_at_or_before_stop
            (dates_of env)
            record { action = r.action; at = occurred_at p; sequence = n }
            record { action = prompted; at = f.occurred_at; sequence = f.sequence }
          ≡ b)
unfolding receipt_is_at_or_before_fence run_is_at_or_before_stop
receipt_is_at_or_before_fence-run env r f b h =
    let (vault, v, h1) = bind_inv env.vault _ b h in
    let (envelope, w, h2) = bind_inv r.recovery_envelope _ b h1 in
    let (n, x, h3) = bind_inv r.recovery_sequence _ b h2 in
    let (p, y, h4) = bind_inv (vault.open_ingress r.identity n envelope) _ b h3 in
    let (valid, answer) = guard_inv (is_valid_recovery_stop_fence env f) _ b h4 in
    (
      vault,
      envelope,
      n,
      p,
      v,
      w,
      x,
      y,
      orders_agree r.action (env.parse_date (occurred_at p)) (env.parse_date f.occurred_at) n
            f.sequence
          ∙ some_eq answer,
    )
