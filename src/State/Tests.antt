-- ===== src/State/Tests.antt =====
-- A concrete bridge for src/state/store.ts: two processes, a vault that keeps the payload readable,
-- two deliveries of one execution, and what the theorems say of them.
mod Goals
use linear_agent_bridge.Base.{
  ◌≡◌, ◌≢◌, refl, Bool, true, false, Option, none, some, List, [], ◌∷◌, Text, text, length, lookup,
  put, text_dec, sort_by, select, arith,
}
use linear_agent_bridge.Recovery.Types.{
  IngressAction, Identity, Payload, created_payload, prompted_payload, Envelope, Vault,
}
use linear_agent_bridge.State.Types.{State, ClaimStatus, Claim, Env, empty_state}
use linear_agent_bridge.State.Checks.{active_recoverable_receipts}
use linear_agent_bridge.State.Prune.{cutoff, prune}
use linear_agent_bridge.State.Sequence.{
  Recovery, create_recovery_envelope, highest_of_receipts, highest_of_fences,
}
use linear_agent_bridge.State.Freshness.{IsFresh, create_recovery_envelope-IsFresh}
use linear_agent_bridge.State.Claim.{claim_event}
use linear_agent_bridge.State.Dispatch.{
  completing, begin_event_dispatch, release_pre_dispatch_claim,
}
use linear_agent_bridge.State.Disk.{Fault, clean, after, no_fault, mutate, OnOk}
use linear_agent_bridge.State.Invariant.{Inv, empty_state-Inv}
use linear_agent_bridge.State.Invariant.Bounds.{Unexpired, IsBounded, prune-IsBounded}
use linear_agent_bridge.State.Invariant.Contending.{IsGrant}
use linear_agent_bridge.State.Invariant.Dispatch.{IsStart}
use linear_agent_bridge.State.Invariant.Ending.{IsRelease}
use linear_agent_bridge.State.History.{
  Operation, claims, claims_stop, dispatches, ends, supersedes, Call, history, history_from-Inv,
  history-Inv, StillRuns, history-StillRuns,
}
use linear_agent_bridge.State.Answers.{
  claim_event-IsGrant, begin_event_dispatch-IsStart, release_pre_dispatch_claim-IsRelease,
}
use Prim.Native.Nat.{ℕ, zero, suc, compare}

abbrev flag : Bool → Text
flag true = 1 ∷ []
flag false = 0 ∷ []

abbrev packed : Option Text → Text
packed none = []
packed (some t) = 1 ∷ t

abbrev unpacked : Text → Option Text
unpacked [] = none
unpacked (mark ∷ t) = some t

abbrev seal : Payload → Envelope
seal (created_payload prompt at issue) = record {
  key_id = [];
  nonce = at;
  ciphertext = prompt;
  tag = packed issue;
}
seal (prompted_payload prompt at signal stop) = record {
  key_id = flag stop;
  nonce = at;
  ciphertext = prompt;
  tag = packed signal;
}

abbrev open_with : Text → Envelope → Option Payload
open_with [] e = some (created_payload e.ciphertext e.nonce (unpacked e.tag))
open_with (zero ∷ t) e = some (prompted_payload e.ciphertext e.nonce (unpacked e.tag) false)
open_with (suc n ∷ t) e = some (prompted_payload e.ciphertext e.nonce (unpacked e.tag) true)

unpacked-packed : (o : Option Text) → unpacked (packed o) ≡ o
unpacked-packed none = refl
unpacked-packed (some t) = refl

pub open-seal : (p : Payload) → open_with (seal p).key_id (seal p) ≡ some p
open-seal (created_payload prompt at issue) = ground (arith, unpacked-packed issue)
open-seal (prompted_payload prompt at signal true) = ground (arith, unpacked-packed signal)
open-seal (prompted_payload prompt at signal false) = ground (arith, unpacked-packed signal)

abbrev plain : Text → Envelope
plain t = record { key_id = []; nonce = []; ciphertext = t; tag = [] }

pub opened :
    (i : Identity) (n : ℕ) (p : Payload) (e : Envelope)
    → some (seal p) ≡ some e
    → open_with e.key_id e ≡ some p
opened i n p e h = ground (arith, open-seal p)

abbrev vault : Vault
vault = record {
  seal_ingress = λ i n p. some (seal p);
  open_ingress = λ i n e. open_with e.key_id e;
  seal_notice = λ i t. some (plain t);
  open_notice = λ i e. some e.ciphertext;
  seal_objective = λ i t. some (plain t);
  open_objective = λ i e. some e.ciphertext;
  open-seal_ingress = opened;
}

-- An order of strings by length stands for `localeCompare`, and a date is its number of characters.
abbrev pub env : Text → Env
env owner_id = record {
  owner_id = owner_id;
  max_entries = 2;
  retention_ms = 1000;
  max_recoverable_events = 5;
  now = 100;
  parse_date = λ t. some (length t);
  to_iso_string = λ n. [];
  locale_compare = λ a b. compare (length a) (length b);
  vault = some vault;
  locally_accepted = [];
}

abbrev pub delivery : Text → Identity
delivery webhook_id = record {
  webhook_id = webhook_id;
  execution_id = text "exec";
  linear_session_id = text "session";
  action = IngressAction.prompted;
}

abbrev pub prompt : Payload
prompt = prompted_payload (text "hello") (text "2026") none false

abbrev call : Text → Operation → List Fault → Call
call owner_id op faults = record {
  env = env owner_id;
  operation = op;
  lock = no_fault;
  faults = faults;
}

-- The first process is granted the execution and dies; the second takes it over through another
-- delivery, dispatches it, and fails to sync the directory.
abbrev pub calls : List Call
calls =
    call (text "one") (claims (delivery (text "w1")) (some prompt) false) []
    ∷ call (text "two") (claims (delivery (text "w2")) (some prompt) false) []
    ∷ call (text "two") (dispatches (text "w2") none) (after ∷ [])
    ∷ []

abbrev taken : Claim
taken = record {
  execution_id = text "exec";
  webhook_id = text "w2";
  linear_session_id = text "session";
  action = IngressAction.prompted;
  status = ClaimStatus.claimed;
  owner_id = text "two";
  claimed_at = 100;
  updated_at = 100;
  recovery_sequence = some 2;
  dispatch_started_at = some 100;
  activity_ids = [];
}

history-taken : lookup (text "exec") (history calls empty_state).claims ≡ some taken
unfolding history lookup begin_event_dispatch claim_event prune sort_by select
    active_recoverable_receipts put text_dec
history-taken = refl

history-Inv_example : Inv (history calls empty_state)
history-Inv_example = history-Inv calls

abbrev later_calls : List Call
later_calls =
    call (text "one") (claims (delivery (text "w1")) (some prompt) false) []
    ∷ call (text "one")
        (claims_stop (delivery (text "w4")) (record { created_at = text "2027"; id = text "exec" })
          (some prompt))
        []
    ∷ call (text "one") (supersedes (text "w2") (text "w3")) []
    ∷ call (text "one") (ends (text "w1") completing) []
    ∷ []

w1-w2 : text "w1" ≢ text "w2"
w1-w2 h = ground arith

history-StillRuns_example :
    StillRuns taken (lookup (text "exec") (history later_calls (history calls empty_state)).claims)
history-StillRuns_example =
    history-StillRuns (text "exec") taken later_calls (history calls empty_state)
      (history-Inv calls) history-taken refl refl
      ((refl, tt), ((refl, tt), ((refl, tt), ((refl, w1-w2), tt))))

claim_event-IsGrant_example : OnOk (IsGrant (env (text "one")) (delivery (text "w1"))) (
    mutate no_fault
      (clean ∷ after ∷ [])
      (λ s. claim_event (env (text "one")) s (delivery (text "w1")) (some prompt) false)
      empty_state)
claim_event-IsGrant_example =
    claim_event-IsGrant (env (text "one")) no_fault (clean ∷ after ∷ []) empty_state empty_state-Inv
      (delivery (text "w1")) (some prompt) false

begin_event_dispatch-IsStart_example : OnOk (IsStart (env (text "two")) (text "w2")) (
    mutate no_fault []
      (λ s. begin_event_dispatch (env (text "two")) s (text "w2") none)
      (history calls empty_state))
begin_event_dispatch-IsStart_example =
    begin_event_dispatch-IsStart (env (text "two")) no_fault [] (history calls empty_state)
      (history-Inv calls) (text "w2") none

abbrev first_call : List Call
first_call = call (text "one") (claims (delivery (text "w1")) (some prompt) false) [] ∷ []

release_pre_dispatch_claim-IsRelease_example :
    OnOk (IsRelease (history first_call empty_state) (text "w1")) (
      mutate no_fault []
        (λ s. release_pre_dispatch_claim (env (text "one")) s (text "w1"))
        (history first_call empty_state))
release_pre_dispatch_claim-IsRelease_example =
    release_pre_dispatch_claim-IsRelease (env (text "one")) no_fault []
      (history first_call empty_state) (history-Inv first_call) (text "w1")

-- The third event of the session gets the number 3.
abbrev third : Recovery
third = record {
  state = record (history calls empty_state) { next_recovery_sequence = some 4 };
  sequence = 3;
  envelope = seal prompt;
}

third_created :
    create_recovery_envelope
      (env (text "one"))
      (history calls empty_state)
      (delivery (text "w3"))
      prompt
      true
    ≡ some third
unfolding create_recovery_envelope history lookup begin_event_dispatch claim_event prune sort_by
    select active_recoverable_receipts put text_dec highest_of_receipts highest_of_fences
third_created = refl

create_recovery_envelope-IsFresh_example :
    IsFresh (env (text "one")) (history calls empty_state) (delivery (text "w3")) prompt true third
create_recovery_envelope-IsFresh_example =
    create_recovery_envelope-IsFresh (env (text "one")) (history calls empty_state)
      (delivery (text "w3")) prompt true third third_created

-- Three deliveries, two of which are over, are one too many for this bridge.
abbrev crowded_calls : List Call
crowded_calls =
    call (text "two") (ends (text "w2") completing) []
    ∷ call (text "two") (claims (delivery (text "w3")) (some prompt) false) []
    ∷ []

abbrev crowded : State
crowded = history crowded_calls (history calls empty_state)

prune-IsBounded_example :
    Unexpired (cutoff (env (text "one"))) (prune (env (text "one")) crowded)
    × IsBounded 2 (prune (env (text "one")) crowded)
prune-IsBounded_example =
    prune-IsBounded (env (text "one")) crowded
      (history_from-Inv crowded_calls (history calls empty_state) (history-Inv calls))
