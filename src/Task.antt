-- ===== src/Task.antt =====
-- core/supervisor/store.go: the persisted task record. The A2A protocol's states are constants of
-- the a2a package; `other` is every text that is none of those the supervisor names.
pub mod Rounds
use ai_solo_startup_framewor.Common.{
  ℕ, suc, ◌≡◌, String, Bool, true, false, List, [], ◌∷◌, ◌++◌, ◌==◌, ltb, length, drop,
  if◌then◌else◌,
}
use ai_solo_startup_framewor.Port.{ContextMessage}

pub data TaskState : Type 0 where
  submitted working input_required completed failed rejected canceled : TaskState
  other : String → TaskState

-- TaskState.Terminal of the a2a package, with what its documentation says of the named states.
pub record Protocol : Type 0 where
  pub terminal : TaskState → Bool
  pub submitted_is_open : terminal TaskState.submitted ≡ false
  pub working_is_open : terminal TaskState.working ≡ false
  pub input_required_is_open : terminal TaskState.input_required ≡ false
  pub completed_is_terminal : terminal TaskState.completed ≡ true
  pub failed_is_terminal : terminal TaskState.failed ≡ true
  pub rejected_is_terminal : terminal TaskState.rejected ≡ true
  pub canceled_is_terminal : terminal TaskState.canceled ≡ true

pub record PendingIntent : Type 0 where
  pub kind : String
  pub body : String
  pub target : String

pub record Delegation : Type 0 where
  pub role : String
  pub task_id : String

pub record TaskRecord : Type 0 where
  pub task_id : String
  pub state : TaskState
  pub input : String
  pub owner : String
  pub pending_intent_kind : String
  pub pending_intent_body : String
  pub pending_intent_target : String
  pub remaining_intents : List PendingIntent
  pub turns : List ContextMessage
  pub awaiting_peer_role : String
  pub awaiting_peer_task_id : String
  pub awaiting_peer_approval : Bool
  pub finish_requested : Bool
  pub delegations : List Delegation
  pub output : String
  pub context_id : String
  pub follow_up_of : String
  pub base_turns : ℕ

-- assistantTurns
unfoldable pub assistant_turns : List ContextMessage → ℕ
assistant_turns [] = 0
assistant_turns (t ∷ ts) =
    if t.role == "assistant" then suc (assistant_turns ts) else assistant_turns ts

-- TaskRecord.rounds
unfoldable pub rounds : TaskRecord → ℕ
rounds r =
    if ltb (length r.turns) r.base_turns then 0 else assistant_turns (drop r.base_turns r.turns)

-- The record built in a composite literal, every unnamed field at its zero value.
unfoldable pub new_record : String → TaskState → String → String → String → TaskRecord
new_record id state input owner context_id = record {
  task_id = id;
  state = state;
  input = input;
  owner = owner;
  pending_intent_kind = "";
  pending_intent_body = "";
  pending_intent_target = "";
  remaining_intents = [];
  turns = [];
  awaiting_peer_role = "";
  awaiting_peer_task_id = "";
  awaiting_peer_approval = false;
  finish_requested = false;
  delegations = [];
  output = "";
  context_id = context_id;
  follow_up_of = "";
  base_turns = 0;
}

-- rec.Turns = append(rec.Turns, …)
unfoldable pub add_turn : TaskRecord → String → String → ℕ → TaskRecord
add_turn r role content now = record r {
  turns = r.turns ++ record { role = role; content = content; at = now } ∷ [];
}
