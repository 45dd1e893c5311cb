-- ===== src/Iap2/Link/State.antt =====
-- The members of PhoneLink (include/aa2acp/iap2/link_layer.hpp) and the world around it: the
-- transport behind `send_`, and the owner behind `control_data_`.
use aa2acp.Base.{ℕ, ◌+◌, ◌-◌, ◌%◌, Bool, true, false, List, [], Option, ltb, Bytes}
use aa2acp.Iap2.Frame.{Lsp, default_lsp, control_session_id}

pub data State : Type 0 where
  detect negotiate normal dead : State

abbrev pub is_negotiate : State → Bool
is_negotiate State.negotiate = true
is_negotiate _ = false

abbrev pub is_normal : State → Bool
is_normal State.normal = true
is_normal _ = false

pub record PendingMessage : Type 0 where
  pub sequence : ℕ
  pub frame : Bytes
  pub deadline : ℕ
  pub retries : ℕ

-- What the link does to the outside: a frame handed to `send_`, with its answer, and a payload
-- handed to `control_data_`.
pub data Event : Type 0 where
  sent : Bytes → Bool → Event
  delivered : Bytes → Event

-- What `control_data_` does while it runs: it may call `send_control`, at a reading of the clock,
-- and go on by the answer.
pub data Client : Type 0 where
  done : Client
  send : ℕ → Bytes → (Bool → Client) → Client

-- The callbacks may depend on all that happened before, which the events say (the newest first).
pub record Environment : Type 0 where
  pub transport : List Event → Bytes → Bool
  pub has_log : Bool
  pub control_data : Option (List Event → Bytes → Client)

-- Time points are milliseconds. `trace` is no member: it records the calls of the callbacks.
pub record Link : Type 0 where
  pub state : State
  pub detect_dump_logged : Bool
  pub lsp : Lsp
  pub sent_sequence : ℕ
  pub peer_control_session_id : ℕ
  pub last_received_sequence : ℕ
  pub last_sequence_valid : Bool
  pub receive_buffer : Bytes
  pub next_marker : ℕ
  pub next_syn : ℕ
  pub pending : List PendingMessage
  pub syn_sequence : ℕ
  pub syn_outstanding : Bool
  pub trace : List Event

-- The member initialisers.
abbrev pub new_link : Link
new_link = record {
  state = State.detect;
  detect_dump_logged = false;
  lsp = default_lsp;
  sent_sequence = 99;
  peer_control_session_id = control_session_id;
  last_received_sequence = 0;
  last_sequence_valid = false;
  receive_buffer = [];
  next_marker = 0;
  next_syn = 0;
  pending = [];
  syn_sequence = 0;
  syn_outstanding = false;
  trace = [];
}

-- `static_cast<uint8_t>(a - b)`
abbrev pub sequence_sub : ℕ → ℕ → ℕ
sequence_sub a b = (a + 256 - b) % 256

-- `static_cast<int8_t>(acknowledgement - sequence) >= 0`
abbrev pub acknowledged_by : ℕ → ℕ → Bool
acknowledged_by sequence acknowledgement = ltb (sequence_sub acknowledgement sequence) 128
