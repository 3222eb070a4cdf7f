-- ===== src/Hub/Types.antt =====
-- internal/hub/hub.go, internal/hub/conn.go, internal/proto/message.go, internal/audit/audit.go: the
-- state of a manager, its ports and its connections, and what they send and record. A connection is
-- named by a number, a port by its reference. A text that `fmt.Sprintf` builds is kept as what it is
-- built from.
use sercon.Prelude.{
  ℕ, ◌+◌, ◌%◌, ◌^◌, Bool, false, Option, none, some, List, [], ◌∷◌, ◌++◌, ◌==◌, if◌then◌else◌, ℤ,
  pos, Bytes,
}
use sercon.Hub.Ring.{Ring}

-- `config.PortDef`
pub record PortDef : Type 0 where
  pub ref : Bytes
  pub desc : Bytes
  pub baud : ℤ

-- The options that the manager reads; `log_dir` and `audit_dir` only reach package portlog and
-- package audit.
pub record Options : Type 0 where
  pub log_dir : Bytes
  pub audit_dir : Bytes
  pub default_baud : ℤ
  pub stamp_logs : Bool
  pub allow_observe : Bool
  pub max_observers : ℤ
  pub auto_open : Bool
  pub scan_globs : List Bytes
  pub backlog_bytes : ℤ
  pub aliases : List (Bytes × PortDef)

-- `detach`'s reasons
pub data Reason : Type 0 where
  client_closed reopening disconnected : Reason

-- `audit.Event`'s names
pub data EventName : Type 0 where
  daemon_start daemon_stop session_open session_close : EventName
  port_open port_close port_online port_offline port_break observe_denied busy_denied : EventName

-- `Event.Detail`
pub data Detail : Type 0 where
  nothing requested_by_client : Detail
  held_by : Bytes → Detail
  role : Bool → Detail
  reason : Reason → Detail
  baud_is : ℤ → Detail
  failure : Bytes → Detail

pub record Event : Type 0 where
  pub event : EventName
  pub user : Bytes
  pub client : Bytes
  pub remote : Bytes
  pub port : Bytes
  pub dev : Bytes
  pub session : Bytes
  pub detail : Detail
  pub bytes : ℕ

-- A record in which only the named fields are set.
abbrev pub blank_event : EventName → Event
blank_event e = record {
  event = e;
  user = [];
  client = [];
  remote = [];
  port = [];
  dev = [];
  session = [];
  detail = nothing;
  bytes = 0;
}

-- The lines that the hub adds to a port's log by `Note`.
pub data Note : Type 0 where
  online_note : Bytes → ℤ → Note
  offline_note : Bytes → Note
  acquired_by observed_by break_sent_by : Bytes → Note
  released_by : Bytes → Bool → Reason → ℕ → Note
  capture_stopped : Note

-- The calls that a `portlog.Writer` got, in order.
pub data LogCall : Type 0 where
  described : Bytes → ℤ → LogCall
  wrote : Bytes → LogCall
  noted : Note → LogCall
  closed_log : LogCall

pub record Log : Type 0 where
  pub path : Bytes
  pub calls : List LogCall

abbrev pub log_call : Log → LogCall → Log
log_call l c = record l { calls = l.calls ++ c ∷ [] }

-- Why an operation fails.
pub data OpError : Type 0 where
  handshake_done : OpError
  protocol_mismatch : ℕ → ℤ → OpError
  unsupported_op : Bytes → OpError
  no_port_given : ℕ → OpError
  no_match : Bytes → OpError
  ambiguous : Bytes → List Bytes → OpError
  offline : Bytes → Bytes → OpError
  held : Bytes → Bytes → OpError
  observe_disabled : OpError
  too_many_observers : Bytes → ℕ → OpError
  not_attached break_requires_write no_device : OpError
  device_error : Bytes → OpError
  closed_pipe : OpError
  signed_off : OpError

-- A message's text.
pub data Text : Type 0 where
  no_text : Text
  detached_text shutting_down malformed : Text
  error_text : OpError → Text
  online_text : Bytes → ℤ → Text
  offline_text : Bytes → Text
  status_text : Option (Bytes × Bool × ℕ × ℕ) → Text

-- `proto.PortInfo`
pub record PortInfo : Type 0 where
  pub ref : Bytes
  pub dev : Bytes
  pub desc : Bytes
  pub baud : ℤ
  pub online : Bool
  pub owner : Bytes
  pub observers : ℕ
  pub log : Bytes
  pub last_err : Bytes

-- The control operations; `other_op` is a name that the daemon does not know.
pub data Op : Type 0 where
  hello welcome list ports open_ opened close closed ping pong break_ status stat : Op
  notice error bye shutdown : Op
  other_op : Bytes → Op

-- `proto.Message`
pub record Message : Type 0 where
  pub op : Op
  pub v : ℤ
  pub user : Bytes
  pub client : Bytes
  pub server : Bytes
  pub text : Text
  pub code : Bytes
  pub port : Bytes
  pub port_list : List PortInfo
  pub baud : ℤ
  pub observe : Bool
  pub writable : Bool
  pub owner : Bytes
  pub observers : ℕ
  pub log : Bytes
  pub since : ℕ

abbrev pub blank_message : Op → Message
blank_message op = record {
  op = op;
  v = pos 0;
  user = [];
  client = [];
  server = [];
  text = no_text;
  code = [];
  port = [];
  port_list = [];
  baud = pos 0;
  observe = false;
  writable = false;
  owner = [];
  observers = 0;
  log = [];
  since = 0;
}

-- A queued frame: serial bytes, or a control message that stands for its JSON.
pub data OutMsg : Type 0 where
  data_frame : Bytes → OutMsg
  ctrl_frame : Message → OutMsg

-- `Conn`. `out` is the queue `outCh`, oldest first; `sent` is what the write loop put on the wire,
-- and `wire_ok` whether the connection under it still takes frames.
pub record Conn : Type 0 where
  pub remote : Bytes
  pub label : Bytes
  pub user : Bytes
  pub client : Bytes
  pub session : Bytes
  pub out : List OutMsg
  pub sent : List OutMsg
  pub wire_ok : Bool
  pub done : Bool
  pub port : Option Bytes
  pub writable : Bool
  pub written : ℕ
  pub opened_at : ℕ

-- Where a port's worker stands in its loops: it has not started, is about to open the device, reads
-- from it, or has returned.
pub data Phase : Type 0 where
  unstarted opening reading returned : Phase

-- `Port`. `sp` is the open device, `phase` and `backoff` (in seconds) the local state of its worker.
-- For the statements: `tx` is the bytes that the devices took, each with the connection that wrote
-- them, and `archive` the log writers that the port has let go.
pub record Port : Type 0 where
  pub ref : Bytes
  pub link : Bytes
  pub dev : Bytes
  pub desc : Bytes
  pub baud : ℤ
  pub ring : Ring
  pub sp : Option ℕ
  pub online : Bool
  pub running : Bool
  pub last_err : Bytes
  pub log_err : Bytes
  pub logw : Option Log
  pub conns : List ℕ
  pub owner : Option ℕ
  pub read : ℕ
  pub written : ℕ
  pub phase : Phase
  pub backoff : ℕ
  pub tx : List (ℕ × Bytes)
  pub archive : List Log

-- `Manager`; `trail` holds the audit events in order.
pub record Manager : Type 0 where
  pub opts : Options
  pub trail : List Event
  pub ports : List (Bytes × Port)
  pub conns : List (ℕ × Conn)
  pub closed : Bool
  pub scan_err : Option Bytes
  pub stop_requested : Bool

abbrev pub audit_log : Manager → Event → Manager
audit_log m e = record m { trail = m.trail ++ e ∷ [] }

-- `int64` counters, as bit patterns.
abbrev pub add64 : ℕ → ℕ → ℕ
add64 a b = (a + b) % 2 ^ 64

-- `p.owner == c`
abbrev pub is_owner : Option ℕ → ℕ → Bool
is_owner none c = false
is_owner (some o) c = o == c

-- How many of the connections do not own the port.
unfoldable pub count_observers : Option ℕ → List ℕ → ℕ
count_observers o [] = 0
count_observers o (c ∷ cs) = (if is_owner o c then 0 else 1) + count_observers o cs
