-- ===== src/Hub/Loop.antt =====
-- internal/hub/hub.go and internal/hub/conn.go: the goroutines of the daemon, one round of a loop at a
-- time, and the runs that they make together.
use sercon.Prelude.{
  ℕ, ◌*◌, ◌⊎◌, Bool, true, false, not, Option, none, some, List, [], ◌∷◌, ltb, if◌then◌else◌, maybe,
  Bytes, codes, is_empty,
}
use sercon.Prelude.Dict.{nat_key, str_key, get, put, delete}
use sercon.Hub.Types.{
  disconnected, session_close, Event, blank_event, OpError, signed_off, malformed, error_text,
  Message, Conn, Phase, opening, reading, returned, Port, Manager, audit_log,
}
use sercon.Hub.Queue.{kill, write_step}
use sercon.Hub.Ports.{on_port, on_conn, go_online, go_offline, clear_device, fanout, release}
use sercon.Hub.Manager.{Device, sync, close_manager}
use sercon.Hub.Session.{Environ, send_to, detach, error_message, handle_input, handle}

-- What `Reader.Next` and the JSON decoder make of the next frame.
pub data Input : Type 0 where
  data_in : Bytes → Input
  ctrl_in : Message → Input
  malformed_in : Input
  read_failed : Input

abbrev pub is_done : Manager → ℕ → Bool
is_done m c = elim (get c m.conns) [ none ↦ true | some k ↦ k.done ]

-- What the read loop does with the result of `handle`; the flag says whether it goes on.
abbrev pub after_handle : ℕ → Manager × Option OpError → Manager × Bool
after_handle c (m, none) = (m, not (is_done m c))
after_handle c (m, some signed_off) = (m, false)
after_handle c (m, some e) =
    let m' = (send_to m c (error_message (codes "failed") (error_text e))).0 in
    (m', not (is_done m' c))

-- One round of `readLoop`.
unfoldable pub read_round : Manager → ℕ → Conn → Input → Environ → Manager × Bool
read_round m c k (data_in b) env = let m' = handle_input m c k b env in (m', not (is_done m' c))
read_round m c k (ctrl_in msg) env = after_handle c (handle m c k msg env)
read_round m c k malformed_in env =
    ((send_to m c (error_message (codes "badframe") malformed)).0, true)
read_round m c k read_failed env = (m, false)

abbrev pub session_end : Conn → Event
session_end k = record (blank_event session_close) {
  user = k.user;
  client = k.client;
  remote = k.remote;
  session = k.session;
}

abbrev pub unregister : Manager → ℕ → Manager
unregister m c = record m { conns = delete c m.conns }

-- `Conn.shutdown`: closing `done` and the connection matters no more once it is out of the map.
unfoldable pub shutdown_conn : Manager → ℕ → Conn → Manager
shutdown_conn m c k =
    let m' = detach m c disconnected in
    unregister (if is_empty k.label then m' else audit_log m' (session_end k)) c

abbrev pub new_conn : Bytes → Bytes → Conn
new_conn remote session = record {
  remote = remote;
  label = [];
  user = [];
  client = [];
  session = session;
  out = [];
  sent = [];
  wire_ok = true;
  done = false;
  port = none;
  writable = false;
  written = 0;
  opened_at = 0;
}

-- `ServeConn` up to its loops, for a connection that gets the number `c`.
unfoldable pub serve : Manager → ℕ → Bytes → Bytes → Manager
serve m c remote session =
    if m.closed then m else record m { conns = put c (new_conn remote session) m.conns }

-- A round of the read loop, and the end of `ServeConn` when it stops. The connection is looked up
-- again for `shutdown`, since the round may have changed its label.
abbrev pub finish_read : ℕ → Manager × Bool → Manager
finish_read c (m, true) = m
finish_read c (m, false) = maybe m (λ k. shutdown_conn m c k) (get c m.conns)

unfoldable pub recv : Manager → ℕ → Input → Environ → Manager
unfolding maybe
recv m c i env = maybe m (λ k. finish_read c (read_round m c k i env)) (get c m.conns)

-- `backoff *= 2` up to 15 seconds.
unfoldable pub next_backoff : ℕ → ℕ
next_backoff b = if ltb b 15 then (if ltb 15 (b * 2) then 15 else b * 2) else b

-- What a port's worker meets: its open succeeds or fails, a read brings bytes, an error, or both.
pub data DeviceEvent : Type 0 where
  open_ok : ℕ → Bytes → DeviceEvent
  open_failed : Bytes → DeviceEvent
  read_done : Bytes → Option Bytes → DeviceEvent

abbrev pub end_worker : Port → Port
end_worker p = record (release p) { phase = returned }

abbrev pub set_backoff : ℕ → Port → Port
set_backoff b p = record p { backoff = b }

-- The device failed to open: the port is offline, and the worker sleeps before the next attempt. A
-- stop during the sleep is met by the next step.
abbrev pub open_again : Manager → Bytes → Manager
open_again m r = on_port m r (λ p. set_backoff (next_backoff p.backoff) p)

-- The inner loop is left: the device is closed, and another attempt follows unless the manager stops.
abbrev pub leave_device : Manager → Bytes → Manager
leave_device m r =
    if m.closed
    then on_port m r (λ p. end_worker (clear_device p))
    else on_port m r (λ p. record (clear_device p) { phase = opening })

abbrev pub start_reading : Port → Port
start_reading p = record p { phase = reading }

abbrev pub opening_step : Manager → Bytes → DeviceEvent → Manager
opening_step m r (open_ok sp dev) =
    on_port (go_online (on_port m r (set_backoff 1)) r sp dev) r start_reading
opening_step m r (open_failed err) = open_again (go_offline m r err) r
opening_step m r (read_done b err) = m

abbrev pub publish : Manager → Bytes → Bytes → Manager
publish m r b = if is_empty b then m else fanout m r b

abbrev pub after_read : Manager → Bytes → Option Bytes → Manager
after_read m r none = if m.closed then leave_device m r else m
after_read m r (some err) = leave_device (if m.closed then m else go_offline m r err) r

abbrev pub reading_step : Manager → Bytes → DeviceEvent → Manager
reading_step m r (read_done b err) = after_read (publish m r b) r err
reading_step m r (open_ok sp dev) = m
reading_step m r (open_failed err) = m

abbrev pub phase_step : Phase → Manager → Bytes → DeviceEvent → Manager
phase_step opening m r e = if m.closed then on_port m r end_worker else opening_step m r e
phase_step reading m r e = reading_step m r e
phase_step _ m r e = m

-- One stretch of `Port.worker`, between two waits for the device.
unfoldable pub worker_step : Manager → Bytes → DeviceEvent → Manager
unfolding maybe
worker_step m r e = maybe m (λ (p : Port). phase_step p.phase m r e) (get r m.ports)

-- The steps of a daemon, in whatever order its goroutines take them.
pub data Step : Type 0 where
  accept : ℕ → Bytes → Bytes → Step
  receive : ℕ → Input → Environ → Step
  write_out : ℕ → Step
  wire_breaks : ℕ → Step
  idle_timeout : ℕ → Step
  rescan : Bytes ⊎ List Device → Step
  work : Bytes → DeviceEvent → Step
  stop : Step

abbrev pub break_wire : Conn → Conn
break_wire k = record k { wire_ok = false }

-- A new connection is a new pointer: a number that is taken names none.
abbrev pub accept_step : Manager → ℕ → Bytes → Bytes → Option Conn → Manager
accept_step m c remote session none = serve m c remote session
accept_step m c remote session (some _) = m

unfoldable pub step : Manager → Step → Manager
step m (accept c remote session) = accept_step m c remote session (get c m.conns)
step m (receive c i env) = recv m c i env
step m (write_out c) = on_conn m c write_step
step m (wire_breaks c) = on_conn m c break_wire
step m (idle_timeout c) = on_conn m c kill
step m (rescan devs) = (sync m devs).0
step m (work r e) = worker_step m r e
step m stop = close_manager m

unfoldable pub run : Manager → List Step → Manager
run m [] = m
run m (s ∷ ss) = run (step m s) ss
