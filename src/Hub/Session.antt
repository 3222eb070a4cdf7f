-- ===== src/Hub/Session.antt =====
-- internal/hub/conn.go: the handlers of a client's messages, as functions on the manager, with the
-- number of the connection that they serve. A handler runs as one step.
use sercon.Prelude.{
  ℕ, Bool, false, ◌&&◌, not, Option, none, some, List, [], ◌∷◌, ◌++◌, ltb, leb, ◌==◌, if◌then◌else◌,
  maybe, ℤ, pos, negsuc, is_pos, Bytes, codes, is_empty,
}
use sercon.Prelude.Dict.{nat_key, str_key, get, include, exclude}
use sercon.Hub.Types.{
  Reason, client_closed, reopening, EventName, daemon_stop, session_open, port_open, port_close,
  port_break, observe_denied, busy_denied, requested_by_client, held_by, role, reason, Event,
  blank_event, acquired_by, observed_by, break_sent_by, released_by, noted, OpError, handshake_done,
  protocol_mismatch, unsupported_op, no_match, offline, held, observe_disabled, too_many_observers,
  not_attached, break_requires_write, closed_pipe, signed_off, Text, detached_text, shutting_down,
  error_text, status_text, Op, hello, welcome, list, ports, open_, opened, close, closed, ping,
  pong, break_, status, stat, notice, error, bye, shutdown, other_op, Message, blank_message,
  data_frame, Conn, Port, Manager, audit_log, add64, is_owner, count_observers,
}
use sercon.Hub.Queue.{enqueue, send}
use sercon.Hub.Ring.{ring_bytes}
use sercon.Hub.Ports.{
  on_port, on_conn, log_to, label_of, log_path, ensure_worker, DeviceReply, write_port, send_break,
}
use sercon.Hub.Manager.{to_ℕ, port_infos, request_shutdown, Resolved, found, failed_to, resolve}
use sercon.Proto.{version}

-- What the handlers ask the machine for.
pub record Environ : Type 0 where
  pub env_user : Bytes
  pub env_username : Bytes
  pub current_user : Bytes
  pub hostname : Bytes
  pub now : ℕ
  pub device : DeviceReply

-- `firstNonEmpty`
unfoldable pub first_non_empty : List Bytes → Bytes
first_non_empty [] = []
first_non_empty (v ∷ vs) = if is_empty v then first_non_empty vs else v

-- `c.send` for a registered connection.
unfoldable pub send_to : Manager → ℕ → Message → Manager × Option OpError
unfolding maybe
send_to m c msg =
    maybe (m, some closed_pipe) (λ k. (on_conn m c (λ j. (send j msg).0), (send k msg).1))
      (get c m.conns)

-- `Conn.detach` on the port that the connection had.
abbrev pub leave_port : ℕ → Conn → Reason → Port → Port
leave_port c k why p =
    log_to (noted (released_by k.label k.writable why k.written))
      (record p { conns = exclude c p.conns; owner = if is_owner p.owner c then none else p.owner })

abbrev pub unbound : Conn → Conn
unbound k = record k { port = none; writable = false }

abbrev pub close_event : Conn → Bytes → Reason → Event
close_event k r why = record (blank_event port_close) {
  user = k.user;
  client = k.client;
  port = r;
  session = k.session;
  detail = reason why;
  bytes = k.written;
}

unfoldable pub detach_from : Manager → ℕ → Conn → Reason → Option Bytes → Manager
detach_from m c k why none = on_conn m c unbound
detach_from m c k why (some r) =
    audit_log (on_port (on_conn m c unbound) r (leave_port c k why)) (close_event k r why)

-- `Conn.detach`
unfoldable pub detach : Manager → ℕ → Reason → Manager
unfolding detach_from maybe
detach m c why = maybe m (λ (k : Conn). detach_from m c k why k.port) (get c m.conns)

-- `msg.V == proto.Version`
abbrev pub speaks_version : ℤ → Bool
speaks_version (pos v) = v == version
speaks_version (negsuc v) = false

abbrev pub identify : Message → Environ → Conn → Conn
identify msg env k =
    let user =
      first_non_empty (msg.user ∷ env.env_user ∷ env.env_username ∷ env.current_user ∷ []) in
    let client = first_non_empty (msg.client ∷ codes "unknown" ∷ []) in
    record k { user = user; client = client; label = user ++ (codes "@" ++ client) }

-- `Conn.handleHello`
unfoldable pub handle_hello : Manager → ℕ → Conn → Message → Environ → Manager × Option OpError
handle_hello m c k msg env =
    if not (is_empty k.label)
    then (m, some handshake_done)
    else if not (speaks_version msg.v)
    then (m, some (protocol_mismatch version msg.v))
    else (let k' = identify msg env k in
        send_to
          (audit_log (on_conn m c (identify msg env)) (record (blank_event session_open) {
            user = k'.user;
            client = k'.client;
            remote = k.remote;
            session = k.session;
          }))
          c
          (record (blank_message welcome) {
            v = pos version;
            server = env.hostname;
            user = k'.user;
          }))

abbrev pub conn_event : EventName → Conn → Bytes → Event
conn_event e k r = record (blank_event e) {
  user = k.user;
  client = k.client;
  port = r;
  session = k.session;
}

-- The backlog is queued before the connection joins the port.
abbrev pub queue_backlog : Bytes → Conn → Conn
queue_backlog b k = if is_empty b then k else enqueue k (data_frame b)

abbrev pub join_port : ℕ → Bool → ℤ → Port → Port
join_port c want baud p = record p {
  baud = if is_pos baud && is_empty p.conns then baud else p.baud;
  conns = include c p.conns;
  owner = if want then some c else p.owner;
}

abbrev pub bound : Bytes → Bool → ℕ → Conn → Conn
bound r want now k = record k { port = some r; writable = want; opened_at = now }

abbrev pub opened_message : Manager → Port → Bool → ℕ → Message
opened_message m p want now = record (blank_message opened) {
  port = p.ref;
  baud = p.baud;
  writable = want;
  owner = label_of m p.owner;
  observers = count_observers p.owner p.conns;
  log = log_path p.logw;
  since = now;
}

-- The end of `handleOpen`, once nothing stands against it.
unfoldable pub attach : Manager → ℕ → Conn → Port → Message → ℕ → Manager × Option OpError
attach m c k p msg now =
    let want = not msg.observe in
    let p' = join_port c want msg.baud p in
    let queued = on_conn m c (queue_backlog (ring_bytes p.ring)) in
    let joined = on_port queued p.ref (join_port c want msg.baud) in
    let started = ensure_worker (on_conn joined c (bound p.ref want now)) p.ref in
    let audited =
      audit_log started
        (record (conn_event port_open k p.ref) { dev = p.dev; detail = role want }) in
    let marked =
      on_port audited p.ref
        (log_to (noted (if want then acquired_by k.label else observed_by k.label))) in
    send_to marked c (opened_message m p' want now)

-- `p.owner != nil && p.owner != c`
abbrev pub held_by_other : Option ℕ → ℕ → Bool
held_by_other none c = false
held_by_other (some o) c = not (o == c)

abbrev pub offline_reason : Bytes → Bytes
offline_reason last = if is_empty last then codes "device not present" else last

-- `MaxObservers > 0` and as many observers already.
abbrev pub observers_full : Manager → Port → Bool
observers_full m p =
    is_pos m.opts.max_observers && leb (to_ℕ m.opts.max_observers) (count_observers p.owner p.conns)

-- The refusals that are recorded.
abbrev pub deny_busy : Manager → ℕ → Conn → Port → Manager × Option OpError
deny_busy m c k p = (
  audit_log m (record (conn_event busy_denied k p.ref) { detail = held_by (label_of m p.owner) }),
  some (held p.ref (label_of m p.owner)),
)

abbrev pub deny_observe : Manager → Conn → Port → Manager × Option OpError
deny_observe m k p = (audit_log m (conn_event observe_denied k p.ref), some observe_disabled)

-- The checks of `handleOpen` on the port that it resolved to.
unfoldable pub open_port : Manager → ℕ → Conn → Port → Message → ℕ → Manager × Option OpError
unfolding attach maybe
open_port m c k p msg now =
    maybe (m, some (offline p.ref (offline_reason p.last_err)))
      (λ _.
        if not msg.observe && held_by_other p.owner c
        then deny_busy m c k p
        else if msg.observe && not m.opts.allow_observe
        then deny_observe m k p
        else if msg.observe && observers_full m p
        then (m, some (too_many_observers p.ref (count_observers p.owner p.conns)))
        else attach m c k p msg now)
      p.sp

-- `Conn.handleOpen`. A reference that resolves is in the map.
unfoldable pub open_resolved :
    Manager → ℕ → Conn → Resolved → Message → ℕ → Manager × Option OpError
unfolding open_port maybe
open_resolved m c k (failed_to e) msg now = (m, some e)
open_resolved m c k (found r) msg now =
    maybe (m, some (no_match r)) (λ p. open_port m c k p msg now) (get r m.ports)

unfoldable pub handle_open : Manager → ℕ → Conn → Message → ℕ → Manager × Option OpError
unfolding open_resolved detach
handle_open m c k msg now =
    let m' = detach m c reopening in open_resolved m' c k (resolve m' msg.port) msg now

-- `Conn.handleBreak`
unfoldable pub break_on : Manager → Conn → Bytes → Option OpError → Manager × Option OpError
break_on m k r (some e) = (m, some e)
break_on m k r none = (
  on_port (audit_log m (conn_event port_break k r)) r (log_to (noted (break_sent_by k.label))),
  none,
)

unfoldable pub handle_break : Manager → Conn → Environ → Manager × Option OpError
unfolding break_on maybe
handle_break m k env =
    maybe (m, some not_attached)
      (λ r.
        if k.writable
        then break_on m k r (send_break m r env.device)
        else (m, some break_requires_write))
      k.port

abbrev pub error_message : Bytes → Text → Message
error_message code text = record (blank_message error) { code = code; text = text }

abbrev pub count_typed : ℕ → Conn → Conn
count_typed n k = if ltb 0 n then record k { written = add64 k.written n } else k

abbrev pub report_write : Manager → ℕ → Option OpError → Manager
report_write m c none = m
report_write m c (some e) = (send_to m c (error_message (codes "write") (error_text e))).0

abbrev pub after_write : ℕ → Manager × ℕ × Option OpError → Manager
after_write c (m, n, failed) = report_write (on_conn m c (count_typed n)) c failed

-- `Conn.handleInput`
unfoldable pub handle_input : Manager → ℕ → Conn → Bytes → Environ → Manager
unfolding maybe
handle_input m c k b env =
    maybe m (λ r. if k.writable then after_write c (write_port m r c b env.device) else m) k.port

-- `Conn.status`
abbrev pub status_of : Conn → Option Bytes → Text
status_of k none = status_text none
status_of k (some r) = status_text (some (r, k.writable, k.opened_at, k.written))

-- The operations that only the daemon sends reach the default branch.
abbrev pub op_name : Op → Bytes
op_name (other_op s) = s
op_name welcome = codes "welcome"
op_name ports = codes "ports"
op_name opened = codes "opened"
op_name closed = codes "closed"
op_name pong = codes "pong"
op_name stat = codes "stat"
op_name notice = codes "notice"
op_name error = codes "error"
op_name _ = []

-- `Conn.handle`
unfoldable pub handle_op : Op → Manager → ℕ → Conn → Message → Environ → Manager × Option OpError
handle_op hello m c k msg env = handle_hello m c k msg env
handle_op list m c k msg env =
    send_to m c (record (blank_message ports) { port_list = port_infos m })
handle_op open_ m c k msg env = handle_open m c k msg env.now
handle_op close m c k msg env =
    send_to (detach m c client_closed) c (record (blank_message closed) { text = detached_text })
handle_op ping m c k msg env = send_to m c (blank_message pong)
handle_op break_ m c k msg env = handle_break m k env
handle_op status m c k msg env =
    send_to m c (record (blank_message stat) { text = status_of k k.port })
handle_op shutdown m c k msg env =
    send_to
      (request_shutdown (
        audit_log m (record (blank_event daemon_stop) {
          user = k.user;
          client = k.client;
          session = k.session;
          detail = requested_by_client;
        })))
      c (record (blank_message stat) { text = shutting_down })
handle_op bye m c k msg env = (m, some signed_off)
handle_op op m c k msg env = (m, some (unsupported_op (op_name op)))

abbrev pub handle : Manager → ℕ → Conn → Message → Environ → Manager × Option OpError
handle m c k msg env = handle_op msg.op m c k msg env
