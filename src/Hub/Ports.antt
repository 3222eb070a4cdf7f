-- ===== src/Hub/Ports.antt =====
-- internal/hub/hub.go: the operations of a `Port`, as functions on the manager that holds it. Each
-- does what the source does under the port's lock and just after it.
use sercon.Prelude.{
  ℕ, true, false, Option, none, some, List, [], ◌∷◌, ◌++◌, ltb, if◌then◌else◌, maybe, length, take,
  Bytes, codes, is_empty,
}
use sercon.Prelude.Dict.{nat_key, str_key, get, adjust}
use sercon.Hub.Types.{
  port_online, port_offline, baud_is, failure, blank_event, online_note, offline_note,
  capture_stopped, LogCall, wrote, noted, closed_log, Log, log_call, OpError, no_device,
  device_error, online_text, offline_text, PortInfo, data_frame, Conn, opening, Port, Manager,
  audit_log, add64, count_observers,
}
use sercon.Hub.Queue.{enqueue, notify}
use sercon.Hub.Ring.{ring_write}

abbrev pub on_port : Manager → Bytes → (Port → Port) → Manager
on_port m r f = record m { ports = adjust r f m.ports }

abbrev pub on_conn : Manager → ℕ → (Conn → Conn) → Manager
on_conn m c f = record m { conns = adjust c f m.conns }

-- The same for each connection of a list.
unfoldable pub on_conns : Manager → List ℕ → (Conn → Conn) → Manager
on_conns m [] f = m
on_conns m (c ∷ cs) f = on_conns (on_conn m c f) cs f

-- A call of the port's log writer, if it has one.
abbrev pub log_to : LogCall → Port → Port
log_to call p = elim p.logw [ none ↦ p | some l ↦ record p { logw = some (log_call l call) } ]

-- The label of the connection that owns a port.
abbrev pub label_of : Manager → Option ℕ → Bytes
label_of m none = []
label_of m (some c) = elim (get c m.conns) [ none ↦ [] | some k ↦ k.label ]

-- `"; "` between the log's failure and the device's.
abbrev pub joined_err : Bytes → Bytes → Bytes
joined_err log_err last_err =
    if is_empty log_err
    then last_err
    else if is_empty last_err
    then log_err
    else log_err ++ (codes "; " ++ last_err)

abbrev pub log_path : Option Log → Bytes
log_path none = []
log_path (some l) = l.path

-- `Port.Info`
unfoldable pub info : Manager → Port → PortInfo
info m p = record {
  ref = p.ref;
  dev = p.dev;
  desc = p.desc;
  baud = p.baud;
  online = p.online;
  owner = label_of m p.owner;
  observers = count_observers p.owner p.conns;
  log = log_path p.logw;
  last_err = joined_err p.log_err p.last_err;
}

-- `Port.ensureWorker`
abbrev pub start_worker : Port → Port
start_worker p = if p.running then p else record p { running = true; phase = opening; backoff = 1 }

unfoldable pub ensure_worker : Manager → Bytes → Manager
ensure_worker m r = if m.closed then m else on_port m r start_worker

-- `Port.goOnline`
abbrev pub bring_up : ℕ → Bytes → Port → Port
bring_up sp dev p = record p { sp = some sp; dev = dev; online = true; last_err = [] }

abbrev pub announce_up : Manager → Bytes → ℕ → Bytes → Port → Manager
announce_up m r sp dev p =
    on_conns
      (audit_log (on_port m r (λ q. log_to (noted (online_note dev q.baud)) (bring_up sp dev q)))
        (record (blank_event port_online) { port = p.ref; dev = dev; detail = baud_is p.baud }))
      p.conns (λ k. notify k (online_text dev p.baud))

unfoldable pub go_online : Manager → Bytes → ℕ → Bytes → Manager
unfolding maybe
go_online m r sp dev =
    maybe m (λ p. if p.online then on_port m r (bring_up sp dev) else announce_up m r sp dev p)
      (get r m.ports)

-- `Port.goOffline`
abbrev pub bring_down : Bytes → Port → Port
bring_down err p = record p { online = false; last_err = err }

abbrev pub announce_down : Manager → Bytes → Bytes → Port → Manager
announce_down m r err p =
    on_conns
      (audit_log (on_port m r (λ q. log_to (noted (offline_note err)) (bring_down err q)))
        (record (blank_event port_offline) { port = p.ref; dev = p.dev; detail = failure err }))
      p.conns (λ k. notify k (offline_text err))

unfoldable pub go_offline : Manager → Bytes → Bytes → Manager
unfolding maybe
go_offline m r err =
    maybe m (λ p. if p.online then announce_down m r err p else on_port m r (bring_down err))
      (get r m.ports)

-- `Port.clearDevice`
abbrev pub clear_device : Port → Port
clear_device p = record p { sp = none }

-- `Port.fanout` up to the port's lock: the chunk enters the backlog.
unfoldable pub fanout_ring : Manager → Bytes → Bytes → Manager
fanout_ring m r b = on_port m r (λ p. record p { ring = ring_write p.ring b })

-- `Port.fanout` from there on: every attached client and the log get the chunk.
abbrev pub count_read : Bytes → Port → Port
count_read b p = log_to (wrote b) (record p { read = add64 p.read (length b) })

unfoldable pub fanout_publish : Manager → Bytes → Bytes → Manager
unfolding maybe
fanout_publish m r b =
    maybe m (λ p. on_conns (on_port m r (count_read b)) p.conns (λ k. enqueue k (data_frame b)))
      (get r m.ports)

-- `Port.fanout`
unfoldable pub fanout : Manager → Bytes → Bytes → Manager
unfolding fanout_ring fanout_publish
fanout m r b = fanout_publish (fanout_ring m r b) r b

-- What the device answers to a write or a break: how many bytes it took, and its error.
pub record DeviceReply : Type 0 where
  pub taken : ℕ
  pub failed : Option Bytes

abbrev pub device_failure : Option Bytes → Option OpError
device_failure none = none
device_failure (some e) = some (device_error e)

-- `Port.write` for connection `c`: the bytes that the device took are counted.
abbrev pub count_written : ℕ → ℕ → Bytes → Port → Port
count_written c n b p =
    if ltb 0 n then record p { written = add64 p.written n; tx = p.tx ++ (c, take n b) ∷ [] } else p

abbrev pub write_device : Manager → Bytes → ℕ → Bytes → DeviceReply → Manager × ℕ × Option OpError
write_device m r c b dev =
    (on_port m r (count_written c dev.taken b), dev.taken, device_failure dev.failed)

unfoldable pub write_port : Manager → Bytes → ℕ → Bytes → DeviceReply → Manager × ℕ × Option OpError
unfolding maybe
write_port m r c b dev =
    maybe (m, 0, some no_device)
      (λ (p : Port). maybe (m, 0, some no_device) (λ _. write_device m r c b dev) p.sp)
      (get r m.ports)

-- `Port.sendBreak`
unfoldable pub send_break : Manager → Bytes → DeviceReply → Option OpError
unfolding maybe
send_break m r dev =
    maybe (some no_device)
      (λ (p : Port). maybe (some no_device) (λ _. device_failure dev.failed) p.sp) (get r m.ports)

-- `Port.shutdown`
abbrev pub shutdown_port : Port → Port
shutdown_port p = record p { sp = none; online = false }

-- `Port.release`
unfoldable pub release : Port → Port
release p = elim p.logw [
  | none ↦ p
  | some l ↦ record p {
    logw = none;
    archive = p.archive ++ log_call (log_call l (noted capture_stopped)) closed_log ∷ [];
  }
]
