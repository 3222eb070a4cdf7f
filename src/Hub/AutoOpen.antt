-- ===== src/Hub/AutoOpen.antt =====
-- internal/hub: what becomes of the ports of a manager whose option `AutoOpen` is off.
pub mod Runs
use sercon.Prelude.{
  ℕ, ◌≡◌, refl, sym, ◌∙◌, subst, ◌≢◌, Bool, true, false, not, Option, none, some, arith,
  maybe-intro, if-intro, Bytes, codes, str_eq, is_empty,
}
use sercon.Prelude.Dict.{nat_key, str_key, get, adjust-inv}
use sercon.Hub.Types.{
  Reason, client_closed, reopening, disconnected, port_break, LogCall, OpError, signed_off,
  error_text, Op, hello, list, open_, close, ping, break_, status, shutdown, Message, Conn,
  unstarted, Port, Manager, audit_log,
}
use sercon.Hub.Ports.{on_port, on_conn, log_to, DeviceReply, count_written, write_port, send_break}
use sercon.Hub.Manager.{Resolved, found, failed_to}
use sercon.Hub.Session.{
  Environ, after_write, report_write, count_typed, conn_event, speaks_version, send_to, leave_port,
  unbound, detach_from, detach, handle_hello, open_port, open_resolved, handle_open, break_on,
  handle_break, error_message, handle_input, handle_op,
}
use sercon.Hub.Loop.{
  Input, data_in, ctrl_in, malformed_in, read_failed, after_handle, read_round, unregister,
  shutdown_conn, finish_read,
}

-- A port whose worker was never started.
pub record IsStill (p : Port) : Type 0 where
  pub no_sp : p.sp ≡ none
  pub not_running : p.running ≡ false
  pub not_started : p.phase ≡ unstarted

pub record Idle (m : Manager) : Type 0 where
  pub auto_off : m.opts.auto_open ≡ false
  pub still : (r : Bytes) (p : Port) → get r m.ports ≡ some p → IsStill p

record IdleResult (x : Manager × Option OpError) : Type 0 where
  idle : Idle x.0

pub Still-same :
    (p q : Port) → IsStill p → q.sp ≡ p.sp → q.running ≡ p.running → q.phase ≡ p.phase → IsStill q
Still-same p q h a b c = record {
  no_sp = a ∙ h.no_sp;
  not_running = b ∙ h.not_running;
  not_started = c ∙ h.not_started;
}

log_to-IsStill : (call : LogCall) (p : Port) → IsStill p → IsStill (log_to call p)
log_to-IsStill call p h =
    Still-same p (log_to call p) h (ground arith) (ground arith) (ground arith)

pub on_port-Idle :
    (m : Manager) (r : Bytes) (f : Port → Port)
    → ((p : Port) → IsStill p → IsStill (f p))
    → Idle m
    → Idle (on_port m r f)
on_port-Idle m r f s h = record {
  auto_off = h.auto_off;
  still = λ s' q e.
      let (p, hp, eq) = adjust-inv r s' f m.ports e in
      subst IsStill (sym eq) (
        if-intro IsStill (str_eq r s') (f p) p (λ _. s p (h.still s' p hp)) (λ _. h.still s' p hp));
}

send_to-Idle : (m : Manager) (c : ℕ) (msg : Message) → Idle m → IdleResult (send_to m c msg)
unfolding send_to
send_to-Idle m c msg h =
    maybe-intro IdleResult _ _ (get c m.conns) (λ _. record { idle = h })
      (λ k _. record { idle = record { auto_off = h.auto_off; still = h.still } })

leave_port-IsStill :
    (c : ℕ) (k : Conn) (why : Reason) (p : Port) → IsStill p → IsStill (leave_port c k why p)
leave_port-IsStill c k why p h =
    Still-same p (leave_port c k why p) h (ground arith) (ground arith) (ground arith)

detach_from-Idle :
    (m : Manager) (c : ℕ) (k : Conn) (why : Reason) (o : Option Bytes)
    → Idle m
    → Idle (detach_from m c k why o)
unfolding detach_from
detach_from-Idle m c k why none h = record { auto_off = h.auto_off; still = h.still }
detach_from-Idle m c k why (some r) h =
    let left =
      on_port-Idle (on_conn m c unbound) r (leave_port c k why) (leave_port-IsStill c k why)
        (record { auto_off = h.auto_off; still = h.still }) in
    record { auto_off = left.auto_off; still = left.still }

pub detach-Idle : (m : Manager) (c : ℕ) (why : Reason) → Idle m → Idle (detach m c why)
unfolding detach
detach-Idle m c why h =
    maybe-intro Idle _ _ (get c m.conns) (λ _. h) (λ k _. detach_from-Idle m c k why k.port h)

-- The refusal of an open, and the manager as it was.
pub record Refused (m : Manager) (x : Manager × Option OpError) : Type 0 where
  pub same : x.0 ≡ m
  pub error_given : x.1 ≢ none

pub open_resolved-Refused :
    (m : Manager) (c : ℕ) (k : Conn) (res : Resolved) (msg : Message) (now : ℕ)
    → Idle m
    → Refused m (open_resolved m c k res msg now)
unfolding open_resolved open_port
open_resolved-Refused m c k (failed_to e) msg now h = record { same = refl; error_given = λ x. cc }
open_resolved-Refused m c k (found r) msg now h =
    maybe-intro (Refused m) _ _ (get r m.ports) (λ _. record { same = refl; error_given = λ x. cc })
      (λ p there.
        maybe-intro (Refused m) _ _ p.sp (λ _. record { same = refl; error_given = λ x. cc })
          (λ sp on. let off = (h.still r p there).no_sp in cc (on, off)))

handle_open-Idle :
    (m : Manager) (c : ℕ) (k : Conn) (msg : Message) (now : ℕ)
    → Idle m
    → IdleResult (handle_open m c k msg now)
unfolding handle_open
handle_open-Idle m c k msg now h =
    let gone = detach-Idle m c reopening h in
    let refused = open_resolved-Refused (detach m c reopening) c k _ msg now gone in
    record { idle = subst Idle (sym refused.same) gone }

handle_hello-Idle :
    (m : Manager) (c : ℕ) (k : Conn) (msg : Message) (env : Environ)
    → Idle m
    → IdleResult (handle_hello m c k msg env)
unfolding handle_hello
handle_hello-Idle m c k msg env h =
    if-intro IdleResult (not (is_empty k.label)) _ _ (λ _. record { idle = h })
      (λ _.
        if-intro IdleResult (not (speaks_version msg.v)) _ _ (λ _. record { idle = h })
          (λ _. send_to-Idle _ c _ (record { auto_off = h.auto_off; still = h.still })))

break_on-Idle :
    (m : Manager) (k : Conn) (r : Bytes) (e : Option OpError)
    → Idle m
    → IdleResult (break_on m k r e)
unfolding break_on
break_on-Idle m k r none h = record {
  idle =
      on_port-Idle (audit_log m (conn_event port_break k r)) r _ (log_to-IsStill _)
        (record { auto_off = h.auto_off; still = h.still });
}
break_on-Idle m k r (some e) h = record { idle = h }

handle_break-Idle :
    (m : Manager) (k : Conn) (env : Environ) → Idle m → IdleResult (handle_break m k env)
unfolding handle_break
handle_break-Idle m k env h =
    maybe-intro IdleResult _ _ k.port (λ _. record { idle = h })
      (λ r _.
        if-intro IdleResult k.writable _ _ (λ _. break_on-Idle m k r (send_break m r env.device) h)
          (λ _. record { idle = h }))

report_write-Idle : (m : Manager) (c : ℕ) (e : Option OpError) → Idle m → Idle (report_write m c e)
report_write-Idle m c none h = h
report_write-Idle m c (some e) h =
    (send_to-Idle m c (error_message (codes "write") (error_text e)) h).idle

after_write-Idle : (c : ℕ) (x : Manager × ℕ × Option OpError) → Idle x.0 → Idle (after_write c x)
after_write-Idle c (m, n, e) h =
    report_write-Idle (on_conn m c (count_typed n)) c e
      (record { auto_off = h.auto_off; still = h.still })

count_written-IsStill :
    (c n : ℕ) (b : Bytes) (p : Port) → IsStill p → IsStill (count_written c n b p)
count_written-IsStill c n b p h =
    Still-same p (count_written c n b p) h (ground arith) (ground arith) (ground arith)

write_port-Idle :
    (m : Manager) (r : Bytes) (c : ℕ) (b : Bytes) (dev : DeviceReply)
    → Idle m
    → Idle (write_port m r c b dev).0
unfolding write_port
write_port-Idle m r c b dev h =
    maybe-intro Left _ _ (get r m.ports) (λ _. h)
      (λ p _.
        maybe-intro Left _ _ p.sp (λ _. h)
          (λ _ _. on_port-Idle m r _ (count_written-IsStill c dev.taken b) h))
  where
    Left : Manager × ℕ × Option OpError → Type 0
    Left x = Idle x.0

handle_input-Idle :
    (m : Manager) (c : ℕ) (k : Conn) (b : Bytes) (env : Environ)
    → Idle m
    → Idle (handle_input m c k b env)
unfolding handle_input
handle_input-Idle m c k b env h =
    maybe-intro Idle _ _ k.port (λ _. h)
      (λ r _.
        if-intro Idle k.writable _ _
          (λ _. after_write-Idle c _ (write_port-Idle m r c b env.device h)) (λ _. h))

handle_op-Idle :
    (op : Op) (m : Manager) (c : ℕ) (k : Conn) (msg : Message) (env : Environ)
    → Idle m
    → IdleResult (handle_op op m c k msg env)
unfolding handle_op
handle_op-Idle hello m c k msg env h = handle_hello-Idle m c k msg env h
handle_op-Idle list m c k msg env h = send_to-Idle m c _ h
handle_op-Idle open_ m c k msg env h = handle_open-Idle m c k msg env.now h
handle_op-Idle close m c k msg env h = send_to-Idle _ c _ (detach-Idle m c client_closed h)
handle_op-Idle ping m c k msg env h = send_to-Idle m c _ h
handle_op-Idle break_ m c k msg env h = handle_break-Idle m k env h
handle_op-Idle status m c k msg env h = send_to-Idle m c _ h
handle_op-Idle shutdown m c k msg env h =
    send_to-Idle _ c _ (record { auto_off = h.auto_off; still = h.still })
handle_op-Idle _ m c k msg env h = record { idle = h }

after_handle-Idle :
    (c : ℕ) (x : Manager × Option OpError) → IdleResult x → Idle (after_handle c x).0
after_handle-Idle c (m, none) h = h.idle
after_handle-Idle c (m, some signed_off) h = h.idle
after_handle-Idle c (m, some e) h = (send_to-Idle m c _ h.idle).idle

pub read_round-Idle :
    (m : Manager) (c : ℕ) (k : Conn) (i : Input) (env : Environ)
    → Idle m
    → Idle (read_round m c k i env).0
unfolding read_round
read_round-Idle m c k (data_in b) env h = handle_input-Idle m c k b env h
read_round-Idle m c k (ctrl_in msg) env h =
    after_handle-Idle c _ (handle_op-Idle msg.op m c k msg env h)
read_round-Idle m c k malformed_in env h = (send_to-Idle m c _ h).idle
read_round-Idle m c k read_failed env h = h

pub finish_read-Idle : (c : ℕ) (x : Manager × Bool) → Idle x.0 → Idle (finish_read c x)
unfolding shutdown_conn
finish_read-Idle c (m, true) h = h
finish_read-Idle c (m, false) h =
    maybe-intro Idle _ _ (get c m.conns) (λ _. h)
      (λ k _.
        let gone = detach-Idle m c disconnected h in
        if-intro (λ (x : Manager). Idle (unregister x c)) (is_empty k.label)
          (detach m c disconnected) _ (λ _. record { auto_off = gone.auto_off; still = gone.still })
          (λ _. record { auto_off = gone.auto_off; still = gone.still }))
