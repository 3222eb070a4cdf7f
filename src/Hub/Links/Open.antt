-- ===== src/Hub/Links/Open.antt =====
-- internal/hub/conn.go: the links under the handlers.
use sercon.Prelude.{
  ℕ, ◌≡◌, refl, sym, ◌∙◌, subst, true, false, ◌&&◌, not, Option, none, some, [], ◌∷◌, arith,
  if◌then◌else◌, maybe-intro, if-intro, Bytes, codes, is_empty,
}
use sercon.Prelude.Dict.{nat_key, str_key, get, adjust-get}
use sercon.Hub.Types.{
  Reason, client_closed, reopening, port_open, port_break, role, Event, acquired_by, observed_by,
  break_sent_by, noted, OpError, error_text, Op, hello, list, open_, close, ping, break_, status,
  shutdown, Message, data_frame, Conn, Port, Manager, audit_log,
}
use sercon.Hub.Ring.{ring_bytes}
use sercon.Hub.Ports.{on_port, on_conn, log_to, ensure_worker, send_break}
use sercon.Hub.Manager.{Resolved, found, failed_to}
use sercon.Hub.Session.{
  Environ, report_write, conn_event, speaks_version, send_to, unbound, detach, identify,
  handle_hello, queue_backlog, join_port, bound, attach, held_by_other, observers_full, open_port,
  open_resolved, handle_open, break_on, handle_break, error_message, handle_input, handle_op,
}
use sercon.Hub.Links.{IsLinked, SamePort, SameConn, SameLinks, SameLinks-IsLinked}
use sercon.Hub.Links.Quiet.{
  on_port-SameLinks, on_conn-SameLinks, enqueue-SameConn, send_to-SameLinks, log_to-SamePort,
  ensure_worker-SameLinks, write_port-SameLinks,
}
use sercon.Hub.Links.Leave.{detach-IsLinked, detach-get}
use sercon.Hub.Links.Join.{join-IsLinked}

pub record Linked (m : Manager) : Type 0 where
  pub links : IsLinked m.ports m.conns

-- The same of a handler's result.
pub record LinkedResult (x : Manager × Option OpError) : Type 0 where
  pub linked : Linked x.0

-- What leaves the links alone keeps them consistent.
pub quiet : (m m' : Manager) → Linked m → SameLinks m m' → Linked m'
quiet m m' h s = record { links = SameLinks-IsLinked m m' s h.links }

pub send_to-Linked :
    (m : Manager) (c : ℕ) (msg : Message) → Linked m → LinkedResult (send_to m c msg)
send_to-Linked m c msg h = record {
  linked = quiet m (send_to m c msg).0 h (send_to-SameLinks m c msg);
}

pub on_conn-Linked :
    (m : Manager) (c : ℕ) (f : Conn → Conn)
    → Linked m
    → ((k : Conn) → SameConn k (f k))
    → Linked (on_conn m c f)
on_conn-Linked m c f h s = quiet m (on_conn m c f) h (on_conn-SameLinks m c f s)

pub on_port-Linked :
    (m : Manager) (r : Bytes) (f : Port → Port)
    → Linked m
    → ((p : Port) → SamePort p (f p))
    → Linked (on_port m r f)
on_port-Linked m r f h s = quiet m (on_port m r f) h (on_port-SameLinks m r f s)

pub detach-Linked : (m : Manager) (c : ℕ) (why : Reason) → Linked m → Linked (detach m c why)
detach-Linked m c why h = record { links = detach-IsLinked m c why h.links }

-- A line in the audit trail.
pub audit-Linked : (m : Manager) (e : Event) → Linked m → Linked (audit_log m e)
audit-Linked m e h = record { links = h.links }

queue_backlog-SameConn : (b : Bytes) (k : Conn) → SameConn k (queue_backlog b k)
queue_backlog-SameConn [] k = (refl, refl)
queue_backlog-SameConn (x ∷ b) k = enqueue-SameConn (data_frame (x ∷ b)) k

attach-Linked :
    (m : Manager) (c : ℕ) (k0 k : Conn) (p : Port) (msg : Message) (now : ℕ)
    → Linked m
    → get c m.conns ≡ some k0
    → k0.port ≡ none
    → get p.ref m.ports ≡ some p
    → (not msg.observe ≡ true → held_by_other p.owner c ≡ false)
    → LinkedResult (attach m c k p msg now)
unfolding attach
attach-Linked m c k0 k p msg now h here off there free =
    send_to-Linked marked c _ (
      on_port-Linked audited p.ref mark (audit-Linked started _ started-Linked) (log_to-SamePort _))
  where
    backlog : Conn → Conn
    backlog = queue_backlog (ring_bytes p.ring)

    queued : Manager
    queued = on_conn m c backlog

    joined : Manager
    joined =
        on_conn (on_port queued p.ref (join_port c (not msg.observe) msg.baud)) c
          (bound p.ref (not msg.observe) now)

    still : get c queued.conns ≡ some (backlog k0)
    still = ground (arith, adjust-get c c backlog m.conns here)

    linked : Linked joined
    linked = record {
      links =
          join-IsLinked queued.ports queued.conns c (backlog k0) p.ref p (not msg.observe) msg.baud
            now (on_conn-Linked m c backlog h (queue_backlog-SameConn (ring_bytes p.ring))).links
            still ((queue_backlog-SameConn (ring_bytes p.ring) k0).0 ∙ off) there free;
    }

    started : Manager
    started = ensure_worker joined p.ref

    started-Linked : Linked started
    started-Linked = quiet joined started linked (ensure_worker-SameLinks joined p.ref)

    audited : Manager
    audited =
        audit_log started
          (record (conn_event port_open k p.ref) { dev = p.dev; detail = role (not msg.observe) })

    mark : Port → Port
    mark = log_to (noted (if not msg.observe then acquired_by k.label else observed_by k.label))

    marked : Manager
    marked = on_port audited p.ref mark

open_port-Linked :
    (m : Manager) (c : ℕ) (k0 k : Conn) (p : Port) (msg : Message) (now : ℕ)
    → Linked m
    → get c m.conns ≡ some k0
    → k0.port ≡ none
    → get p.ref m.ports ≡ some p
    → LinkedResult (open_port m c k p msg now)
unfolding open_port
open_port-Linked m c k0 k p msg now h here off there =
    maybe-intro LinkedResult _ _ p.sp (λ _. record { linked = h })
      (λ _ _.
        if-intro LinkedResult (not msg.observe && held_by_other p.owner c) _ _
          (λ _. record { linked = audit-Linked m _ h })
          (λ (free : (not msg.observe && held_by_other p.owner c) ≡ false).
            if-intro LinkedResult (msg.observe && not m.opts.allow_observe) _ _
              (λ _. record { linked = audit-Linked m _ h })
              (λ _.
                if-intro LinkedResult (msg.observe && observers_full m p) _ _
                  (λ _. record { linked = h })
                  (λ _. attach-Linked m c k0 k p msg now h here off there (λ want. ground arith)))))

open_resolved-Linked :
    (m : Manager) (c : ℕ) (k0 k : Conn) (res : Resolved) (msg : Message) (now : ℕ)
    → Linked m
    → get c m.conns ≡ some k0
    → k0.port ≡ none
    → LinkedResult (open_resolved m c k res msg now)
unfolding open_resolved
open_resolved-Linked m c k0 k (failed_to e) msg now h here off = record { linked = h }
open_resolved-Linked m c k0 k (found r) msg now h here off =
    maybe-intro LinkedResult _ _ (get r m.ports) (λ _. record { linked = h })
      (λ p there.
        open_port-Linked m c k0 k p msg now h here off
          (subst (λ s. get s m.ports ≡ some p) (sym (h.links.named r p there)) there))

pub handle_open-Linked :
    (m : Manager) (c : ℕ) (k : Conn) (msg : Message) (now : ℕ)
    → Linked m
    → get c m.conns ≡ some k
    → LinkedResult (handle_open m c k msg now)
unfolding handle_open
handle_open-Linked m c k msg now h here =
    open_resolved-Linked (detach m c reopening) c (unbound k) k _ msg now
      (detach-Linked m c reopening h) (detach-get m c reopening here) refl

pub handle_hello-Linked :
    (m : Manager) (c : ℕ) (k : Conn) (msg : Message) (env : Environ)
    → Linked m
    → LinkedResult (handle_hello m c k msg env)
unfolding handle_hello
handle_hello-Linked m c k msg env h =
    if-intro LinkedResult (not (is_empty k.label)) _ _ (λ _. record { linked = h })
      (λ _.
        if-intro LinkedResult (not (speaks_version msg.v)) _ _ (λ _. record { linked = h })
          (λ _.
            send_to-Linked _ c _
              (audit-Linked _ _ (on_conn-Linked m c (identify msg env) h (λ j. (refl, refl))))))

break_on-Linked :
    (m : Manager) (k : Conn) (r : Bytes) (e : Option OpError)
    → Linked m
    → LinkedResult (break_on m k r e)
unfolding break_on
break_on-Linked m k r none h = record {
  linked =
      on_port-Linked (audit_log m (conn_event port_break k r)) r
        (log_to (noted (break_sent_by k.label))) (audit-Linked m _ h) (log_to-SamePort _);
}
break_on-Linked m k r (some e) h = record { linked = h }

pub handle_break-Linked :
    (m : Manager) (k : Conn) (env : Environ) → Linked m → LinkedResult (handle_break m k env)
unfolding handle_break
handle_break-Linked m k env h =
    maybe-intro LinkedResult _ _ k.port (λ _. record { linked = h })
      (λ r _.
        if-intro LinkedResult k.writable _ _
          (λ _. break_on-Linked m k r (send_break m r env.device) h) (λ _. record { linked = h }))

report_write-Linked :
    (m : Manager) (c : ℕ) (e : Option OpError) → Linked m → Linked (report_write m c e)
report_write-Linked m c none h = h
report_write-Linked m c (some e) h =
    (send_to-Linked m c (error_message (codes "write") (error_text e)) h).linked

pub handle_input-Linked :
    (m : Manager) (c : ℕ) (k : Conn) (b : Bytes) (env : Environ)
    → Linked m
    → Linked (handle_input m c k b env)
unfolding handle_input
handle_input-Linked m c k b env h =
    maybe-intro Linked _ _ k.port (λ _. h)
      (λ r _.
        if-intro Linked k.writable _ _
          (λ _. report_write-Linked _ c _ (
            on_conn-Linked _ c _ (quiet m _ h (write_port-SameLinks m r c b env.device))
              (λ j. ground arith)))
          (λ _. h))

pub handle_op-Linked :
    (op : Op) (m : Manager) (c : ℕ) (k : Conn) (msg : Message) (env : Environ)
    → Linked m
    → get c m.conns ≡ some k
    → LinkedResult (handle_op op m c k msg env)
unfolding handle_op
handle_op-Linked hello m c k msg env h here = handle_hello-Linked m c k msg env h
handle_op-Linked list m c k msg env h here = send_to-Linked m c _ h
handle_op-Linked open_ m c k msg env h here = handle_open-Linked m c k msg env.now h here
handle_op-Linked close m c k msg env h here =
    send_to-Linked _ c _ (detach-Linked m c client_closed h)
handle_op-Linked ping m c k msg env h here = send_to-Linked m c _ h
handle_op-Linked break_ m c k msg env h here = handle_break-Linked m k env h
handle_op-Linked status m c k msg env h here = send_to-Linked m c _ h
handle_op-Linked shutdown m c k msg env h here = send_to-Linked _ c _ (record { links = h.links })
handle_op-Linked _ m c k msg env h here = record { linked = h }
