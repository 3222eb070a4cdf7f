-- ===== src/Hub/Conns/Handlers.antt =====
-- internal/hub/conn.go: the handlers keep what holds of each connection.
use sercon.Prelude.{ℕ, ◌&&◌, not, Option, none, some, maybe-intro, if-intro, Bytes, is_empty}
use sercon.Prelude.Dict.{nat_key, str_key, get}
use sercon.Hub.Types.{
  Reason, client_closed, reopening, Op, hello, list, open_, close, ping, break_, status, bye,
  shutdown, other_op, welcome, ports, opened, closed, pong, stat, notice, error, Message,
  data_frame, OpError, Conn, Port, Manager,
}
use sercon.Hub.Queue.{enqueue, send}
use sercon.Hub.Ring.{ring_bytes}
use sercon.Hub.Ports.{ensure_worker, DeviceReply, write_port, send_break}
use sercon.Hub.Manager.{Resolved, found, failed_to}
use sercon.Hub.Session.{
  Environ, send_to, detach, detach_from, unbound, identify, speaks_version, handle_hello,
  queue_backlog, bound, attach, open_port, open_resolved, handle_open, break_on, handle_break,
  count_typed, report_write, handle_input, handle_op, held_by_other, observers_full,
}
use sercon.Hub.Conns.{Keeps, Each, adjust-Each, on_conn-Each}

module _ (Q : Conn → Type 0) where
  -- The predicate of what a handler returns
  abbrev pub Ends : Manager × Option OpError → Type 0
  Ends r = Each Q r.0

  module _ (ks : Keeps Q) where
    pub send_to-Each : (m : Manager) (c : ℕ) (msg : Message) → Each Q m → Each Q (send_to m c msg).0
    unfolding send_to
    send_to-Each m c msg h =
        maybe-intro Ends _ _ (get c m.conns) (λ _. h)
          (λ k _. on_conn-Each Q m c (λ j. (send j msg).0) (λ j. ks.sends j msg) h)

    detach_from-Each :
        (m : Manager) (c : ℕ) (k : Conn) (why : Reason) (o : Option Bytes)
        → Each Q m
        → Each Q (detach_from m c k why o)
    unfolding detach_from
    detach_from-Each m c k why none h = on_conn-Each Q m c unbound ks.unbinds h
    detach_from-Each m c k why (some r) h = record {
      all = adjust-Each Q c unbound m.conns ks.unbinds h.all;
    }

    pub detach-Each : (m : Manager) (c : ℕ) (why : Reason) → Each Q m → Each Q (detach m c why)
    unfolding detach
    detach-Each m c why h =
        maybe-intro (Each Q) _ _ (get c m.conns) (λ _. h)
          (λ k _. detach_from-Each m c k why k.port h)

    handle_hello-Each :
        (m : Manager) (c : ℕ) (k : Conn) (msg : Message) (env : Environ)
        → Each Q m
        → Each Q (handle_hello m c k msg env).0
    unfolding handle_hello
    handle_hello-Each m c k msg env h =
        if-intro Ends (not (is_empty k.label)) _ _ (λ _. h)
          (λ _.
            if-intro Ends (not (speaks_version msg.v)) _ _ (λ _. h)
              (λ _. send_to-Each _ c _ (record {
                all = adjust-Each Q c (identify msg env) m.conns (ks.identified msg env) h.all;
              })))

    pub ensure_worker-Each : (m : Manager) (r : Bytes) → Each Q m → Each Q (ensure_worker m r)
    unfolding ensure_worker
    ensure_worker-Each m r h = if-intro (Each Q) m.closed _ _ (λ _. h) (λ _. record { all = h.all })

    attach-Each :
        (m : Manager) (c : ℕ) (k : Conn) (p : Port) (msg : Message) (now : ℕ)
        → Each Q m
        → Each Q (attach m c k p msg now).0
    unfolding attach
    attach-Each m c k p msg now h =
        let b = ring_bytes p.ring in
        let queue = λ (j : Conn) (q : Q j).
          if-intro Q (is_empty b) j (enqueue j (data_frame b)) (λ _. q)
            (λ _. ks.enqueued j (data_frame b) q) in
        let queued = on_conn-Each Q m c (queue_backlog b) queue h in
        let joined =
          adjust-Each Q c (bound p.ref (not msg.observe) now) _
            (ks.binds p.ref (not msg.observe) now) queued.all in
        send_to-Each _ c _
          (record { all = (ensure_worker-Each _ p.ref (record { all = joined })).all })

    open_port-Each :
        (m : Manager) (c : ℕ) (k : Conn) (p : Port) (msg : Message) (now : ℕ)
        → Each Q m
        → Each Q (open_port m c k p msg now).0
    unfolding open_port
    open_port-Each m c k p msg now h =
        maybe-intro Ends _ _ p.sp (λ _. h)
          (λ _ _.
            if-intro Ends (not msg.observe && held_by_other p.owner c) _ _
              (λ _. record { all = h.all })
              (λ _.
                if-intro Ends (msg.observe && not m.opts.allow_observe) _ _
                  (λ _. record { all = h.all })
                  (λ _.
                    if-intro Ends (msg.observe && observers_full m p) _ _ (λ _. h)
                      (λ _. attach-Each m c k p msg now h))))

    open_resolved-Each :
        (m : Manager) (c : ℕ) (k : Conn) (r : Resolved) (msg : Message) (now : ℕ)
        → Each Q m
        → Each Q (open_resolved m c k r msg now).0
    unfolding open_resolved
    open_resolved-Each m c k (failed_to e) msg now h = h
    open_resolved-Each m c k (found r) msg now h =
        maybe-intro Ends _ _ (get r m.ports) (λ _. h) (λ p _. open_port-Each m c k p msg now h)

    handle_break-Each :
        (m : Manager) (k : Conn) (env : Environ) → Each Q m → Each Q (handle_break m k env).0
    unfolding handle_break
    handle_break-Each m k env h =
        maybe-intro Ends _ _ k.port (λ _. h)
          (λ r _.
            if-intro Ends k.writable _ _ (λ _. break_on-Each r (send_break m r env.device))
              (λ _. h))
      where
        break_on-Each : (r : Bytes) (o : Option OpError) → Each Q (break_on m k r o).0
        break_on-Each r (some e) = h
        break_on-Each r none = record { all = h.all }

    report_write-Each :
        (m : Manager) (c : ℕ) (o : Option OpError) → Each Q m → Each Q (report_write m c o)
    report_write-Each m c none h = h
    report_write-Each m c (some e) h = send_to-Each m c _ h

    write_port-Each :
        (m : Manager) (r : Bytes) (c : ℕ) (b : Bytes) (dev : DeviceReply)
        → Each Q m
        → Each Q (write_port m r c b dev).0
    unfolding write_port
    write_port-Each m r c b dev h =
        let P : Manager × ℕ × Option OpError → Type 0 = λ w. Each Q w.0 in
        maybe-intro P _ _ (get r m.ports) (λ _. h)
          (λ p _. maybe-intro P _ _ p.sp (λ _. h) (λ _ _. record { all = h.all }))

    pub handle_input-Each :
        (m : Manager) (c : ℕ) (k : Conn) (b : Bytes) (env : Environ)
        → Each Q m
        → Each Q (handle_input m c k b env)
    unfolding handle_input
    handle_input-Each m c k b env h =
        maybe-intro (Each Q) _ _ k.port (λ _. h)
          (λ r _.
            if-intro (Each Q) k.writable _ _
              (λ _.
                let w = write_port m r c b env.device in
                report_write-Each _ c w.2 (
                  on_conn-Each Q w.0 c (count_typed w.1) (ks.counts w.1)
                    (write_port-Each m r c b env.device h)))
              (λ _. h))

    pub handle_op-Each :
        (op : Op) (m : Manager) (c : ℕ) (k : Conn) (msg : Message) (env : Environ)
        → Each Q m
        → Each Q (handle_op op m c k msg env).0
    unfolding handle_op handle_open
    handle_op-Each hello m c k msg env h = handle_hello-Each m c k msg env h
    handle_op-Each list m c k msg env h = send_to-Each m c _ h
    handle_op-Each open_ m c k msg env h =
        open_resolved-Each _ c k _ msg env.now (detach-Each m c reopening h)
    handle_op-Each close m c k msg env h = send_to-Each _ c _ (detach-Each m c client_closed h)
    handle_op-Each ping m c k msg env h = send_to-Each m c _ h
    handle_op-Each break_ m c k msg env h = handle_break-Each m k env h
    handle_op-Each status m c k msg env h = send_to-Each m c _ h
    handle_op-Each shutdown m c k msg env h = send_to-Each _ c _ (record { all = h.all })
    handle_op-Each bye m c k msg env h = h
    handle_op-Each welcome m c k msg env h = h
    handle_op-Each ports m c k msg env h = h
    handle_op-Each opened m c k msg env h = h
    handle_op-Each closed m c k msg env h = h
    handle_op-Each pong m c k msg env h = h
    handle_op-Each stat m c k msg env h = h
    handle_op-Each notice m c k msg env h = h
    handle_op-Each error m c k msg env h = h
    handle_op-Each (other_op s) m c k msg env h = h
