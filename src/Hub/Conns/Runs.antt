-- ===== src/Hub/Conns/Runs.antt =====
-- internal/hub: every step of the daemon keeps what holds of each connection.
use sercon.Prelude.{
  ℕ, ◌≡◌, sym, subst, ◌⊎◌, inl, inr, Bool, true, false, Option, none, some, List, [], ◌∷◌, ◌++◌,
  arith, Option-cases, maybe-intro, if-intro, All, Bytes, is_empty,
}
use sercon.Prelude.Dict.{nat_key, str_key, get}
use sercon.Hub.Types.{
  Options, signed_off, data_frame, OpError, Conn, Manager, Phase, unstarted, opening, reading,
  returned, disconnected,
}
use sercon.Hub.Queue.{write_step, kill}
use sercon.Hub.Ports.{
  on_port, ensure_worker, go_online, go_offline, fanout, fanout_publish, fanout_ring,
}
use sercon.Hub.Manager.{
  Device, sync_devices, ensure_workers, sync, close_manager, register, moved, new,
}
use sercon.Hub.Session.{Environ, handle}
use sercon.Hub.Loop.{
  Input, data_in, ctrl_in, malformed_in, read_failed, after_handle, read_round, shutdown_conn,
  unregister, serve, finish_read, recv, DeviceEvent, open_ok, open_failed, read_done, opening_step,
  reading_step, after_read, leave_device, publish, phase_step, worker_step, Step, accept, receive,
  write_out, wire_breaks, idle_timeout, rescan, work, stop, break_wire, accept_step, step, run,
}
use sercon.Hub.Conns.{
  Keeps, Each, HoldsOf, put-Each, delete-Each, each-Each, on_conn-Each, on_conns-Each,
}
use sercon.Hub.Conns.Handlers.{
  send_to-Each, detach-Each, handle_op-Each, handle_input-Each, ensure_worker-Each,
}

module _ (Q : Conn → Type 0) where
  module _ (ks : Keeps Q) where
    after_handle-Each :
        (c : ℕ) (m : Manager) (o : Option OpError) → Each Q m → Each Q (after_handle c (m, o)).0
    after_handle-Each c m none h = h
    after_handle-Each c m (some signed_off) h = h
    after_handle-Each c m (some e) h = send_to-Each Q ks m c _ h

    read_round-Each :
        (m : Manager) (c : ℕ) (k : Conn) (i : Input) (env : Environ)
        → Each Q m
        → Each Q (read_round m c k i env).0
    unfolding read_round
    read_round-Each m c k (data_in b) env h = handle_input-Each Q ks m c k b env h
    read_round-Each m c k (ctrl_in msg) env h =
        let r = handle m c k msg env in
        after_handle-Each c r.0 r.1 (handle_op-Each Q ks msg.op m c k msg env h)
    read_round-Each m c k malformed_in env h = send_to-Each Q ks m c _ h
    read_round-Each m c k read_failed env h = h

    shutdown_conn-Each : (m : Manager) (c : ℕ) (k : Conn) → Each Q m → Each Q (shutdown_conn m c k)
    unfolding shutdown_conn
    shutdown_conn-Each m c k h =
        let left = detach-Each Q ks m c disconnected h in
        if-intro (λ n. Each Q (unregister n c)) (is_empty k.label) _ _
          (λ _. record { all = delete-Each Q c _ left.all })
          (λ _. record { all = delete-Each Q c _ left.all })

    finish_read-Each : (c : ℕ) (m : Manager) (b : Bool) → Each Q m → Each Q (finish_read c (m, b))
    finish_read-Each c m true h = h
    finish_read-Each c m false h =
        maybe-intro (Each Q) _ _ (get c m.conns) (λ _. h) (λ k _. shutdown_conn-Each m c k h)

    recv-Each :
        (m : Manager) (c : ℕ) (i : Input) (env : Environ) → Each Q m → Each Q (recv m c i env)
    unfolding recv
    recv-Each m c i env h =
        maybe-intro (Each Q) _ _ (get c m.conns) (λ _. h)
          (λ k _.
            let r = read_round m c k i env in
            finish_read-Each c r.0 r.1 (read_round-Each m c k i env h))

    go_online-Each :
        (m : Manager) (r : Bytes) (sp : ℕ) (dev : Bytes) → Each Q m → Each Q (go_online m r sp dev)
    unfolding go_online
    go_online-Each m r sp dev h =
        maybe-intro (Each Q) _ _ (get r m.ports) (λ _. h)
          (λ p _.
            if-intro (Each Q) p.online _ _ (λ _. record { all = h.all })
              (λ _. on_conns-Each Q _ p.conns _ (λ k. ks.notified k _) (record { all = h.all })))

    go_offline-Each : (m : Manager) (r err : Bytes) → Each Q m → Each Q (go_offline m r err)
    unfolding go_offline
    go_offline-Each m r err h =
        maybe-intro (Each Q) _ _ (get r m.ports) (λ _. h)
          (λ p _.
            if-intro (Each Q) p.online _ _
              (λ _. on_conns-Each Q _ p.conns _ (λ k. ks.notified k _) (record { all = h.all }))
              (λ _. record { all = h.all }))

    publish-Each : (m : Manager) (r b : Bytes) → Each Q m → Each Q (publish m r b)
    unfolding fanout fanout_ring fanout_publish
    publish-Each m r b h =
        if-intro (Each Q) (is_empty b) _ _ (λ _. h)
          (λ _.
            maybe-intro (Each Q) _ _ (get r (fanout_ring m r b).ports) (λ _. record { all = h.all })
              (λ p _.
                on_conns-Each Q _ p.conns _ (λ k. ks.enqueued k (data_frame b))
                  (record { all = h.all })))

    leave_device-Each : (m : Manager) (r : Bytes) → Each Q m → Each Q (leave_device m r)
    leave_device-Each m r h =
        if-intro (Each Q) m.closed _ _ (λ _. record { all = h.all }) (λ _. record { all = h.all })

    after_read-Each :
        (m : Manager) (r : Bytes) (o : Option Bytes) → Each Q m → Each Q (after_read m r o)
    after_read-Each m r none h =
        if-intro (Each Q) m.closed _ _ (λ _. leave_device-Each m r h) (λ _. h)
    after_read-Each m r (some err) h =
        leave_device-Each _ r
          (if-intro (Each Q) m.closed _ _ (λ _. h) (λ _. go_offline-Each m r err h))

    opening_step-Each :
        (m : Manager) (r : Bytes) (e : DeviceEvent) → Each Q m → Each Q (opening_step m r e)
    opening_step-Each m r (open_ok sp dev) h = record {
      all = (go_online-Each _ r sp dev (record { all = h.all })).all;
    }
    opening_step-Each m r (open_failed err) h = record { all = (go_offline-Each m r err h).all }
    opening_step-Each m r (read_done b err) h = h

    reading_step-Each :
        (m : Manager) (r : Bytes) (e : DeviceEvent) → Each Q m → Each Q (reading_step m r e)
    reading_step-Each m r (open_ok sp dev) h = h
    reading_step-Each m r (open_failed err) h = h
    reading_step-Each m r (read_done b err) h = after_read-Each _ r err (publish-Each m r b h)

    worker_step-Each :
        (m : Manager) (r : Bytes) (e : DeviceEvent) → Each Q m → Each Q (worker_step m r e)
    unfolding worker_step
    worker_step-Each m r e h =
        maybe-intro (Each Q) _ _ (get r m.ports) (λ _. h) (λ p _. phase_step-Each p.phase)
      where
        phase_step-Each : (ph : Phase) → Each Q (phase_step ph m r e)
        phase_step-Each unstarted = h
        phase_step-Each opening =
            if-intro (Each Q) m.closed _ _ (λ _. record { all = h.all })
              (λ _. opening_step-Each m r e h)
        phase_step-Each reading = reading_step-Each m r e h
        phase_step-Each returned = h

    ensure_workers-Each : (m : Manager) (rs : List Bytes) → Each Q m → Each Q (ensure_workers m rs)
    unfolding ensure_workers
    ensure_workers-Each m [] h = h
    ensure_workers-Each m (r ∷ rs) h =
        ensure_workers-Each (ensure_worker m r) rs (ensure_worker-Each Q ks m r h)

    sync_devices-Each :
        (m : Manager) (fresh : List Bytes) (ds : List Device)
        → Each Q m
        → Each Q (sync_devices m fresh ds).0
    unfolding sync_devices
    sync_devices-Each m fresh [] h = h
    sync_devices-Each m fresh (d ∷ ds) h = elim (Option-cases (get d.ref m.ports)) [
      | inl new ↦
          rw (new, sync_devices)
            (sync_devices-Each (register m d) (fresh ++ d.ref ∷ []) ds (record { all = h.all }))
      | inr (p, old) ↦
          rw (old, sync_devices)
            (sync_devices-Each (on_port m d.ref (moved d)) fresh ds (record { all = h.all }))
    ]

    sync-Each : (m : Manager) (ds : Bytes ⊎ List Device) → Each Q m → Each Q (sync m ds).0
    unfolding sync
    sync-Each m (inl err) h = record { all = h.all }
    sync-Each m (inr ds) h =
        let P : Manager × Bool → Type 0 = λ r. Each Q r.0 in
        let cleared = record m { scan_err = none } in
        let synced = sync_devices-Each cleared [] ds (record { all = h.all }) in
        if-intro P m.closed _ _ (λ _. record { all = h.all })
          (λ _. if-intro P m.opts.auto_open _ _ (λ _. ensure_workers-Each _ _ synced) (λ _. synced))

    accept_step-Each :
        (m : Manager) (c : ℕ) (remote session : Bytes) (o : Option Conn)
        → Each Q m
        → Each Q (accept_step m c remote session o)
    unfolding serve
    accept_step-Each m c remote session (some k) h = h
    accept_step-Each m c remote session none h =
        if-intro (Each Q) m.closed _ _ (λ _. h)
          (λ _. record { all = put-Each Q c _ m.conns (ks.fresh remote session) h.all })

    close-Each : (m : Manager) → Each Q m → Each Q (close_manager m)
    unfolding close_manager
    close-Each m h =
        if-intro (Each Q) m.closed _ _ (λ _. h)
          (λ _. record { all = each-Each Q kill m.conns ks.killed h.all })

    pub step-Each : (m : Manager) (s : Step) → Each Q m → Each Q (step m s)
    unfolding step
    step-Each m (accept c remote session) h = accept_step-Each m c remote session (get c m.conns) h
    step-Each m (receive c i env) h = recv-Each m c i env h
    step-Each m (write_out c) h = on_conn-Each Q m c write_step ks.writes h
    step-Each m (wire_breaks c) h = on_conn-Each Q m c break_wire ks.breaks h
    step-Each m (idle_timeout c) h = on_conn-Each Q m c kill ks.killed h
    step-Each m (rescan ds) h = sync-Each m ds h
    step-Each m (work r e) h = worker_step-Each m r e h
    step-Each m stop h = close-Each m h

    pub run-Each : (m : Manager) (ss : List Step) → Each Q m → Each Q (run m ss)
    unfolding run
    run-Each m [] h = h
    run-Each m (s ∷ ss) h = run-Each (step m s) ss (step-Each m s h)

  -- A manager begins with no connection.
  pub new-Each :
      (beside : Bytes → Bytes) (o : Options) {m : Manager} → new beside o ≡ some m → Each Q m
  unfolding new
  new-Each beside o {m} e =
      let none_yet : m.conns ≡ [] = ground arith in
      record { all = subst (All (HoldsOf Q)) (sym none_yet) tt }
