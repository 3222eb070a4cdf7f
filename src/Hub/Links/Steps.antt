-- ===== src/Hub/Links/Steps.antt =====
-- internal/hub: the links in the runs of the daemon.
use sercon.Prelude.{
  ℕ, ◌≡◌, refl, sym, subst, ◌⊎◌, inl, inr, Bool, true, false, Option, none, some, List, [], ◌∷◌,
  ◌++◌, arith, Option-cases, maybe-intro, if-intro, Bytes, is_empty,
}
use sercon.Prelude.Dict.{Key, nat_key, str_key, get}
use sercon.Hub.Types.{
  Options, disconnected, OpError, signed_off, Conn, Phase, unstarted, opening, reading, returned,
  Port, Manager, audit_log, is_owner,
}
use sercon.Hub.Queue.{kill, write_step}
use sercon.Hub.Ports.{
  on_port, ensure_worker, go_online, go_offline, clear_device, fanout, shutdown_port, release,
}
use sercon.Hub.Manager.{
  new, Device, moved, register, sync_devices, ensure_workers, sync, each, close_manager,
}
use sercon.Hub.Session.{Environ, unbound, detach}
use sercon.Hub.Loop.{
  Input, data_in, ctrl_in, malformed_in, read_failed, after_handle, read_round, session_end,
  unregister, shutdown_conn, finish_read, recv, DeviceEvent, open_ok, open_failed, read_done,
  end_worker, set_backoff, leave_device, start_reading, opening_step, publish, reading_step,
  phase_step, worker_step, Step, accept, receive, write_out, wire_breaks, idle_timeout, rescan,
  work, stop, break_wire, step, run,
}
use sercon.Hub.Links.{IsLinked, SamePort, SameConn, Alike}
use sercon.Hub.Links.Quiet.{
  write_step-SameConn, ensure_worker-SameLinks, go_online-SameLinks, go_offline-SameLinks,
  fanout-SameLinks,
}
use sercon.Hub.Links.Leave.{detach-get}
use sercon.Hub.Links.Open.{
  Linked, LinkedResult, quiet, send_to-Linked, on_conn-Linked, on_port-Linked, audit-Linked,
  detach-Linked, handle_input-Linked, handle_op-Linked,
}
use sercon.Hub.Links.Register.{unregister-Linked, accept-Linked, register-Linked}
use mathlib.Core.Option

read_end-Linked :
    (m : Manager) (c : ℕ) (k : Conn)
    → Linked m
    → get c m.conns ≡ some k
    → Linked (shutdown_conn m c k)
unfolding shutdown_conn
read_end-Linked m c k h here =
    if-intro (λ (x : Manager). Linked (unregister x c)) (is_empty k.label) gone
      (audit_log gone (session_end k))
      (λ _. unregister-Linked gone c (detach-Linked m c disconnected h) unbound_there refl)
      (λ _.
        unregister-Linked (audit_log gone (session_end k)) c
          (audit-Linked gone _ (detach-Linked m c disconnected h)) unbound_there refl)
  where
    gone : Manager
    gone = detach m c disconnected

    unbound_there : get c gone.conns ≡ some (unbound k)
    unbound_there = detach-get m c disconnected here

after_handle-Linked :
    (c : ℕ) (x : Manager × Option OpError) → LinkedResult x → Linked (after_handle c x).0
after_handle-Linked c (m, none) h = h.linked
after_handle-Linked c (m, some signed_off) h = h.linked
after_handle-Linked c (m, some e) h = (send_to-Linked m c _ h.linked).linked

read_round-Linked :
    (m : Manager) (c : ℕ) (k : Conn) (i : Input) (env : Environ)
    → Linked m
    → get c m.conns ≡ some k
    → Linked (read_round m c k i env).0
unfolding read_round
read_round-Linked m c k (data_in b) env h here = handle_input-Linked m c k b env h
read_round-Linked m c k (ctrl_in msg) env h here =
    after_handle-Linked c _ (handle_op-Linked msg.op m c k msg env h here)
read_round-Linked m c k malformed_in env h here = (send_to-Linked m c _ h).linked
read_round-Linked m c k read_failed env h here = h

finish_read-Linked : (c : ℕ) (x : Manager × Bool) → Linked x.0 → Linked (finish_read c x)
finish_read-Linked c (m, true) h = h
finish_read-Linked c (m, false) h =
    maybe-intro Linked _ _ (get c m.conns) (λ _. h) (λ k here. read_end-Linked m c k h here)

recv-Linked : (m : Manager) (c : ℕ) (i : Input) (env : Environ) → Linked m → Linked (recv m c i env)
unfolding recv
recv-Linked m c i env h =
    maybe-intro Linked _ _ (get c m.conns) (λ _. h)
      (λ k here. finish_read-Linked c _ (read_round-Linked m c k i env h here))

release-SamePort : (p : Port) → SamePort p (release p)
unfolding release
release-SamePort p = ground arith

end_worker-SamePort : (p : Port) → SamePort p (end_worker p)
end_worker-SamePort p = release-SamePort p

leave_device-Linked : (m : Manager) (r : Bytes) → Linked m → Linked (leave_device m r)
leave_device-Linked m r h =
    if-intro Linked m.closed _ _
      (λ _. on_port-Linked m r _ h (λ p. end_worker-SamePort (clear_device p)))
      (λ _. on_port-Linked m r _ h (λ p. (refl, refl, refl)))

publish-Linked : (m : Manager) (r b : Bytes) → Linked m → Linked (publish m r b)
publish-Linked m r b h =
    if-intro Linked (is_empty b) _ _ (λ _. h)
      (λ _. quiet m (fanout m r b) h (fanout-SameLinks m r b))

go_offline-Linked : (m : Manager) (r err : Bytes) → Linked m → Linked (go_offline m r err)
go_offline-Linked m r err h = quiet m (go_offline m r err) h (go_offline-SameLinks m r err)

opening_step-Linked :
    (m : Manager) (r : Bytes) (e : DeviceEvent) → Linked m → Linked (opening_step m r e)
opening_step-Linked m r (open_ok sp dev) h =
    on_port-Linked (go_online reset r sp dev) r start_reading
      (quiet reset (go_online reset r sp dev)
        (on_port-Linked m r (set_backoff 1) h (λ p. (refl, refl, refl)))
        (go_online-SameLinks reset r sp dev))
      (λ p. (refl, refl, refl))
  where
    reset : Manager
    reset = on_port m r (set_backoff 1)
opening_step-Linked m r (open_failed err) h =
    on_port-Linked (go_offline m r err) r _ (go_offline-Linked m r err h) (λ p. (refl, refl, refl))
opening_step-Linked m r (read_done b err) h = h

reading_step-Linked :
    (m : Manager) (r : Bytes) (e : DeviceEvent) → Linked m → Linked (reading_step m r e)
reading_step-Linked m r (read_done b none) h =
    if-intro Linked (publish m r b).closed _ _
      (λ _. leave_device-Linked _ r (publish-Linked m r b h)) (λ _. publish-Linked m r b h)
reading_step-Linked m r (read_done b (some err)) h = leave_device-Linked _ r (
    if-intro Linked (publish m r b).closed _ _ (λ _. publish-Linked m r b h)
      (λ _. go_offline-Linked _ r err (publish-Linked m r b h)))
reading_step-Linked m r (open_ok sp dev) h = h
reading_step-Linked m r (open_failed err) h = h

phase_step-Linked :
    (ph : Phase) (m : Manager) (r : Bytes) (e : DeviceEvent)
    → Linked m
    → Linked (phase_step ph m r e)
phase_step-Linked opening m r e h =
    if-intro Linked m.closed _ _ (λ _. on_port-Linked m r _ h end_worker-SamePort)
      (λ _. opening_step-Linked m r e h)
phase_step-Linked reading m r e h = reading_step-Linked m r e h
phase_step-Linked unstarted m r e h = h
phase_step-Linked returned m r e h = h

worker_step-Linked :
    (m : Manager) (r : Bytes) (e : DeviceEvent) → Linked m → Linked (worker_step m r e)
unfolding worker_step
worker_step-Linked m r e h =
    maybe-intro Linked _ _ (get r m.ports) (λ _. h) (λ p _. phase_step-Linked p.phase m r e h)

sync_devices-Linked :
    (m : Manager) (fresh : List Bytes) (ds : List Device)
    → Linked m
    → Linked (sync_devices m fresh ds).0
unfolding sync_devices
sync_devices-Linked m fresh [] h = h
sync_devices-Linked m fresh (d ∷ ds) h = elim (Option-cases (get d.ref m.ports)) [
  | inl new ↦
      rw (new, sync_devices)
        (sync_devices-Linked (register m d) (fresh ++ d.ref ∷ []) ds (register-Linked m d h new))
  | inr (p, old) ↦
      rw (old, sync_devices)
        (sync_devices-Linked (on_port m d.ref (moved d)) fresh ds
          (on_port-Linked m d.ref (moved d) h (λ q. (refl, refl, refl))))
]

ensure_workers-Linked : (m : Manager) (rs : List Bytes) → Linked m → Linked (ensure_workers m rs)
unfolding ensure_workers
ensure_workers-Linked m [] h = h
ensure_workers-Linked m (r ∷ rs) h =
    ensure_workers-Linked (ensure_worker m r) rs
      (quiet m (ensure_worker m r) h (ensure_worker-SameLinks m r))

sync-Linked : (m : Manager) (ds : Bytes ⊎ List Device) → Linked m → Linked (sync m ds).0
unfolding sync
sync-Linked m (inl err) h = record { links = h.links }
sync-Linked m (inr ds) h =
    if-intro Ends m.closed _ _ (λ _. cleared-Linked)
      (λ _.
        if-intro Ends m.opts.auto_open _ _
          (λ _. ensure_workers-Linked _ _ (sync_devices-Linked cleared [] ds cleared-Linked))
          (λ _. sync_devices-Linked cleared [] ds cleared-Linked))
  where
    Ends : Manager × Bool → Type 0
    Ends x = Linked x.0

    cleared : Manager
    cleared = record m { scan_err = none }

    cleared-Linked : Linked cleared
    cleared-Linked = record { links = h.links }

pub each-get :
    {K V : Type 0} ⦃e : Key K⦄ (f : V → V) (d : List (K × V)) (k : K)
    → get k (each f d) ≡ Option.map f (get k d)
unfolding each get
each-get f [] k = refl
each-get ⦃e⦄ f ((j, v) ∷ d) k = ground (arith, each-get f d k)

Alike-each :
    {K V : Type 0} ⦃e : Key K⦄ (R : V → V → Type 0) (f : V → V) (d : List (K × V))
    → ((v : V) → R v (f v))
    → Alike R d (each f d)
Alike-each R f d s = record {
  kept = λ k v h. (f v, ground (arith, each-get f d k), s v);
  back = λ k w h. elim (Option-cases (get k d)) [
    | inl absent ↦ ground (arith, each-get f d k)
    | inr (v, there) ↦
        let was : w ≡ f v = ground (arith, each-get f d k) in
        (v, there, subst (R v) (sym was) (s v))
  ];
}

close-Linked : (m : Manager) → Linked m → Linked (close_manager m)
unfolding close_manager
close-Linked m h =
    if-intro Linked m.closed _ _ (λ _. h)
      (λ _. quiet m _ h (record {
        ports_alike = Alike-each SamePort _ m.ports (λ p. release-SamePort (shutdown_port p));
        conns_alike = Alike-each SameConn kill m.conns (λ k. (refl, refl));
      }))

-- Every step of the daemon keeps the pointers between ports and connections consistent: a port is
-- filed under its reference, its owner is among its connections, each of those is bound to it, and a
-- bound connection is among its port's connections and writable just if it owns the port.
pub step-Linked : (m : Manager) (s : Step) → Linked m → Linked (step m s)
unfolding step
step-Linked m (accept c remote session) h = accept-Linked m c remote session (get c m.conns) h refl
step-Linked m (receive c i env) h = recv-Linked m c i env h
step-Linked m (write_out c) h = on_conn-Linked m c write_step h write_step-SameConn
step-Linked m (wire_breaks c) h = on_conn-Linked m c break_wire h (λ k. (refl, refl))
step-Linked m (idle_timeout c) h = on_conn-Linked m c kill h (λ k. (refl, refl))
step-Linked m (rescan ds) h = sync-Linked m ds h
step-Linked m (work r e) h = worker_step-Linked m r e h
step-Linked m stop h = close-Linked m h

pub run-Linked : (m : Manager) (ss : List Step) → Linked m → Linked (run m ss)
unfolding run
run-Linked m [] h = h
run-Linked m (s ∷ ss) h = run-Linked (step m s) ss (step-Linked m s h)

new-empty :
    (beside : Bytes → Bytes) (o : Options) {m : Manager}
    → new beside o ≡ some m
    → (m.ports ≡ []) × (m.conns ≡ [])
unfolding new
new-empty beside o e = ground arith

empty-IsLinked :
    (ps : List (Bytes × Port)) (cs : List (ℕ × Conn)) → ps ≡ [] → cs ≡ [] → IsLinked ps cs
unfolding get
empty-IsLinked [] [] a b = record {
  named = λ r p e. cc;
  owner_joined = λ r p c e x. cc;
  joined_bound = λ r p c e x. cc;
  bound_joined = λ c k r e x. cc;
}
empty-IsLinked _ _ a b = cc

-- From a new manager, the pointers between ports and connections are consistent after any steps.
pub new-run-Linked :
    (beside : Bytes → Bytes) (o : Options) (ss : List Step) {m : Manager}
    → new beside o ≡ some m
    → Linked (run m ss)
new-run-Linked beside o ss {m} e =
    let empty = new-empty beside o e in
    run-Linked m ss (record { links = empty-IsLinked m.ports m.conns empty.0 empty.1 })

-- From a new manager, after any steps, two registered connections that are both bound to a port as
-- its writer are the same connection.
pub run_one_writer :
    (beside : Bytes → Bytes) (o : Options) (ss : List Step) (c d : ℕ) (r : Bytes) {m : Manager}
    {k j : Conn}
    → new beside o ≡ some m
    → get c (run m ss).conns ≡ some k
    → get d (run m ss).conns ≡ some j
    → (k.port ≡ some r) × (k.writable ≡ true)
    → (j.port ≡ some r) × (j.writable ≡ true)
    → c ≡ d
run_one_writer beside o ss c d r {m} {k} {j} e hc hd kw jw =
    let all = (new-run-Linked beside o ss e).links in
    let (p, hp, pc, wc) = all.bound_joined c k r hc kw.0 in
    let (q, hq, qd, wd) = all.bound_joined d j r hd jw.0 in
    let same : p ≡ q = ground arith in
    let owns_c : is_owner p.owner c ≡ true = ground arith in
    let owns_d : is_owner p.owner d ≡ true = ground arith in ground arith
