-- ===== src/Hub/AutoOpen/Runs.antt =====
-- internal/hub: the ports in the runs of a manager whose option `AutoOpen` is off.
use sercon.Prelude.{
  ℕ, ◌≡◌, refl, sym, ap, ◌∙◌, subst, ◌≢◌, ◌⊎◌, inl, inr, Bool, false, Option, none, some, List, [],
  ◌∷◌, ◌++◌, arith, if◌then◌else◌, Bool-cases, Option-cases, maybe-intro, if-intro, Bytes, str_eq,
}
use sercon.Prelude.Dict.{nat_key, str_key, get, get-put}
use sercon.Hub.Types.{
  Options, reopening, Message, Conn, Phase, unstarted, opening, reading, returned, Port, Manager,
}
use sercon.Hub.Ports.{on_port, shutdown_port, release}
use sercon.Hub.Manager.{new, Device, new_port, moved, register, sync_devices, sync, close_manager}
use sercon.Hub.Session.{Environ, detach, handle_open}
use sercon.Hub.Loop.{
  Input, serve, recv, DeviceEvent, phase_step, worker_step, Step, accept, receive, write_out,
  wire_breaks, idle_timeout, rescan, work, stop, accept_step, step, run,
}
use sercon.Hub.Links.Steps.{each-get}
use sercon.Hub.AutoOpen.{
  IsStill, Idle, Still-same, on_port-Idle, open_resolved-Refused, read_round-Idle, finish_read-Idle,
  detach-Idle,
}

recv-Idle : (m : Manager) (c : ℕ) (i : Input) (env : Environ) → Idle m → Idle (recv m c i env)
unfolding recv
recv-Idle m c i env h =
    maybe-intro Idle _ _ (get c m.conns) (λ _. h)
      (λ k _. finish_read-Idle c _ (read_round-Idle m c k i env h))

phase_step-Idle :
    (ph : Phase) (m : Manager) (r : Bytes) (e : DeviceEvent)
    → ph ≡ unstarted
    → Idle m
    → Idle (phase_step ph m r e)
phase_step-Idle unstarted m r e u h = h
phase_step-Idle opening m r e u h = cc
phase_step-Idle reading m r e u h = cc
phase_step-Idle returned m r e u h = h

worker_step-Idle : (m : Manager) (r : Bytes) (e : DeviceEvent) → Idle m → Idle (worker_step m r e)
unfolding worker_step
worker_step-Idle m r e h =
    maybe-intro Idle _ _ (get r m.ports) (λ _. h)
      (λ p there. phase_step-Idle p.phase m r e (h.still r p there).not_started h)

new_port-IsStill : (o : Options) (d : Device) → IsStill (new_port o d)
unfolding new_port
new_port-IsStill o d = record {
  no_sp = ground arith;
  not_running = ground arith;
  not_started = ground arith;
}

register-Idle : (m : Manager) (d : Device) → Idle m → Idle (register m d)
register-Idle m d h = record {
  auto_off = h.auto_off;
  still = λ r q e. elim (Bool-cases (str_eq d.ref r)) [
    | inl same ↦
        let eq : q ≡ new_port m.opts d =
          ground (arith, get-put d.ref r (new_port m.opts d) m.ports) in
        subst IsStill (sym eq) (new_port-IsStill m.opts d)
    | inr other ↦ h.still r q (ground (arith, get-put d.ref r (new_port m.opts d) m.ports))
  ];
}

sync_devices-Idle :
    (m : Manager) (fresh : List Bytes) (ds : List Device)
    → Idle m
    → Idle (sync_devices m fresh ds).0
unfolding sync_devices
sync_devices-Idle m fresh [] h = h
sync_devices-Idle m fresh (d ∷ ds) h = elim (Option-cases (get d.ref m.ports)) [
  | inl new ↦
      rw (new, sync_devices)
        (sync_devices-Idle (register m d) (fresh ++ d.ref ∷ []) ds (register-Idle m d h))
  | inr (p, old) ↦
      rw (old, sync_devices)
        (sync_devices-Idle (on_port m d.ref (moved d)) fresh ds
          (on_port-Idle m d.ref (moved d) (λ q s. Still-same q (moved d q) s refl refl refl) h))
]

sync-Idle : (m : Manager) (ds : Bytes ⊎ List Device) → Idle m → Idle (sync m ds).0
unfolding sync
sync-Idle m (inl err) h = record { auto_off = h.auto_off; still = h.still }
sync-Idle m (inr ds) h =
    if-intro Ends m.closed _ _ (λ _. cleared-Idle)
      (λ _.
        if-intro Ends m.opts.auto_open _ _ (λ on. let off = h.auto_off in cc (on, off))
          (λ _. sync_devices-Idle cleared [] ds cleared-Idle))
  where
    Ends : Manager × Bool → Type 0
    Ends x = Idle x.0

    cleared : Manager
    cleared = record m { scan_err = none }

    cleared-Idle : Idle cleared
    cleared-Idle = record { auto_off = h.auto_off; still = h.still }

abbrev stopped_port : Port → Port
stopped_port p = record (release (shutdown_port p)) {
  phase = if p.running then returned else p.phase;
}

stopped_port-IsStill : (p : Port) → IsStill p → IsStill (stopped_port p)
unfolding release
stopped_port-IsStill p h =
    let off = h.not_running in
    let at_first = h.not_started in
    record { no_sp = ground arith; not_running = ground arith; not_started = ground arith }

close-Idle : (m : Manager) → Idle m → Idle (close_manager m)
unfolding close_manager
close-Idle m h =
    if-intro Idle m.closed _ _ (λ _. h)
      (λ _. record {
        auto_off = h.auto_off;
        still = λ r q e. elim (Option-cases (get r m.ports)) [
          | inl absent ↦ ground (arith, each-get stopped_port m.ports r)
          | inr (p, there) ↦
              let eq : q ≡ stopped_port p = ground (arith, each-get stopped_port m.ports r) in
              subst IsStill (sym eq) (stopped_port-IsStill p (h.still r p there))
        ];
      })

accept-Idle :
    (m : Manager) (c : ℕ) (remote session : Bytes) (o : Option Conn)
    → Idle m
    → Idle (accept_step m c remote session o)
unfolding serve
accept-Idle m c remote session (some k) h = h
accept-Idle m c remote session none h =
    if-intro Idle m.closed _ _ (λ _. h) (λ _. record { auto_off = h.auto_off; still = h.still })

step-Idle : (m : Manager) (s : Step) → Idle m → Idle (step m s)
unfolding step
step-Idle m (accept c remote session) h = accept-Idle m c remote session (get c m.conns) h
step-Idle m (receive c i env) h = recv-Idle m c i env h
step-Idle m (write_out c) h = record { auto_off = h.auto_off; still = h.still }
step-Idle m (wire_breaks c) h = record { auto_off = h.auto_off; still = h.still }
step-Idle m (idle_timeout c) h = record { auto_off = h.auto_off; still = h.still }
step-Idle m (rescan ds) h = sync-Idle m ds h
step-Idle m (work r e) h = worker_step-Idle m r e h
step-Idle m stop h = close-Idle m h

run-Idle : (m : Manager) (ss : List Step) → Idle m → Idle (run m ss)
unfolding run
run-Idle m [] h = h
run-Idle m (s ∷ ss) h = run-Idle (step m s) ss (step-Idle m s h)

new-Idle :
    (beside : Bytes → Bytes) (o : Options) {m : Manager}
    → o.auto_open ≡ false
    → new beside o ≡ some m
    → Idle m
unfolding new get
new-Idle beside o {m} off e =
    let none_yet : m.ports ≡ [] = ground arith in
    record {
      auto_off = ground arith;
      still = λ r p h. let gone : get r [] ≡ some p = ap (get r) (sym none_yet) ∙ h in cc gone;
    }

-- From a new manager whose option `AutoOpen` is off, after any steps, a client that asks for a port is
-- refused, whatever it asks for: no port is ever opened, since `handleOpen` starts a port's worker only
-- once the port is open.
pub run-handle_open_refused :
    (beside : Bytes → Bytes) (o : Options) (ss : List Step) (c : ℕ) (k : Conn) (msg : Message)
    (now : ℕ) {m : Manager}
    → o.auto_open ≡ false
    → new beside o ≡ some m
    → (handle_open (run m ss) c k msg now).1 ≢ none
unfolding handle_open
run-handle_open_refused beside o ss c k msg now {m} off e =
    (open_resolved-Refused (detach (run m ss) c reopening) c k _ msg now
      (detach-Idle (run m ss) c reopening (run-Idle m ss (new-Idle beside o off e)))).error_given
