-- ===== src/Hub/Tests.antt =====
-- internal/hub: a daemon with one port and two clients, to run the operations on.
use sercon.Prelude.{
  ℕ, ◌≡◌, refl, ◌≢◌, inl, inr, Bool, true, false, none, some, List, [], ◌∷◌, pos, Bytes, codes,
  str_eq,
}
use sercon.Prelude.Dict.{nat_key, str_key, get, put, adjust, delete, has, include, exclude}
use sercon.Hub.Types.{
  Options, hello, open_, Message, blank_message, Conn, Port, Manager, count_observers,
}
use sercon.Hub.Queue.{enqueue, write_step, send, notify}
use sercon.Hub.Ring.{new_ring, ring_write, ring_bytes}
use sercon.Hub.Ports.{
  on_conns, ensure_worker, go_online, fanout_ring, fanout_publish, fanout, write_port,
}
use sercon.Hub.Manager.{new, Device, new_port, sync_devices, ensure_workers, sync, resolve}
use sercon.Hub.Session.{
  Environ, first_non_empty, send_to, detach_from, detach, handle_hello, attach, open_port,
  open_resolved, handle_open, handle_input, handle_op,
}
use sercon.Hub.Loop.{
  data_in, ctrl_in, read_round, new_conn, serve, recv, open_ok, read_done, worker_step, Step,
  accept, receive, rescan, work, stop, step, run,
}
use sercon.Hub.Links.Open.{Linked}
use sercon.Hub.Links.Steps.{step-Linked, new-run-Linked, run_one_writer}
use sercon.Hub.Ring.{write_chunks, write_chunks-window}
use sercon.Hub.Input.{Typed, handle_input-Typed}
use sercon.Hub.Conns.{Each}
use sercon.Hub.Conns.Queues.{IsBounded, run-IsBounded}
use sercon.Hub.AutoOpen.Runs.{run-handle_open_refused}

abbrev options : Options
options = record {
  log_dir = codes "/log";
  audit_dir = [];
  default_baud = pos 0;
  stamp_logs = false;
  allow_observe = true;
  max_observers = pos 2;
  auto_open = true;
  scan_globs = [];
  backlog_bytes = pos 4;
  aliases = [];
}

abbrev beside : Bytes → Bytes
beside s = codes "/audit"

abbrev environ : Environ
environ = record {
  env_user = codes "ann";
  env_username = [];
  current_user = [];
  hostname = codes "lab";
  now = 7;
  device = record { taken = 2; failed = none };
}

abbrev adapter : Device
adapter = record {
  ref = codes "usb1";
  link = codes "/l";
  dev = codes "/dev/u";
  desc = [];
  log = inl (codes "/log/usb1");
}

abbrev hello_message : Message
hello_message = record (blank_message hello) { v = pos 1; client = codes "pc" }

abbrev open_message : Bool → Message
open_message observe = record (blank_message open_) { port = codes "usb1"; observe = observe }

-- One client writes and another observes.
abbrev morning : List Step
morning =
    rescan (inr (adapter ∷ []))
    ∷ work (codes "usb1") (open_ok 3 (codes "/dev/u"))
    ∷ accept 1 [] (codes "a")
    ∷ accept 2 [] (codes "b")
    ∷ receive 1 (ctrl_in hello_message) environ
    ∷ receive 1 (ctrl_in (open_message false)) environ
    ∷ receive 2 (ctrl_in (open_message true)) environ
    ∷ work (codes "usb1") (read_done (codes "login") none)
    ∷ receive 1 (data_in (codes "hi")) environ
    ∷ []

abbrev daemon : Manager
daemon = record {
  opts = record options { audit_dir = codes "/audit"; default_baud = pos 115200 };
  trail = [];
  ports = [];
  conns = [];
  closed = false;
  scan_err = none;
  stop_requested = false;
}

starts : new beside options ≡ some daemon
unfolding new
starts = refl

write_chunks-window_example :
    ring_bytes (write_chunks (new_ring 4) (codes "boot " ∷ codes "ok" ∷ [])) ≡ codes "t ok"
unfolding write_chunks ring_write
write_chunks-window_example = write_chunks-window 4 (codes "boot " ∷ codes "ok" ∷ [])

step-Linked_example : Linked (step (run daemon morning) stop)
step-Linked_example =
    step-Linked (run daemon morning) stop (new-run-Linked beside options morning starts)

run_one_writer_example : ◌≡◌ {A = ℕ} 1 1
unfolding run step recv get put adjust include exclude has delete sync sync_devices new_port
    ensure_workers ensure_worker worker_step go_online serve read_round handle_op handle_hello
    handle_open open_resolved open_port attach detach detach_from resolve send_to send write_step
    fanout fanout_ring fanout_publish ring_write on_conns enqueue notify handle_input write_port
    first_non_empty str_eq count_observers
run_one_writer_example =
    run_one_writer beside options morning 1 1 (codes "usb1") starts refl refl (refl, refl)
      (refl, refl)

-- What the morning's run left of the writer and of its port.
abbrev typist : Conn
typist = elim (get 1 (run daemon morning).conns) [ none ↦ new_conn [] [] | some k ↦ k ]

abbrev console : Port
console = elim (get (codes "usb1") (run daemon morning).ports) [
  | none ↦ new_port options adapter
  | some p ↦ p
]

typist_there : get 1 (run daemon morning).conns ≡ some typist
unfolding run step recv get put adjust include exclude has delete sync sync_devices new_port
    ensure_workers ensure_worker worker_step go_online serve read_round handle_op handle_hello
    handle_open open_resolved open_port attach detach detach_from resolve send_to send write_step
    fanout fanout_ring fanout_publish ring_write on_conns enqueue notify handle_input write_port
    first_non_empty str_eq count_observers
typist_there = refl

handle_input-Typed_example :
    Typed 1 2
      (codes "ls")
      (run daemon morning)
      (handle_input (run daemon morning) 1 typist (codes "ls") environ)
handle_input-Typed_example =
    handle_input-Typed (run daemon morning) 1 typist (codes "ls") environ
      (new-run-Linked beside options morning starts) typist_there

-- The daemon with ports that open on demand.
abbrev on_demand : Options
on_demand = record options { auto_open = false }

abbrev lazy_daemon : Manager
lazy_daemon = record daemon { opts = record daemon.opts { auto_open = false } }

lazy_starts : new beside on_demand ≡ some lazy_daemon
unfolding new
lazy_starts = refl

run-handle_open_refused_example :
    (handle_open (run lazy_daemon morning) 1 (new_conn [] []) (open_message false) 7).1 ≢ none
run-handle_open_refused_example =
    run-handle_open_refused beside on_demand morning 1 (new_conn [] []) (open_message false) 7 refl
      lazy_starts

run-IsBounded_example : Each IsBounded (run lazy_daemon morning)
run-IsBounded_example = run-IsBounded beside on_demand morning lazy_starts
