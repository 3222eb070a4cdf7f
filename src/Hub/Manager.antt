-- ===== src/Hub/Manager.antt =====
-- internal/hub/hub.go: `New`, `Sync`, `newPort`, `Ports`, `Resolve`, `RequestShutdown` and `Close`.
use sercon.Prelude.{
  ℕ, ◌⊎◌, inl, inr, Bool, true, false, ◌||◌, Option, none, some, List, [], ◌∷◌, ◌++◌, map, ◌==◌,
  if◌then◌else◌, maybe, ℤ, pos, negsuc, is_pos, is_zero, length, Bytes, codes, str_eq, is_empty,
  to_lower, equal_fold, contains,
}
use sercon.Prelude.Dict.{nat_key, str_key, get, put}
use sercon.Hub.Types.{
  PortDef, Options, daemon_stop, blank_event, described, OpError, no_port_given, no_match,
  ambiguous, PortInfo, unstarted, returned, Port, Manager, audit_log,
}
use sercon.Hub.Queue.{kill}
use sercon.Hub.Ring.{new_ring}
use sercon.Hub.Ports.{on_port, info, ensure_worker, shutdown_port, release}
use sercon.Prelude.Sort.{sort_by}

abbrev pub to_ℕ : ℤ → ℕ
to_ℕ (pos n) = n
to_ℕ (negsuc n) = 0

-- `filepath.Dir` and `filepath.Join` of the audit directory are package filepath's; `audit_beside`
-- is what they give for the log directory.
unfoldable pub new : (Bytes → Bytes) → Options → Option Manager
new audit_beside o =
    if is_empty o.log_dir
    then none
    else some (record {
      opts = record o {
        audit_dir = if is_empty o.audit_dir then audit_beside o.log_dir else o.audit_dir;
        default_baud = if is_zero o.default_baud then pos 115200 else o.default_baud;
        backlog_bytes = if is_pos o.backlog_bytes then o.backlog_bytes else pos 65536;
      };
      trail = [];
      ports = [];
      conns = [];
      closed = false;
      scan_err = none;
      stop_requested = false;
    })

-- `serialport.Device`, and what `portlog.New` answers for it: the log's path, or its error.
pub record Device : Type 0 where
  pub ref : Bytes
  pub link : Bytes
  pub dev : Bytes
  pub desc : Bytes
  pub log : Bytes ⊎ Bytes

abbrev pub alias_baud : Option PortDef → ℤ → ℤ
alias_baud none b = b
alias_baud (some a) b = if is_pos a.baud then a.baud else b

abbrev pub alias_desc : Option PortDef → Bytes → Bytes
alias_desc none d = d
alias_desc (some a) d = if is_empty a.desc then d else a.desc

abbrev pub with_log : Bytes ⊎ Bytes → Bytes → ℤ → Port → Port
with_log (inl path) dev baud p = record p {
  logw = some (record { path = path; calls = described dev baud ∷ [] });
}
with_log (inr err) dev baud p = record p { log_err = codes "log unavailable: " ++ err }

-- `Manager.newPort`
unfoldable pub new_port : Options → Device → Port
new_port o d =
    let alias = get d.ref o.aliases in
    let baud = alias_baud alias o.default_baud in
    with_log d.log d.dev baud (record {
      ref = d.ref;
      link = d.link;
      dev = d.dev;
      desc = alias_desc alias d.desc;
      baud = baud;
      ring = new_ring (to_ℕ o.backlog_bytes);
      sp = none;
      online = false;
      running = false;
      last_err = [];
      log_err = [];
      logw = none;
      conns = [];
      owner = none;
      read = 0;
      written = 0;
      phase = unstarted;
      backoff = 1;
      tx = [];
      archive = [];
    })

abbrev pub moved : Device → Port → Port
moved d p = record p { link = d.link; dev = d.dev }

abbrev pub register : Manager → Device → Manager
register m d = record m { ports = put d.ref (new_port m.opts d) m.ports }

-- The loop in `Sync`: a known device moves, another is registered and noted in `fresh`.
unfoldable pub sync_devices : Manager → List Bytes → List Device → Manager × List Bytes
sync_devices m fresh [] = (m, fresh)
sync_devices m fresh (d ∷ ds) = elim (get d.ref m.ports) [
  | some _ ↦ sync_devices (on_port m d.ref (moved d)) fresh ds
  | none ↦ sync_devices (register m d) (fresh ++ d.ref ∷ []) ds
]

unfoldable pub ensure_workers : Manager → List Bytes → Manager
ensure_workers m [] = m
ensure_workers m (r ∷ rs) = ensure_workers (ensure_worker m r) rs

-- `Manager.Sync` after `serialport.Discover` gave an error or the devices. The flag says whether
-- it failed.
unfoldable pub sync : Manager → Bytes ⊎ List Device → Manager × Bool
sync m (inl err) = (record m { scan_err = some err }, true)
sync m (inr ds) =
    let m' = record m { scan_err = none } in
    let (m'', fresh) = sync_devices m' [] ds in
    if m.closed
    then (m', true)
    else if m.opts.auto_open
    then (ensure_workers m'' fresh, false)
    else (m'', false)

-- `Manager.Ports`
unfoldable pub port_infos : Manager → List PortInfo
port_infos m = sort_by (λ (i : PortInfo). i.ref) (map (λ (e : Bytes × Port). info m e.1) m.ports)

-- `Manager.RequestShutdown`
abbrev pub request_shutdown : Manager → Manager
request_shutdown m = record m { stop_requested = true }

-- `filepath.Base` of a path with no trailing separator.
unfoldable pub base_onto : Bytes → Bytes → Bytes
base_onto acc [] = acc
base_onto acc (c ∷ s) = base_onto (if c == b'/' then [] else acc ++ c ∷ []) s

abbrev pub base : Bytes → Bytes
base s = if is_empty s then codes "." else base_onto [] s

abbrev pub fits_exactly : Bytes → Port → Bool
fits_exactly ref p = str_eq p.dev ref || str_eq (base p.dev) ref || equal_fold p.ref ref

abbrev pub fits_needle : Bytes → Port → Bool
fits_needle needle p = contains needle (to_lower p.ref) || contains needle (to_lower p.desc)

-- The first port in the map's order that a test accepts, and all of them.
unfoldable pub first_port : (Port → Bool) → List (Bytes × Port) → Option Port
first_port t [] = none
first_port t ((r, p) ∷ d) = if t p then some p else first_port t d

unfoldable pub all_ports : (Port → Bool) → List (Bytes × Port) → List Port
all_ports t [] = []
all_ports t ((r, p) ∷ d) = if t p then p ∷ all_ports t d else all_ports t d

-- The result of `Resolve`: a port's reference, or the error.
pub data Resolved : Type 0 where
  found : Bytes → Resolved
  failed_to : OpError → Resolved

abbrev pub from_hits : Bytes → List Port → Resolved
from_hits ref [] = failed_to (no_match ref)
from_hits ref (p ∷ []) = found p.ref
from_hits ref (p ∷ q ∷ ps) =
    failed_to (ambiguous ref (sort_by (λ r. r) (map (λ (x : Port). x.ref) (p ∷ q ∷ ps))))

abbrev pub only_port : List (Bytes × Port) → Resolved
only_port ((r, p) ∷ []) = found p.ref
only_port d = failed_to (no_port_given (length d))

-- `Manager.Resolve`
unfoldable pub resolve : Manager → Bytes → Resolved
unfolding maybe
resolve m ref =
    if is_empty ref
    then only_port m.ports
    else maybe
        (maybe (from_hits ref (all_ports (fits_needle (to_lower ref)) m.ports))
          (λ (p : Port). found p.ref) (first_port (fits_exactly ref) m.ports))
        (λ (p : Port). found p.ref) (get ref m.ports)

-- Every value of a map, changed in place.
unfoldable pub each {ℓ κ} : {K : Type ℓ} {V : Type κ} → (V → V) → List (K × V) → List (K × V)
each f [] = []
each f ((k, v) ∷ d) = (k, f v) ∷ each f d

-- `Manager.Close`: the clients are dropped first, then the devices; once the workers have returned
-- the logs are released.
unfoldable pub close_manager : Manager → Manager
close_manager m =
    if m.closed
    then m
    else audit_log
        (record m {
          closed = true;
          conns = each kill m.conns;
          ports =
              each
                (λ p. record (release (shutdown_port p)) {
                  phase = if p.running then returned else p.phase;
                })
                m.ports;
        })
        (blank_event daemon_stop)
