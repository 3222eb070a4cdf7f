-- ===== src/Serial/Windows.antt =====
-- internal/serialport/serialport_windows.go: `Read`, `drain` and `Write` on overlapped operations, with what the calls
-- of Win32 give as inputs. Beside the port, the model keeps which operation the driver still holds, and whether
-- its struct was written over meanwhile.
use sercon.Prelude.{
  ℕ, zero, suc, Bool, true, false, ◌||◌, Option, none, some, [], ◌∷◌, ◌==◌, if◌then◌else◌, Bytes,
  is_empty,
}
use sercon.Serial.Linux.{Called, gave, errno}
pub mod Overlapped
pub mod Opening

-- `errorIOPending` is a result of its own. `ERROR_IO_INCOMPLETE`, `errorOperationAborted` and `errorNotFound`:
abbrev pub io_incomplete : ℕ
io_incomplete = 996

abbrev pub operation_aborted : ℕ
operation_aborted = 995

abbrev pub not_found : ℕ
not_found = 1168

-- A call that ends at once, that is pending, or that fails.
pub data Async {ℓ} (A : Type ℓ) : Type ℓ where
  at_once : A → Async A
  pending : Async A
  call_failed : ℕ → Async A

-- `WaitForSingleObject`
pub data Wait : Type 0 where
  signaled timed_out : Wait
  wait_failed : ℕ → Wait

pub data PortError : Type 0 where
  closed_port : PortError
  clear_failed read_failed event_failed waiting_failed write_failed : ℕ → PortError
  write_timed_out : PortError

pub data Got : Type 0 where
  got : Bytes → Got
  not_got : PortError → Got

-- Whether the port is closed, and for each of `ovRead` and `ovWrite` whether an operation is pending on it. The last
-- part says whether a struct was reset while one was.
pub record Port : Type 0 where
  pub closed : Bool
  pub read_pending : Bool
  pub write_pending : Bool
  pub overwritten : Bool

-- `resetRead` and `resetWrite`
unfoldable pub reset_read : Port → Port
reset_read p = record p { read_pending = false; overwritten = p.overwritten || p.read_pending }

unfoldable pub reset_write : Port → Port
reset_write p = record p { write_pending = false; overwritten = p.overwritten || p.write_pending }

unfoldable pub is_incomplete {ℓ} : {A : Type ℓ} → Called A → Bool
is_incomplete (gave a) = false
is_incomplete (errno e) = e == io_incomplete

-- `overlappedResult`: unless it says that the operation is incomplete, the driver is done with the struct.
unfoldable pub settle_read {ℓ} : {A : Type ℓ} → Called A → Port → Port
settle_read r p = record p { read_pending = is_incomplete r }

unfoldable pub settle_write {ℓ} : {A : Type ℓ} → Called A → Port → Port
settle_write r p = record p { write_pending = is_incomplete r }

-- The calls of `drain`: the queue's length, the read, the wait, its result, and whether `Close` came meanwhile.
pub record DrainCalls : Type 0 where
  pub queued : Called ℕ
  pub file : Async Bytes
  pub wait : Wait
  pub result : Called Bytes
  pub closed_meanwhile : Bool

unfoldable pub drained : DrainCalls → Called Bytes → Got
drained c (gave b) = got b
drained c (errno e) = if c.closed_meanwhile then not_got closed_port else not_got (read_failed e)

-- `drain` behind a read that is pending
unfoldable pub drain_wait : DrainCalls → Port → Wait → Port × Got
drain_wait c p (wait_failed e) = (p, not_got (waiting_failed e))
drain_wait c p timed_out =
    (settle_read c.result p, if c.closed_meanwhile then not_got closed_port else got [])
drain_wait c p signaled = (settle_read c.result p, drained c c.result)

unfoldable pub drain_file : DrainCalls → Port → Async Bytes → Port × Got
drain_file c p (at_once b) = (p, got b)
drain_file c p (call_failed e) = (p, not_got (read_failed e))
drain_file c p pending = drain_wait c (record p { read_pending = true }) c.wait

unfoldable pub drain_queue : DrainCalls → Port → Called ℕ → Port × Got
drain_queue c p (errno e) = (p, not_got (clear_failed e))
drain_queue c p (gave zero) = (p, got [])
drain_queue c p (gave (suc n)) = drain_file c (reset_read p) c.file

-- `drain`
unfoldable pub drain : DrainCalls → Port → Port × Got
drain c p = drain_queue c p c.queued

-- The calls of `Read`: two drains, the event between them, its wait and its result.
pub record ReadCalls : Type 0 where
  pub first : DrainCalls
  pub event : Async {0} Unit
  pub wait : Wait
  pub result : Called {0} Unit
  pub closed_meanwhile : Bool
  pub second : DrainCalls

unfoldable pub unless_closed : ReadCalls → Port × Got → Port → Port × Got
unless_closed c r p = if c.closed_meanwhile then (p, not_got closed_port) else r

unfoldable pub event_timed_out : ReadCalls → Port → Called {0} Unit → Port × Got
event_timed_out c p (gave u) = drain c.second p
event_timed_out c p (errno e) =
    if e == operation_aborted || e == not_found then (p, got []) else (p, not_got (event_failed e))

unfoldable pub event_came : ReadCalls → Port → Called {0} Unit → Port × Got
event_came c p (gave u) = drain c.second p
event_came c p (errno e) = (p, not_got (event_failed e))

-- `Read` behind an event that is pending
unfoldable pub event_wait : ReadCalls → Port → Wait → Port × Got
event_wait c p (wait_failed e) = (p, not_got (waiting_failed e))
event_wait c p timed_out =
    let q = settle_read c.result p in unless_closed c (event_timed_out c q c.result) q
event_wait c p signaled =
    let q = settle_read c.result p in unless_closed c (event_came c q c.result) q

unfoldable pub wait_event : ReadCalls → Port → Async {0} Unit → Port × Got
wait_event c p (at_once u) = unless_closed c (drain c.second p) p
wait_event c p (call_failed e) = (p, not_got (event_failed e))
wait_event c p pending = event_wait c (record p { read_pending = true }) c.wait

unfoldable pub read_more : ReadCalls → Port × Got → Port × Got
read_more c (p, got []) = wait_event c (reset_read p) c.event
read_more c (p, got (b ∷ s)) = (p, got (b ∷ s))
read_more c (p, not_got e) = (p, not_got e)

-- `Read` into a buffer that is not empty
unfoldable pub read : ReadCalls → Port → Port × Got
read c p = if p.closed then (p, not_got closed_port) else read_more c (drain c.first p)

-- The calls of `Write`, and what a failed one leaves in `written`.
pub record WriteCalls : Type 0 where
  pub file : Async ℕ
  pub wait : Wait
  pub result : Called ℕ
  pub written : ℕ

pub data Sent : Type 0 where
  sent : ℕ → Option PortError → Sent

unfoldable pub write_result : WriteCalls → Called ℕ → Sent
write_result c (gave n) = sent n none
write_result c (errno e) = sent c.written (some (write_failed e))

-- `Write` behind a write that is pending; a timeout cancels it and does not ask for its result.
unfoldable pub write_wait : WriteCalls → Port → Wait → Port × Sent
write_wait c p (wait_failed e) = (p, sent 0 (some (waiting_failed e)))
write_wait c p timed_out = (p, sent 0 (some write_timed_out))
write_wait c p signaled = (settle_write c.result p, write_result c c.result)

unfoldable pub write_file : WriteCalls → Port → Async ℕ → Port × Sent
write_file c p (at_once n) = (p, sent n none)
write_file c p (call_failed e) = (p, sent c.written (some (write_failed e)))
write_file c p pending = write_wait c (record p { write_pending = true }) c.wait

-- `Write`
unfoldable pub write : WriteCalls → Bytes → Port → Port × Sent
write c b p =
    if is_empty b
    then (p, sent 0 none)
    else if p.closed
    then (p, sent 0 (some closed_port))
    else write_file c (reset_write p) c.file
