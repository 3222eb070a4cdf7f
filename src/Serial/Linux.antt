-- ===== src/Serial/Linux.antt =====
-- internal/serialport/serialport_linux.go: `Port`, with what the system calls give as inputs.
use sercon.Prelude.{
  ℕ, zero, suc, ◌+◌, Bool, true, false, not, Option, none, some, List, [], ◌∷◌, ◌++◌, ◌==◌,
  if◌then◌else◌, maybe, ℤ, pos, negsuc, length, take, drop, Bytes,
}
use Prim.Native.Nat.{bit_or}
use sercon.Prelude.Dict.{nat_key, get, exclude}
pub mod Descriptors
pub mod Sending
pub mod Reading
pub mod Scan

-- `ErrClosed`, and the errors of this package.
pub data PortError : Type 0 where
  closed_port device_gone : PortError
  unsupported_baud : ℤ → PortError
  open_error tcgets_error tcsets_error epoll_create_error epoll_ctl_error : ℕ → PortError
  epoll_wait_error read_error write_error break_error : ℕ → PortError
  stalled : ℕ → ℕ → PortError

-- `syscall.EINTR` and `syscall.EAGAIN`
abbrev pub eintr : ℕ
eintr = 4

abbrev pub eagain : ℕ
eagain = 11

abbrev pub baud_rates : List (ℕ × ℕ)
baud_rates =
    (50, 0x0001)
    ∷ (75, 0x0002)
    ∷ (110, 0x0003)
    ∷ (134, 0x0004)
    ∷ (150, 0x0005)
    ∷ (200, 0x0006)
    ∷ (300, 0x0007)
    ∷ (600, 0x0008)
    ∷ (1200, 0x0009)
    ∷ (1800, 0x000a)
    ∷ (2400, 0x000b)
    ∷ (4800, 0x000c)
    ∷ (9600, 0x000d)
    ∷ (19200, 0x000e)
    ∷ (38400, 0x000f)
    ∷ (57600, 0x1001)
    ∷ (115200, 0x1002)
    ∷ (230400, 0x1003)
    ∷ (460800, 0x1004)
    ∷ (500000, 0x1005)
    ∷ (576000, 0x1006)
    ∷ (921600, 0x1007)
    ∷ (1000000, 0x1008)
    ∷ (1152000, 0x1009)
    ∷ (1500000, 0x100a)
    ∷ (2000000, 0x100b)
    ∷ (2500000, 0x100c)
    ∷ (3000000, 0x100d)
    ∷ (3500000, 0x100e)
    ∷ (4000000, 0x100f)
    ∷ []

unfoldable pub baud_code : ℤ → Option ℕ
baud_code (pos n) = get n baud_rates
baud_code (negsuc n) = none

-- The settings of a line that `configure` makes.
pub record Termios : Type 0 where
  pub iflag : ℕ
  pub oflag : ℕ
  pub cflag : ℕ
  pub lflag : ℕ
  pub line : ℕ
  pub vmin : ℕ
  pub vtime : ℕ

abbrev pub cs8 : ℕ
cs8 = 0x30

abbrev pub cread : ℕ
cread = 0x80

abbrev pub clocal : ℕ
clocal = 0x800

abbrev pub crtscts : ℕ
crtscts = 0x80000000

unfoldable pub raw_line : ℕ → Bool → Termios
raw_line baud rtscts =
    let plain = bit_or (bit_or (bit_or cread clocal) cs8) baud in
    record {
      iflag = 0;
      oflag = 0;
      cflag = if rtscts then bit_or plain crtscts else plain;
      lflag = 0;
      line = 0;
      vmin = 1;
      vtime = 0;
    }

-- A system call gives a value or an error number.
pub data Called {ℓ} (A : Type ℓ) : Type ℓ where
  gave : A → Called A
  errno : ℕ → Called A

-- What the calls of `Open` give; a call without a value gives an error number or none.
pub record OpenCalls : Type 0 where
  pub opened : Called ℕ
  pub got : Option ℕ
  pub set : Option ℕ
  pub polled : Called ℕ
  pub added : Option ℕ

-- `Port`; a descriptor is negative once it is closed.
pub record Port : Type 0 where
  pub fd : ℤ
  pub epfd : ℤ
  pub path : Bytes

-- The open descriptors, and the settings of the lines, the last first.
pub record Kernel : Type 0 where
  pub descriptors : List ℕ
  pub lines : List (ℕ × Termios)

unfoldable pub open_fd : ℕ → Kernel → Kernel
open_fd n k = record k { descriptors = n ∷ k.descriptors }

-- `syscall.Close`
unfoldable pub close_fd : ℕ → Kernel → Kernel
close_fd n k = record k { descriptors = exclude n k.descriptors }

-- `configure`
unfoldable pub configure : OpenCalls → ℕ → ℕ → Bool → Kernel → Kernel × Option PortError
configure c fd baud rtscts k = elim c.got [
  | some e ↦ (k, some (tcgets_error e))
  | none ↦ elim c.set [
    | some e ↦ (k, some (tcsets_error e))
    | none ↦ (record k { lines = (fd, raw_line baud rtscts) ∷ k.lines }, none)
  ]
]

pub data Opened : Type 0 where
  port : Port → Opened
  failed : PortError → Opened

-- `Open` behind `epoll_create1`
unfoldable pub open_polled : OpenCalls → Bytes → ℕ → ℕ → Kernel → Opened × Kernel
open_polled c path fd epfd k = elim c.added [
  | some e ↦ (failed (epoll_ctl_error e), close_fd fd (close_fd epfd k))
  | none ↦ (port record { fd = pos fd; epfd = pos epfd; path = path }, k)
]

-- `Open` behind the opening of the device
unfoldable pub open_configured : OpenCalls → Bytes → ℕ → ℕ → Bool → Kernel → Opened × Kernel
unfolding maybe
open_configured c path fd code rtscts k =
    let (configured, error) = configure c fd code rtscts k in
    maybe
      (elim c.polled [
        | errno e ↦ (failed (epoll_create_error e), close_fd fd configured)
        | gave epfd ↦ open_polled c path fd epfd (open_fd epfd configured)
      ])
      (λ e. (failed e, close_fd fd configured)) error

-- `Open`
unfoldable pub open_port : OpenCalls → Bytes → ℤ → Bool → Kernel → Opened × Kernel
unfolding maybe
open_port c path baud rtscts k =
    maybe (failed (unsupported_baud baud), k)
      (λ code. elim c.opened [
        | errno e ↦ (failed (open_error e), k)
        | gave fd ↦ open_configured c path fd code rtscts (open_fd fd k)
      ])
      (baud_code baud)

abbrev pub closed_fd : ℤ
closed_fd = negsuc 0

unfoldable pub close_swapped : ℤ → Kernel → Kernel
close_swapped (pos n) k = close_fd n k
close_swapped (negsuc n) k = k

-- `Close`, which returns no error
unfoldable pub close : Port → Kernel → Port × Kernel
close p k =
    (record p { fd = closed_fd; epfd = closed_fd }, close_swapped p.fd (close_swapped p.epfd k))

abbrev pub is_open_fd : ℤ → Bool
is_open_fd (pos n) = true
is_open_fd (negsuc n) = false

-- `Closed`
unfoldable pub is_closed : Port → Bool
is_closed p = not (is_open_fd p.fd)

-- What `Write` gives: the count, and an error.
pub data Sent : Type 0 where
  sent : ℕ → Option PortError → Sent

-- One `syscall.Write`: a count or an error number; and whether the deadline was over when it was asked for.
pub data Try : Type 0 where
  tried : Called ℕ → Bool → Try

abbrev pub stop : ℕ → PortError → Option (Bytes × Sent)
stop total e = some ([], sent total (some e))

-- The kernel took some bytes before the others.
unfoldable pub took : Bytes → Option (Bytes × Sent) → Option (Bytes × Sent)
took b none = none
took b (some (s, r)) = some (b ++ s, r)

-- The loop of `Write`: the text is what is still to be sent, `total` is sent, and `all` is the length asked
-- for. The bytes that the kernel took come with the result; `none` means that too few calls were given.
unfoldable pub write_loop : ℕ → ℕ → Bytes → List Try → Option (Bytes × Sent)
write_loop all total [] ts = some ([], sent total none)
write_loop all total (c ∷ b) [] = none
write_loop all total (c ∷ b) (tried (gave zero) late ∷ ts) =
    let again = write_loop all total (c ∷ b) ts in
    if late then stop total (stalled total all) else again
write_loop all total (c ∷ b) (tried (gave (suc n)) late ∷ ts) =
    took (take (suc n) (c ∷ b)) (write_loop all (total + suc n) (drop n b) ts)
write_loop all total (c ∷ b) (tried (errno e) late ∷ ts) =
    let again = write_loop all total (c ∷ b) ts in
    if e == eintr
    then again
    else if e == eagain
    then (if late then stop total (stalled total all) else again)
    else stop total (write_error e)

-- `Write`
unfoldable pub write : Port → Bytes → List Try → Option (Bytes × Sent)
write p b ts =
    if is_closed p then some ([], sent 0 (some closed_port)) else write_loop (length b) 0 b ts
