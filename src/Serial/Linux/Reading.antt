-- ===== src/Serial/Linux/Reading.antt =====
-- internal/serialport/serialport_linux.go: `Read`, `SendBreak` and `Discover`, with what the system calls and package
-- filepath give as inputs.
use sercon.Prelude.{
  ℕ, Bool, false, ◌||◌, not, Option, none, some, List, [], ◌∷◌, ◌++◌, ◌==◌, if◌then◌else◌, maybe,
  Bytes,
}
use Prim.Native.Nat.{bit_and}
use sercon.Prelude.Sort.{sort_by}
use sercon.Prelude.Strings.{has_text}
use sercon.Serial.Names.{Device}
use sercon.Serial.Linux.{
  Called, gave, errno, PortError, closed_port, device_gone, epoll_wait_error, read_error,
  break_error, eintr, eagain, Port, is_open_fd,
}

-- `syscall.EPOLLERR|syscall.EPOLLHUP|syscall.EPOLLRDHUP`
abbrev pub gone_events : ℕ
gone_events = 0x2018

-- The events of a wait, and what a read of the device gives.
pub record ReadCalls : Type 0 where
  pub waited : Called (List ℕ)
  pub came : Called Bytes

pub data Got : Type 0 where
  got : Bytes → Got
  not_got : PortError → Got

unfoldable pub any_gone : List ℕ → Bool
any_gone [] = false
any_gone (e ∷ es) = not (bit_and e gone_events == 0) || any_gone es

-- The drain of a device that is gone: the last bytes, or the error.
abbrev pub last_read : Called Bytes → Got
last_read (gave []) = not_got device_gone
last_read (gave (c ∷ p)) = got (c ∷ p)
last_read (errno e) = not_got device_gone

abbrev pub plain_read : Called Bytes → Got
plain_read (gave p) = got p
plain_read (errno e) = if e == eagain || e == eintr then got [] else not_got (read_error e)

abbrev pub waited_read : Called (List ℕ) → Called Bytes → Got
waited_read (errno e) came = if e == eintr then got [] else not_got (epoll_wait_error e)
waited_read (gave []) came = got []
waited_read (gave (e ∷ es)) came = if any_gone (e ∷ es) then last_read came else plain_read came

-- `Port.Read`; no bytes and no error is a wait in which nothing came.
unfoldable pub read : Port → ReadCalls → Got
read p c =
    if not (is_open_fd p.epfd) || not (is_open_fd p.fd)
    then not_got closed_port
    else waited_read c.waited c.came

-- `Port.SendBreak`, with the error of the call
unfoldable pub send_break : Port → Option ℕ → Option PortError
unfolding maybe
send_break p called =
    if not (is_open_fd p.fd)
    then some closed_port
    else maybe none (λ e. some (break_error e)) called

-- A path that `filepath.Glob` found, its last element, and the device that its links lead to.
pub record Match : Type 0 where
  pub path : Bytes
  pub base : Bytes
  pub resolved : Option Bytes

abbrev pub device_of : Match → Bytes → Device
device_of m dev = record { ref = m.base; link = m.path; dev = dev; desc = m.base }

-- The loop over `/dev/serial/by-id`: the devices, and what has been seen; a link that leads nowhere is left out.
unfoldable pub scan_links : List Bytes → List Match → List Device × List Bytes
unfolding maybe
scan_links seen [] = ([], seen)
scan_links seen (m ∷ ms) =
    maybe (scan_links seen ms)
      (λ dev.
        let (more, after) = scan_links (dev ∷ seen) ms in
        if has_text dev seen then scan_links seen ms else (device_of m dev ∷ more, after))
      m.resolved

-- The loops over the other globs: a path that does not resolve is its own device.
unfoldable pub scan_matches : List Bytes → List Match → List Device
unfolding maybe
scan_matches seen [] = []
scan_matches seen (m ∷ ms) =
    let dev = maybe m.path (λ d. d) m.resolved in
    let same = scan_matches seen ms in
    let more = scan_matches (dev ∷ seen) ms in
    if has_text dev seen then same else device_of m dev ∷ more

-- `Discover`, with the links of by-id and the matches of all globs that package filepath takes
unfoldable pub discover_linux : List Match → List Match → List Device
discover_linux links matches =
    let (first, seen) = scan_links [] links in
    sort_by (λ d. d.ref) (first ++ scan_matches seen matches)
