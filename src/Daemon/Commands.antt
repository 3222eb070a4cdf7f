-- ===== src/Daemon/Commands.antt =====
-- cmd/sercond/main.go: the commands of the daemon's binary. What the system, the configuration and the hub answer is an
-- input; what a command prints is a value.
use sercon.Prelude.{
  ℕ, zero, suc, ◌+◌, Bool, true, false, ◌||◌, not, Option, none, some, List, [], ◌∷◌, ◌++◌, map,
  ltb, ◌==◌, if◌then◌else◌, maybe, ℤ, pos, is_pos, Bytes, codes, str_eq, is_empty,
}
use sercon.Proto.Frame.{Frame, type_ctrl}
use sercon.Hub.Types.{PortInfo}
pub mod Endings

-- The words that `run` knows, and its exit code, where a command fails or not.
pub data Command : Type 0 where
  session capture list_ports show_status stop : Command

pub data Word : Type 0 where
  known : Command → Word
  version_word help_word unknown_word : Word

unfoldable pub word_of : Bytes → Word
word_of w =
    if str_eq w (codes "session")
    then known session
    else if str_eq w (codes "capture")
    then known capture
    else if str_eq w (codes "list") || str_eq w (codes "ls")
    then known list_ports
    else if str_eq w (codes "status")
    then known show_status
    else if str_eq w (codes "stop")
    then known stop
    else if str_eq w (codes "version") || (str_eq w (codes "-v") || str_eq w (codes "--version"))
    then version_word
    else if str_eq w (codes "help") || (str_eq w (codes "-h") || str_eq w (codes "--help"))
    then help_word
    else unknown_word

unfoldable pub exit_code : (Command → List Bytes → Bool) → List Bytes → ℕ
exit_code fails [] = 2
exit_code fails (w ∷ args) = elim (word_of w) [
  | known c ↦ (if fails c args then 1 else 0)
  | version_word ↦ 0
  | help_word ↦ 0
  | unknown_word ↦ 2
]

-- `resolveSocket`
unfoldable pub resolve_socket : Bytes → Option Bytes → Option Bytes
resolve_socket override endpoint = if not (is_empty override) then some override else endpoint

-- `or`
abbrev pub or_else : Bytes → Bytes → Bytes
or_else v fallback = if is_empty v then fallback else v

-- What `queryPorts` reads of a message: whether it is the table, and the table.
pub record PortsReply : Type 0 where
  pub is_ports : Bool
  pub table : List PortInfo

module _ (unmarshal : Bytes → Option PortsReply) where
  -- What the loop takes of a frame
  unfoldable pub table_of : Frame → Option (List PortInfo)
  unfolding maybe
  table_of f =
      if f.type == type_ctrl
      then maybe none (λ (a : PortsReply). if a.is_ports then some a.table else none)
          (unmarshal f.payload)
      else none

  -- The loop of `queryPorts` on the frames that come before an error
  unfoldable pub query_loop : List Frame → Option (List PortInfo)
  query_loop [] = none
  query_loop (f ∷ fs) = elim (table_of f) [ some t ↦ some t | none ↦ query_loop fs ]

  -- `queryPorts`
  unfoldable pub query_ports : Bool → Bool → List Frame → Option (List PortInfo)
  query_ports dialed sent fs = if not dialed then none else if not sent then none else query_loop fs

-- A device as `Discover` gives it, and whether its path exists.
pub record Found : Type 0 where
  pub ref : Bytes
  pub dev : Bytes
  pub desc : Bytes
  pub exists : Bool

unfoldable pub scanned : ℤ → Found → PortInfo
scanned baud d = record {
  ref = d.ref;
  dev = d.dev;
  desc = d.desc;
  baud = baud;
  online = d.exists;
  owner = [];
  observers = 0;
  log = [];
  last_err = [];
}

-- The table that `cmdList` prints: the daemon's, or that of a scan, at the configured speed.
unfoldable pub listed : Option (List PortInfo) → Option (List Found) → Option ℤ → List PortInfo
unfolding maybe
listed from_daemon scan configured =
    let baud = maybe (pos 115200) (λ b. if is_pos b then b else pos 115200) configured in
    maybe (maybe [] (map (scanned baud)) scan) (λ ports. ports) from_daemon

-- A row of `printPorts`, with the text of a number a parameter
unfoldable pub row : (ℕ → Bytes) → (ℤ → Bytes) → PortInfo → List Bytes
row show show_int p =
    p.ref
    ∷ p.dev
    ∷ show_int p.baud
    ∷ (if p.online then codes "online" else codes "offline")
    ∷ or_else p.owner (codes "-")
    ∷ (if ltb 0 p.observers then show p.observers else codes "-")
    ∷ or_else p.log (codes "-")
    ∷ []

-- The counts of `cmdStatus`: all ports, those online and those held
unfoldable pub status_counts : List PortInfo → ℕ × ℕ × ℕ
status_counts [] = (0, 0, 0)
status_counts (p ∷ ps) =
    let (all, online, held) = status_counts ps in
    (
      all + 1,
      (if p.online then online + 1 else online),
      (if is_empty p.owner then held else held + 1),
    )

-- How `cmdStop` ends, with the answers of `Alive` at its fifty looks
pub data Stopped : Type 0 where
  not_running not_sent stopped did_not_stop : Stopped

unfoldable pub goes_down : ℕ → List Bool → Stopped
goes_down zero looks = did_not_stop
goes_down (suc n) [] = did_not_stop
goes_down (suc n) (alive ∷ looks) = let rest = goes_down n looks in if alive then rest else stopped

unfoldable pub stop_daemon : Bool → Bool → List Bool → Stopped
stop_daemon dialed sent looks =
    if not dialed then not_running else if not sent then not_sent else goes_down 50 looks

-- What `cmdCapture` does, in order.
pub data Effect : Type 0 where
  binds starts_manager logs_start serves_conn sleeps closes_listener closes_manager removes_socket :
      Effect

-- What `Accept` gives, and whether the stop channel is closed at an error.
pub data Accepted : Type 0 where
  connection transient stopping : Accepted

-- The accept loop on what has come so far; the flag says whether it has ended.
unfoldable pub accept_loop : List Accepted → List Effect × Bool
accept_loop [] = ([], false)
accept_loop (connection ∷ rest) = let (es, over) = accept_loop rest in (serves_conn ∷ es, over)
accept_loop (transient ∷ rest) = let (es, over) = accept_loop rest in (sleeps ∷ es, over)
accept_loop (stopping ∷ rest) = ([], true)

pub record CaptureCalls : Type 0 where
  pub socket : Option Bytes
  pub configured : Bool
  pub has_bound : Bool
  pub manager_made : Bool
  pub manager_starts : Bool
  pub accepted : List Accepted

-- `cmdCapture`: its effects, and whether it has returned
unfoldable pub cmd_capture : CaptureCalls → List Effect × Bool
unfolding maybe
cmd_capture c =
    let (es, over) = accept_loop c.accepted in
    maybe ([], true)
      (λ sock.
        if not c.configured || not c.has_bound
        then ([], true)
        else if not c.manager_made || not c.manager_starts
        then (binds ∷ closes_listener ∷ removes_socket ∷ [], true)
        else if over
        then (
          binds
              ∷ starts_manager
              ∷ logs_start
              ∷ (es ++ closes_listener ∷ closes_manager ∷ removes_socket ∷ []),
          true,
        )
        else (binds ∷ starts_manager ∷ logs_start ∷ es, false))
      c.socket
