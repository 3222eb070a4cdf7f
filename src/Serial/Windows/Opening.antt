-- ===== src/Serial/Windows/Opening.antt =====
-- internal/serialport/serialport_windows.go: `Open`, `configure`, `SendBreak` and `Close`, with the handles that a
-- port holds.
use sercon.Prelude.{
  ℕ, ◌+◌, ◌*◌, ◌%◌, ◌^◌, ◌≡◌, refl, Bool, true, false, not, Option, none, some, ◌==◌, if◌then◌else◌,
  if-intro, ℤ, pos, negsuc,
}

-- Which of the device and the two events are held
pub record Handles : Type 0 where
  pub file : Bool
  pub ev_read : Bool
  pub ev_write : Bool

abbrev pub none_held : Handles
none_held = record { file = false; ev_read = false; ev_write = false }

-- `dcb`, in the fields that `configure` sets
pub record Dcb : Type 0 where
  pub baud_rate : ℕ
  pub flags : ℕ
  pub byte_size : ℕ
  pub parity : ℕ
  pub stop_bits : ℕ

-- The bits for binary, the output's CTS flow, DTR and RTS are 0, 2, 4 and 12, and the speed is cut to 32 bits.
unfoldable pub configured : ℕ → Bool → Dcb
configured baud rtscts = record {
  baud_rate = baud % 2 ^ 32;
  flags = 1 + (if rtscts then 4 else 0) + 1 * 2 ^ 4 + 1 * 2 ^ 12;
  byte_size = 8;
  parity = 0;
  stop_bits = 0;
}

pub data OpenError : Type 0 where
  invalid_baud : ℤ → OpenError
  bad_name not_opened no_read_event no_write_event no_state state_refused no_timeouts no_mask :
      OpenError

-- What the calls answer; whether the driver takes a state depends on the state.
pub record OpenCalls : Type 0 where
  pub named : Bool
  pub created : Bool
  pub read_event : Bool
  pub write_event : Bool
  pub state_read : Bool
  pub takes : Dcb → Bool
  pub timeouts_set : Bool
  pub mask_set : Bool

pub data Opened : Type 0 where
  open_error : OpenError → Opened
  opened_port : Dcb → Opened

-- `configure`
unfoldable pub configure : OpenCalls → ℕ → Bool → Option OpenError
configure c baud rtscts =
    if not c.state_read
    then some no_state
    else if not (c.takes (configured baud rtscts))
    then some state_refused
    else if not c.timeouts_set
    then some no_timeouts
    else none

-- `Close`, which acts at its first call only
unfoldable pub close : Bool → Handles → Handles
close already h = if already then h else record {
  file = if h.file then false else h.file;
  ev_read = if h.ev_read then false else h.ev_read;
  ev_write = if h.ev_write then false else h.ev_write;
}

abbrev pub all_held : Handles
all_held = record { file = true; ev_read = true; ev_write = true }

-- `Open` behind the events
abbrev pub open_configured : OpenCalls → ℕ → Bool → Option OpenError → Handles × Opened
open_configured c baud rtscts (some e) = (close false all_held, open_error e)
open_configured c baud rtscts none =
    if not c.mask_set
    then (close false all_held, open_error no_mask)
    else (all_held, opened_port (configured baud rtscts))

-- `Open`
unfoldable pub open_windows : OpenCalls → ℤ → Bool → Handles × Opened
open_windows c (negsuc n) rtscts = (none_held, open_error (invalid_baud (negsuc n)))
open_windows c (pos baud) rtscts =
    if baud == 0
    then (none_held, open_error (invalid_baud (pos baud)))
    else if not c.named
    then (none_held, open_error bad_name)
    else if not c.created
    then (none_held, open_error not_opened)
    else if not c.read_event
    then (none_held, open_error no_read_event)
    else if not c.write_event
    then (none_held, open_error no_write_event)
    else open_configured c baud rtscts (configure c baud rtscts)

-- `SendBreak`, with whether the port is closed and whether setting and clearing the break work
pub data BreakResult : Type 0 where
  break_sent break_on_closed break_not_set break_not_cleared : BreakResult

unfoldable pub send_break_windows : Bool → Bool → Bool → BreakResult
send_break_windows is_closed set cleared =
    if is_closed
    then break_on_closed
    else if not set
    then break_not_set
    else if not cleared
    then break_not_cleared
    else break_sent

-- What an opening holds: nothing after an error, and otherwise all three handles, which the first `Close` gives back.
abbrev pub Settled : Handles × Opened → Type 0
Settled (h, open_error e) = h ≡ none_held
Settled (h, opened_port d) = (h ≡ all_held) × (close false h ≡ none_held)

pub open_windows-Settled :
    (c : OpenCalls) (baud : ℤ) (rtscts : Bool) → Settled (open_windows c baud rtscts)
unfolding open_windows close
open_windows-Settled c (negsuc n) rtscts = refl
open_windows-Settled c (pos baud) rtscts =
    if-intro Settled (baud == 0) _ _ (λ _. refl)
      (λ _.
        if-intro Settled (not c.named) _ _ (λ _. refl)
          (λ _.
            if-intro Settled (not c.created) _ _ (λ _. refl)
              (λ _.
                if-intro Settled (not c.read_event) _ _ (λ _. refl)
                  (λ _.
                    if-intro Settled (not c.write_event) _ _ (λ _. refl)
                      (λ _. configured-Settled (configure c baud rtscts))))))
  where
    configured-Settled : (o : Option OpenError) → Settled (open_configured c baud rtscts o)
    configured-Settled (some e) = refl
    configured-Settled none = if-intro Settled (not c.mask_set) _ _ (λ _. refl) (λ _. (refl, refl))
