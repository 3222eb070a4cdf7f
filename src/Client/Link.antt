-- ===== src/Client/Link.antt =====
-- cmd/sercon/attach.go: what a session does with the frames of the daemon, its heartbeat, its local log, and the loop
-- that attaches again. What `json.Unmarshal` makes of a control frame is a parameter.
use sercon.Prelude.{
  ℕ, Bool, true, false, ◌&&◌, ◌||◌, not, Option, none, some, List, [], ◌∷◌, ◌++◌, ltb, ◌==◌,
  if◌then◌else◌, maybe, Bytes, codes, is_empty,
}
use sercon.Proto.Frame.{Frame, ReadError, type_data}
use sercon.Client.Keys.{Wire, put_frame, longer_backoff}
use sercon.Proto.Write.{WriteError}
use sercon.Hub.Types.{ctrl_frame, blank_message, ping}
pub mod Output

-- `localLog`: what was written to its file, and whether it is open.
pub record LocalLog : Type 0 where
  pub is_open : Bool
  pub path : Bytes
  pub is_on : Bool
  pub written : Bytes

abbrev pub no_log : LocalLog
no_log = record { is_open = false; path = []; is_on = false; written = [] }

-- `openLocalLog`, with the absolute path if the file could be opened; `none` is the error
unfoldable pub open_local_log : Bytes → Option Bytes → Option LocalLog
unfolding maybe
open_local_log path opened =
    if is_empty path
    then some no_log
    else maybe none (λ p. some record { is_open = true; path = p; is_on = true; written = [] })
        opened

-- `localLog.Write`
unfoldable pub log_write : LocalLog → Bytes → LocalLog
log_write l p = if l.is_open && l.is_on then record l { written = l.written ++ p } else l

-- `localLog.toggle`, with the path of a file that is opened; the last part is whether it failed
unfoldable pub log_toggle : LocalLog → Option Bytes → LocalLog × Bool
unfolding maybe
log_toggle l opened =
    if not l.is_open
    then maybe (l, true)
        (λ p. (record { is_open = true; path = p; is_on = true; written = [] }, false)) opened
    else (record l { is_on = not l.is_on }, false)

-- `localLog.Close`
unfoldable pub log_close : LocalLog → LocalLog
log_close l = record l { is_open = false }

-- The messages that `handleMessage` tells apart.
pub data Op : Type 0 where
  notice error stat closed pong other : Op

pub record Reply : Type 0 where
  pub op : Op
  pub text : Bytes

-- A line between the output, with what it says before the text.
pub data Screen : Type 0 where
  output : Bytes → Screen
  line : Bytes → Screen

-- `handleMessage`: what it shows, and whether the session ends.
unfoldable pub handle_message : Reply → List Screen × Bool
handle_message m = elim m.op [
  | notice ↦ (line m.text ∷ [], false)
  | error ↦ (line (codes "error: " ++ m.text) ∷ [], false)
  | stat ↦ ((if not (is_empty m.text) then line m.text ∷ [] else []), false)
  | closed ↦ (line (codes "detached: " ++ m.text) ∷ [], true)
  | pong ↦ ([], false)
  | other ↦ ([], false)
]

-- Why `pumpOutput` ends.
pub data PumpEnd : Type 0 where
  user_quit stdout_failed : PumpEnd
  lost : ReadError → PumpEnd

pub record Pumped : Type 0 where
  pub screen : List Screen
  pub log : LocalLog
  pub ended : PumpEnd

abbrev pub show_first : List Screen → Pumped → Pumped
show_first xs p = record p { screen = xs ++ p.screen }

module _ (unmarshal : Bytes → Option Reply) where
  -- `pumpOutput` on the frames that come, the error behind them, and whether a write to the terminal works. The
  -- reader gives no frame of another type.
  unfoldable pub pump_output : Bool → LocalLog → List Frame → ReadError → Pumped
  unfolding maybe handle_message
  pump_output writes l [] e = record { screen = []; log = l; ended = lost e }
  pump_output writes l (f ∷ fs) e =
      let logged = pump_output writes (log_write l f.payload) fs e in
      let rest = pump_output writes l fs e in
      if f.type == type_data
      then (if writes
          then show_first (output f.payload ∷ []) logged
          else record { screen = []; log = l; ended = stdout_failed })
      else maybe rest
          (λ m.
            if (handle_message m).1
            then record { screen = (handle_message m).0; log = l; ended = user_quit }
            else show_first (handle_message m).0 rest)
          (unmarshal f.payload)

-- A tick of `heartbeat`: a ping, and the end when the last frame came longer ago than the deadline.
pub data Beat : Type 0 where
  goes_on : Wire → Beat
  ping_failed : WriteError → Wire → Beat
  no_response : ℕ → Wire → Beat

unfoldable pub beat : ℕ → Wire → ℕ → Beat
unfolding maybe
beat deadline w since =
    let (w', failed) = put_frame w (ctrl_frame (blank_message ping)) in
    maybe (if ltb deadline since then no_response since w' else goes_on w') (λ e. ping_failed e w')
      failed

-- How `attachOnce` ended, and what the operator did while the loop of `cmdAttach` waited.
pub data OnceEnd : Type 0 where
  ended_well quit_by_user wants_reconnect : OnceEnd
  failed_with : Bytes → OnceEnd

pub data AttachRound : Type 0 where
  attached_again : ℕ → AttachRound
  exits : Option Bytes → AttachRound

-- One round of the loop of `cmdAttach`, with its delay in seconds.
unfoldable pub attach_round : Bool → Bool → ℕ → OnceEnd → Bool → AttachRound
attach_round interactive no_reconnect b ended_well interrupted = exits none
attach_round interactive no_reconnect b quit_by_user interrupted = exits none
attach_round interactive no_reconnect b wants_reconnect interrupted = attached_again 1
attach_round interactive no_reconnect b (failed_with e) interrupted =
    if no_reconnect || not interactive
    then exits (some e)
    else if interrupted
    then exits none
    else attached_again (longer_backoff b)

-- `cmdAttach` behind its checks: without a terminal there is no second attachment.
unfoldable pub attach_loop : Bool → Bool → ℕ → List (OnceEnd × Bool) → AttachRound
attach_loop interactive no_reconnect b [] = attached_again b
attach_loop interactive no_reconnect b ((ended, interrupted) ∷ es) =
    elim (attach_round interactive (no_reconnect || not interactive) b ended interrupted) [
      | exits e ↦ exits e
      | attached_again b' ↦ attach_loop interactive no_reconnect b' es
    ]
