-- ===== src/Client/Keys.antt =====
-- cmd/sercon/attach.go: the keys of an interactive session. `handleKeys` gets what one read of the
-- terminal brought, and `escape` the byte behind a Ctrl-A.
pub mod Typing
use sercon.Prelude.{
  ℕ, ◌*◌, Bool, true, false, ◌||◌, Option, none, some, List, [], ◌∷◌, ◌++◌, ltb, ◌==◌,
  if◌then◌else◌, length, Bytes, is_empty,
}
use sercon.Hub.Types.{OutMsg, data_frame, ctrl_frame, blank_message, break_, status}
use sercon.Proto.{max_payload}
use sercon.Proto.Write.{WriteError, too_large, sink_failed}

abbrev pub escape_key : ℕ
escape_key = 1

-- The `proto.Writer` of a session: the frames that it put on the wire, a control frame as its message.
pub record Wire : Type 0 where
  pub frames : List OutMsg
  pub broken : Bool

unfoldable pub put_frame : Wire → OutMsg → Wire × Option WriteError
put_frame w f =
    if w.broken then (w, some sink_failed) else (record w { frames = w.frames ++ f ∷ [] }, none)

unfoldable pub put_data : Wire → Bytes → Wire × Option WriteError
put_data w p =
    if ltb max_payload (length p)
    then (w, some (too_large (length p)))
    else put_frame w (data_frame p)

-- What the operator sees of a command.
pub data Shown : Type 0 where
  log_toggled help_shown : Shown
  break_sent : Option WriteError → Shown

-- What `handleKeys` reads and writes of a `session`.
pub record Session : Type 0 where
  pub escaping : Bool
  pub wire : Wire
  pub shown : List Shown

-- `escapeResult`
pub data EscapeResult : Type 0 where
  emit : Bytes → EscapeResult
  quit reconnect : EscapeResult

abbrev show : Session → Shown → Session
show s x = record s { shown = s.shown ++ x ∷ [] }

abbrev escape_break : Session → Session
escape_break s =
    let w = put_frame s.wire (ctrl_frame (blank_message break_)) in
    show (record s { wire = w.0 }) (break_sent w.1)

abbrev escape_status : Session → Session
escape_status s = record s { wire = (put_frame s.wire (ctrl_frame (blank_message status))).0 }

-- One of two bytes: a letter in either case.
abbrev pub either : ℕ → ℕ → ℕ → Bool
either a b c = c == a || c == b

-- `session.escape`
unfoldable pub escape : Session → ℕ → Session × EscapeResult
unfolding put_frame
escape s b =
    if either b'x' b'X' b || either b'q' b'Q' b
    then (s, quit)
    else if either b'a' b'A' b
    then (s, emit (escape_key ∷ []))
    else if either b'l' b'L' b
    then (show s log_toggled, emit [])
    else if either b'r' b'R' b
    then (s, reconnect)
    else if either b'b' b'B' b
    then (escape_break s, emit [])
    else if either b's' b'S' b
    then (escape_status s, emit [])
    else if either b'z' b'Z' b || either b'h' b'H' b || b == b'?'
    then (show s help_shown, emit [])
    else (s, emit (escape_key ∷ b ∷ []))

-- One byte in the loop of `handleKeys`.
unfoldable pub key : Session → ℕ → Session × EscapeResult
unfolding escape
key s b =
    if s.escaping
    then escape (record s { escaping = false }) b
    else if b == escape_key
    then (record s { escaping = true }, emit [])
    else (s, emit (b ∷ []))

-- How `handleKeys` ends.
pub data KeysEnd : Type 0 where
  going_on user_quit reconnecting : KeysEnd
  write_failed : WriteError → KeysEnd

abbrev pub ending : Option WriteError → KeysEnd
ending none = going_on
ending (some e) = write_failed e

unfoldable pub flush : Session → Bytes → Session × Option WriteError
unfolding put_data
flush s pending =
    if is_empty pending
    then (s, none)
    else (let w = put_data s.wire pending in (record s { wire = w.0 }, w.1))

abbrev pub flush_end : Session × Option WriteError → Session × KeysEnd
flush_end (s, e) = (s, ending e)

-- The loop of `handleKeys`, with what is pending.
unfoldable pub keys : Session → Bytes → Bytes → Session × KeysEnd
keys s pending [] = flush_end (flush s pending)
keys s pending (b ∷ p) =
    let (s', r) = key s b in
    elim r [
      | emit e ↦ keys s' (pending ++ e) p
      | quit ↦ ((flush s' pending).0, user_quit)
      | reconnect ↦ (s', reconnecting)
    ]

-- `session.handleKeys`
abbrev pub handle_keys : Session → Bytes → Session × KeysEnd
handle_keys s p = keys s [] p

-- `backoff *= 2` up to `maxBackoff`, in seconds.
unfoldable pub longer_backoff : ℕ → ℕ
longer_backoff b = if ltb b 15 then (if ltb 15 (b * 2) then 15 else b * 2) else b
