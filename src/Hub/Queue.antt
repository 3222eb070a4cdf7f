-- ===== src/Hub/Queue.antt =====
-- internal/hub/conn.go: how frames reach a client. `enqueue`, `send`, `reply`, `notice`, `kill` and
-- one round of `writeLoop`.
use sercon.Prelude.{
  ℕ, true, false, Option, none, some, List, [], ◌∷◌, ◌++◌, ltb, if◌then◌else◌, length,
}
use sercon.Hub.Types.{
  Conn, OutMsg, ctrl_frame, Message, Text, blank_message, notice, OpError, closed_pipe,
}

abbrev pub out_queue_depth : ℕ
out_queue_depth = 512

-- `Conn.kill`: closes `done` and the connection.
abbrev pub kill : Conn → Conn
kill c = record c { done = true; wire_ok = false }

abbrev pub push : Conn → OutMsg → Conn
push c m = record c { out = c.out ++ m ∷ [] }

-- `Conn.enqueue`
unfoldable pub enqueue : Conn → OutMsg → Conn
enqueue c m = if c.done then c else if ltb (length c.out) out_queue_depth then push c m else kill c

-- One round of `writeLoop`: the oldest frame goes out, or the write fails and kills the connection.
-- When `done` is closed the loop may end instead; it then stops for good.
abbrev pub write_oldest : Conn → List OutMsg → Conn
write_oldest c [] = c
write_oldest c (m ∷ rest) =
    if c.wire_ok
    then record c { out = rest; sent = c.sent ++ m ∷ [] }
    else kill (record c { out = rest })

unfoldable pub write_step : Conn → Conn
write_step c = if c.done then c else write_oldest c c.out

-- `Conn.send`. A full queue makes it wait for a round of the write loop, which makes room or kills
-- the connection. Where the queue has room and `done` is closed, Go may take either branch; this
-- takes `done`.
unfoldable pub send : Conn → Message → Conn × Option OpError
unfolding write_step
send c m =
    let c' = if ltb (length c.out) out_queue_depth then c else write_step c in
    if c'.done then (c', some closed_pipe) else (push c' (ctrl_frame m), none)

-- `Conn.reply`
abbrev pub reply : Conn → Message → Conn
reply c m = (send c m).0

-- `Conn.notice`: a full queue loses the notice, and `done` is not looked at.
unfoldable pub notify : Conn → Text → Conn
notify c text =
    if ltb (length c.out) out_queue_depth
    then push c (ctrl_frame (record (blank_message notice) { text = text }))
    else c
