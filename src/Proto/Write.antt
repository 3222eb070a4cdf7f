-- ===== src/Proto/Write.antt =====
-- internal/proto/proto.go: `Writer`. The buffered writer flushes after every frame, so what it has
-- taken is what the connection was given.
use sercon.Prelude.{
  ℕ, Bool, List, [], ◌∷◌, ◌++◌, Option, none, some, Bytes, length, ltb, if◌then◌else◌,
}
use sercon.Proto.Frame.{Frame, type_data, max_payload, put_uint32}

-- The connection under a writer: the bytes it took, and whether it still takes any. A buffered
-- writer keeps its first error, so a broken connection stays broken.
pub record Sink : Type 0 where
  pub out : Bytes
  pub broken : Bool

pub data WriteError : Type 0 where
  too_large : ℕ → WriteError
  sink_failed : WriteError

-- The header and the payload of a frame.
abbrev pub frame_bytes : ℕ → Bytes → Bytes
frame_bytes t p = t ∷ (put_uint32 (length p) ++ p)

-- `Writer.Write`
unfoldable pub write : Sink → ℕ → Bytes → Sink × Option WriteError
write w t p =
    if ltb max_payload (length p)
    then (w, some (too_large (length p)))
    else if w.broken
    then (w, some sink_failed)
    else (record w { out = w.out ++ frame_bytes t p }, none)

-- `Writer.Data`
abbrev pub send_data : Sink → Bytes → Sink × Option WriteError
send_data w p = write w type_data p

-- One call of `Write` for each frame, whatever it answers.
unfoldable pub write_all : Sink → List Frame → Sink
write_all w [] = w
write_all w (f ∷ fs) = write_all (write w f.type f.payload).0 fs
