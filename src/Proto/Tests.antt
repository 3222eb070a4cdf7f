-- ===== src/Proto/Tests.antt =====
-- internal/proto/proto.go: frames and streams to run the reader and the writer on.
use sercon.Prelude.{◌≡◌, refl, inl, inr, false, some, [], ◌∷◌, ◌++◌, arith, codes, Bytes}
use sercon.Proto.Frame.{
  Frame, eof, type_data, type_ctrl, read_full, next_body, next_payload, next, read_all,
}
use sercon.Proto.Write.{Sink, frame_bytes, write_all}
use sercon.Proto.RoundTrip.{IsFrame, next-inv}
use sercon.Proto.Stream.{sendable, read_all-write_all}

abbrev typed : Frame
typed = record { type = type_data; payload = codes "root" }

abbrev hello_frame : Frame
hello_frame = record { type = type_ctrl; payload = codes "hello" }

abbrev wire : Sink
wire = record { out = []; broken = false }

next-inv_example :
    IsFrame typed
    × (frame_bytes 1 (codes "root") ++ codes "tail"
        ≡ frame_bytes typed.type typed.payload ++ codes "tail")
unfolding next next_payload next_body read_full
next-inv_example = next-inv (frame_bytes 1 (codes "root") ++ codes "tail") (omega arith) refl

read_all-write_all_example :
    read_all 3 (write_all wire (typed ∷ hello_frame ∷ [])).out
    ≡ some (sendable (typed ∷ hello_frame ∷ []), eof)
read_all-write_all_example =
    read_all-write_all wire (typed ∷ hello_frame ∷ []) refl refl (inl refl, (inr refl, tt))

abbrev noise : Bytes
noise = 1 ∷ 0 ∷ 0 ∷ 0 ∷ 2 ∷ codes "hi login"
