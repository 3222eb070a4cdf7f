-- ===== src/Proto/Stream.antt =====
-- internal/proto/proto.go: a whole conversation, and streams that break off inside a frame.
use sercon.Prelude.{
  ℕ, zero, suc, ◌+◌, ◌≤◌, ◌<◌, ◌≡◌, refl, sym, ◌∙◌, ◌⊎◌, inl, inr, false, ◌||◌, some, List, [], ◌∷◌,
  ◌++◌, append-nil, append_assoc, arith, leb, ◌==◌, if◌then◌else◌, Bool-cases, length, take, All,
  Bytes,
}
use sercon.Proto.Frame.{
  Frame, ReadError, eof, unexpected_eof, err, type_data, type_ctrl, max_payload, read_full,
  next_payload, next_body, next, read_all,
}
use sercon.Proto.Write.{Sink, frame_bytes, write, write_all}
use sercon.Proto.RoundTrip.{IsFrame, uint32-put, next-write}

abbrev HasType : Frame → Type 0
HasType f = (f.type ≡ type_data) ⊎ (f.type ≡ type_ctrl)

-- The frames whose payload is within the limit.
abbrev pub sendable : List Frame → List Frame
sendable [] = []
sendable (f ∷ fs) = if leb (length f.payload) max_payload then f ∷ sendable fs else sendable fs

-- What those frames are on the wire.
abbrev stream : List Frame → Bytes
stream [] = []
stream (f ∷ fs) = frame_bytes f.type f.payload ++ stream fs

write-broken : (w : Sink) (t : ℕ) (p : Bytes) → (write w t p).0.broken ≡ w.broken
unfolding write
write-broken w t p = ground arith

write-out :
    (w : Sink) (t : ℕ) (p : Bytes)
    → w.broken ≡ false
    → (write w t p).0.out ≡ (if leb (length p) max_payload then w.out ++ frame_bytes t p else w.out)
unfolding write
write-out w t p b = ground arith

write_all-stream :
    (w : Sink) (fs : List Frame)
    → w.broken ≡ false
    → (write_all w fs).out ≡ w.out ++ stream (sendable fs)
unfolding write_all
write_all-stream w [] b = sym (append-nil w.out)
write_all-stream w (f ∷ fs) b =
    let w' = (write w f.type f.payload).0 in
    let ih = write_all-stream w' fs (write-broken w f.type f.payload ∙ b) in
    elim (Bool-cases (leb (length f.payload) max_payload)) [
      | inl fits ↦ ground (
        arith,
        ih,
        write-out w f.type f.payload b,
        append_assoc w.out (frame_bytes f.type f.payload) (stream (sendable fs)),
      )
      | inr over ↦ ground (arith, ih, write-out w f.type f.payload b)
    ]

sendable-IsFrame : (fs : List Frame) → All HasType fs → All IsFrame (sendable fs)
sendable-IsFrame [] h = tt
sendable-IsFrame (f ∷ fs) h = ground (arith, sendable-IsFrame fs h.1)

length-sendable : (fs : List Frame) → length (sendable fs) ≤ length fs
length-sendable [] = omega arith
length-sendable (f ∷ fs) = ground (arith, length-sendable fs)

next-nil : next [] ≡ err eof
unfolding next read_full
next-nil = refl

read_all-stream :
    (fs : List Frame) (fuel : ℕ)
    → All IsFrame fs
    → length fs < fuel
    → read_all fuel (stream fs) ≡ some (fs, eof)
unfolding read_all
read_all-stream fs zero h lt = elim lt [ ]
read_all-stream [] (suc fuel) h lt = rw (next-nil, read_all)
read_all-stream (f ∷ fs) (suc fuel) h lt =
    rw (next-write f (stream fs) h.0, read_all) (rw (read_all-stream fs fuel h.1 (omega arith)))

-- Frames of known types are written one by one to a sound, empty connection, and the reader then gets
-- those within the size limit, in order, and after them a clean end of stream.
pub read_all-write_all :
    (w : Sink) (fs : List Frame)
    → w.out ≡ []
    → w.broken ≡ false
    → All HasType fs
    → read_all (suc (length fs)) (write_all w fs).out ≡ some (sendable fs, eof)
read_all-write_all w fs o b h =
    rw (write_all-stream w fs b, o)
      (read_all-stream (sendable fs) (suc (length fs)) (sendable-IsFrame fs h)
        (omega (arith, length-sendable fs)))

read_full-take :
    (n k : ℕ) (p : Bytes)
    → k < n
    → k ≤ length p
    → read_full n (take k p) ≡ err (if k == 0 then eof else unexpected_eof)
unfolding read_full
read_full-take zero k p lt le = elim lt [ ]
read_full-take (suc n) zero p lt le = refl
read_full-take (suc n) (suc k) [] lt le = elim le [ ]
read_full-take (suc n) (suc k) (b ∷ p) lt le =
    rw (read_full-take n k p (omega arith) (omega arith)) (ground arith)

-- The error of a stream that ends after `k` of a frame's bytes.
abbrev pub cut_error : ℕ → ReadError
cut_error k = if k == 0 || k == 5 then eof else unexpected_eof

next_body-cut :
    (f : Frame) (n k : ℕ)
    → IsFrame f
    → n ≡ length f.payload
    → k < n
    → next_body f.type n (take k f.payload) ≡ err (if k == 0 then eof else unexpected_eof)
unfolding next_body
next_body-cut f n k h e lt = ground (arith, read_full-take n k f.payload lt (omega arith))

-- A stream that ends inside a frame is an error for the reader: the clean end of a stream when no byte
-- of the frame came or just its header did, an unexpected end otherwise.
pub next-cut :
    (f : Frame) (k : ℕ)
    → IsFrame f
    → k < 5 + length f.payload
    → next (take k (frame_bytes f.type f.payload)) ≡ err (cut_error k)
unfolding next next_payload read_full
next-cut f zero h lt = refl
next-cut f (suc zero) h lt = refl
next-cut f (suc (suc zero)) h lt = refl
next-cut f (suc (suc (suc zero))) h lt = refl
next-cut f (suc (suc (suc (suc zero)))) h lt = refl
next-cut f (suc (suc (suc (suc (suc k))))) h lt =
    next_body-cut f _ k h (uint32-put (length f.payload) h.1)
      (omega (arith, uint32-put (length f.payload) h.1))
    ∙ ground arith
