-- ===== src/Proto/RoundTrip.antt =====
-- internal/proto/proto.go: `Reader.Next` on what `Writer.Write` wrote.
use sercon.Prelude.{
  ℕ, zero, suc, ◌/◌, ◌%◌, ◌≤◌, ◌<◌, ◌≡◌, refl, ◌⊎◌, [], ◌∷◌, ◌++◌, arith, Bytes, length, All,
}
use sercon.Proto.Frame.{
  Frame, Result, ok, err, type_data, type_ctrl, max_payload, uint32, put_uint32, then_byte,
  read_full, next_payload, next_body, next,
}
use sercon.Proto.Write.{frame_bytes}

-- A frame that `Reader.Next` accepts: a known type, and a payload within the limit.
abbrev pub IsFrame : Frame → Type 0
IsFrame f = ((f.type ≡ type_data) ⊎ (f.type ≡ type_ctrl)) × (length f.payload ≤ max_payload)

abbrev pub IsByte : ℕ → Type 0
IsByte b = b < 256

read_full-append : (p rest : Bytes) → read_full (length p) (p ++ rest) ≡ ok (p, rest)
unfolding read_full
read_full-append [] rest = refl
read_full-append (b ∷ p) rest = ground (arith, read_full-append p rest)

then_byte-ok :
    (b : ℕ) (r : Result (Bytes × Bytes)) {p rest : Bytes}
    → then_byte b r ≡ ok (p, rest)
    → (q : Bytes) × (r ≡ ok (q, rest)) × (p ≡ b ∷ q)
then_byte-ok b (ok (q, t)) e = (q, ground arith, ground arith)
then_byte-ok b (err _) e = cc

read_full-ok :
    (n : ℕ) (s : Bytes) {p rest : Bytes}
    → read_full n s ≡ ok (p, rest)
    → (s ≡ p ++ rest) × (length p ≡ n)
unfolding read_full
read_full-ok zero s e = (ground arith, ground arith)
read_full-ok (suc n) [] e = cc
read_full-ok (suc n) (b ∷ s) {p} {rest} e =
    let (q, e', c) = then_byte-ok b (read_full n s) e in ground (arith, read_full-ok n s e')

pub uint32-put :
    (n : ℕ)
    → n ≤ max_payload
    → uint32 (n / 16777216 % 256) (n / 65536 % 256) (n / 256 % 256) (n % 256) ≡ n
uint32-put n h = omega arith

put-uint32 :
    (n a b c d : ℕ)
    → n ≡ uint32 a b c d
    → a < 256
    → b < 256
    → c < 256
    → d < 256
    → put_uint32 n ≡ a ∷ b ∷ c ∷ d ∷ []
put-uint32 n a b c d e ha hb hc hd = ground arith

-- A frame of a known type and with a payload within the limit is read back from the writer's bytes as
-- it was, and what follows it is left in the stream.
pub next-write :
    (f : Frame) (rest : Bytes)
    → IsFrame f
    → next (frame_bytes f.type f.payload ++ rest) ≡ ok (f, rest)
unfolding next next_payload next_body read_full
next-write f rest h =
    rw (uint32-put (length f.payload) h.1) (ground (arith, read_full-append f.payload rest))

next_body-ok :
    (t n : ℕ) (s : Bytes) {f : Frame} {rest : Bytes}
    → next_body t n s ≡ ok (f, rest)
    → IsFrame f × (f.type ≡ t) × (length f.payload ≡ n) × (s ≡ f.payload ++ rest)
unfolding next_body
next_body-ok t n s {f} {rest} e = ground (arith, read_full-ok n s {p = f.payload} {rest = rest})

-- Whatever stream of bytes the reader gets a frame from, the frame is one that may be sent, and the
-- stream began with exactly the bytes that the writer makes of it.
pub next-inv :
    (s : Bytes) {f : Frame} {rest : Bytes}
    → All IsByte s
    → next s ≡ ok (f, rest)
    → IsFrame f × (s ≡ frame_bytes f.type f.payload ++ rest)
unfolding next next_payload read_full
next-inv (t ∷ a ∷ b ∷ c ∷ d ∷ s) {f} {rest} h e =
    let v = next_body-ok t (uint32 a b c d) s e in
    let bytes =
      put-uint32 (length f.payload) a b c d v.2 (omega arith) (omega arith) (omega arith)
        (omega arith) in
    (v.0, cc (bytes, v.1, v.3))
next-inv _ h e = cc
