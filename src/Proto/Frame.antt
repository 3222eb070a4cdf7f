-- ===== src/Proto/Frame.antt =====
-- internal/proto/proto.go: the frame types, the header and `Reader.Next`.
use mathlib.Core.Option
use mathlib.Core.Option.{Option, none, some}
use sercon.Prelude.{
  ℕ, zero, suc, ◌+◌, ◌*◌, ◌/◌, ◌%◌, ◌||◌, not, List, [], ◌∷◌, Bytes, ltb, ◌==◌, if◌then◌else◌,
}

abbrev pub type_data : ℕ
type_data = 0x01

abbrev pub type_ctrl : ℕ
type_ctrl = 0x02

abbrev pub version : ℕ
version = 1

abbrev pub max_payload : ℕ
max_payload = 1048576

pub record Frame : Type 0 where
  pub type : ℕ
  pub payload : Bytes

-- `io.EOF`, `io.ErrUnexpectedEOF`, `ErrBadType` and `ErrFrameTooLarge`, with what they report.
pub data ReadError : Type 0 where
  eof unexpected_eof : ReadError
  bad_type frame_too_large : ℕ → ReadError

pub data Result {ℓ} (A : Type ℓ) : Type ℓ where
  ok : A → Result A
  err : ReadError → Result A

infixl 5 ◌>>=◌
abbrev pub ◌>>=◌ {ℓ κ} : {A : Type ℓ} {B : Type κ} → Result A → (A → Result B) → Result B
ok a >>= f = f a
err e >>= f = err e

-- A byte was read, then the rest of the buffer was filled or not.
abbrev pub then_byte : ℕ → Result (Bytes × Bytes) → Result (Bytes × Bytes)
then_byte b (ok (p, rest)) = ok (b ∷ p, rest)
then_byte b (err e) = err unexpected_eof

-- `io.ReadFull` into a buffer of `n` bytes: the bytes, and what is left of the stream.
unfoldable pub read_full : ℕ → Bytes → Result (Bytes × Bytes)
read_full zero s = ok ([], s)
read_full (suc n) [] = err eof
read_full (suc n) (b ∷ s) = then_byte b (read_full n s)

-- `binary.BigEndian.PutUint32`, which keeps the low 32 bits.
abbrev pub put_uint32 : ℕ → Bytes
put_uint32 n = n / 16777216 % 256 ∷ n / 65536 % 256 ∷ n / 256 % 256 ∷ n % 256 ∷ []

-- `binary.BigEndian.Uint32`
abbrev pub uint32 : ℕ → ℕ → ℕ → ℕ → ℕ
uint32 a b c d = a * 16777216 + b * 65536 + c * 256 + d

-- `Reader.Next` behind the header, with the type and the length that it holds.
unfoldable pub next_body : ℕ → ℕ → Bytes → Result (Frame × Bytes)
next_body t n s =
    if not (t == type_data || t == type_ctrl)
    then err (bad_type t)
    else if ltb max_payload n
    then err (frame_too_large n)
    else (read_full n s >>= λ (p, rest). ok (record { type = t; payload = p }, rest))

-- The type and the length in the five header bytes. A buffer of another length does not come from
-- `read_full 5`.
unfoldable pub next_payload : Bytes → Bytes → Result (Frame × Bytes)
next_payload (t ∷ a ∷ b ∷ c ∷ d ∷ []) s = next_body t (uint32 a b c d) s
next_payload _ s = err unexpected_eof

-- `Reader.Next`: one frame, and what is left of the stream.
unfoldable pub next : Bytes → Result (Frame × Bytes)
next s = read_full 5 s >>= λ (hdr, rest). next_payload hdr rest

-- `Reader.Next` until it fails: the frames, the error and what was not read. Each frame takes five
-- bytes at least, so `suc (length s)` rounds reach the failure; `none` would be a lack of fuel.
unfoldable pub read_all : ℕ → Bytes → Option (List Frame × ReadError)
read_all zero s = none
read_all (suc fuel) s = elim (next s) [
  | err e ↦ some ([], e)
  | ok (f, rest) ↦ Option.map (λ (fs, e). (f ∷ fs, e)) (read_all fuel rest)
]
