-- ===== src/Proto/Ends.antt =====
-- internal/proto/proto.go: the reader on any stream whatever.
use sercon.Prelude.{
  ℕ, zero, suc, ◌+◌, ◌≤◌, ◌<◌, ◌≡◌, refl, ◌⊎◌, inl, inr, some, List, [], ◌∷◌, arith, length, Bytes,
}
use sercon.Proto.Frame.{
  Frame, ReadError, Result, ok, err, read_full, then_byte, next_body, next_payload, next, read_all,
}

length-then_byte :
    (b : ℕ) (r : Result (Bytes × Bytes)) {p rest : Bytes}
    → then_byte b r ≡ ok (p, rest)
    → (q : Bytes) × (r ≡ ok (q, rest))
length-then_byte b (ok (q, t)) e = (q, ground arith)
length-then_byte b (err _) e = cc

length-read_full :
    (n : ℕ) (s : Bytes) {p rest : Bytes} → read_full n s ≡ ok (p, rest) → length rest + n ≡ length s
unfolding read_full
length-read_full zero s e = ground arith
length-read_full (suc n) [] e = cc
length-read_full (suc n) (b ∷ s) {p} {rest} e =
    let (q, e') = length-then_byte b (read_full n s) e in omega (arith, length-read_full n s e')

next_body-le :
    (t n : ℕ) (s : Bytes) {f : Frame} {rest : Bytes}
    → next_body t n s ≡ ok (f, rest)
    → length rest ≤ length s
unfolding next_body
next_body-le t n s {f} {rest} e = ground (arith, length-read_full n s {p = f.payload} {rest = rest})

next-lt : (s : Bytes) {f : Frame} {rest : Bytes} → next s ≡ ok (f, rest) → length rest < length s
unfolding next next_payload read_full
next-lt (t ∷ a ∷ b ∷ c ∷ d ∷ s) e = omega (arith, next_body-le _ _ s e)
next-lt _ e = cc

Result-cases :
    (r : Result (Frame × Bytes))
    → ((e : ReadError) × (r ≡ err e)) ⊎ ((f : Frame) × (rest : Bytes) × (r ≡ ok (f, rest)))
Result-cases (err e) = inl (e, refl)
Result-cases (ok (f, rest)) = inr (f, rest, refl)

read_all_ends :
    (fuel : ℕ) (s : Bytes)
    → length s < fuel
    → (r : List Frame × ReadError) × (read_all fuel s ≡ some r)
unfolding read_all
read_all_ends zero s h = elim h [ ]
read_all_ends (suc fuel) s h = elim (Result-cases (next s)) [
  | inl (e, failed) ↦ (([], e), rw (failed, read_all))
  | inr (f, rest, came) ↦
      let (r, more) = read_all_ends fuel rest (omega (arith, next-lt s came)) in
      ((f ∷ r.0, r.1), rw (came, read_all) (rw more))
]

-- On any stream of bytes the reading of frames ends, within one round more than the stream has bytes:
-- with the frames that came and the error that ended it.
pub read_all_total :
    (s : Bytes) → (r : List Frame × ReadError) × (read_all (suc (length s)) s ≡ some r)
read_all_total s = read_all_ends (suc (length s)) s (omega arith)
