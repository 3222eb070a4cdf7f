-- ===== src/Hub/Ring.antt =====
-- internal/hub/hub.go: `ring`, the window over the most recent console output.
use sercon.Prelude.{
  ℕ, ◌+◌, ◌-◌, ◌≤◌, ◌<◌, ◌≡◌, inl, inr, sym, ap, ◌∙◌, List, [], ◌∷◌, ◌++◌, append_assoc, append-nil,
  arith, ltb, leb, if◌then◌else◌, Bool-cases, Bytes, length, drop, length-append, length-drop,
  drop-drop, drop-nil, drop-append_le, drop-append_length,
}

pub record Ring : Type 0 where
  pub buf : Bytes
  pub size : ℕ

abbrev pub new_ring : ℕ → Ring
new_ring size = record { buf = []; size = size }

-- `ring.Write`: `copy` moves the kept end of the buffer to its front.
unfoldable pub ring_write : Ring → Bytes → Ring
ring_write r p =
    if leb r.size (length p)
    then record r { buf = drop (length p - r.size) p }
    else (let n = length r.buf + length p in
        if ltb r.size n
        then record r { buf = drop (n - r.size) r.buf ++ p }
        else record r { buf = r.buf ++ p })

-- `ring.Bytes`
abbrev pub ring_bytes : Ring → Bytes
ring_bytes r = r.buf

-- The last `n` bytes.
abbrev pub last : ℕ → Bytes → Bytes
last n s = drop (length s - n) s

unfoldable pub write_chunks : Ring → List Bytes → Ring
write_chunks r [] = r
write_chunks r (p ∷ ps) = write_chunks (ring_write r p) ps

abbrev pub concat : List Bytes → Bytes
concat [] = []
concat (p ∷ ps) = p ++ concat ps

last-long : (n : ℕ) (s p : Bytes) → n ≤ length p → last n (s ++ p) ≡ last n p
last-long n s p h =
    sym (
      drop-drop (length p - n) (length s) (length (s ++ p) - n) (s ++ p)
        (omega (arith, length-append s p)))
    ∙ ap (drop (length p - n)) (drop-append_length s p)

last-short :
    (n : ℕ) (s p : Bytes) → length p ≤ n → last n (s ++ p) ≡ drop (length s + length p - n) s ++ p
last-short n s p h =
    ap (λ k. drop k (s ++ p)) (omega (arith, length-append s p))
    ∙ drop-append_le (length s + length p - n) s p (omega arith)

pub size-ring_write : (r : Ring) (p : Bytes) → (ring_write r p).size ≡ r.size
unfolding ring_write
size-ring_write r p = ground arith

-- Three ways to write, one for each branch.
ring_write_whole : (r : Ring) (p : Bytes) → r.size ≤ length p → (ring_write r p).buf ≡ last r.size p
unfolding ring_write
ring_write_whole r p h = ground arith

ring_write_slide :
    (r : Ring) (p : Bytes)
    → length p < r.size
    → (ring_write r p).buf ≡ drop (length r.buf + length p - r.size) r.buf ++ p
unfolding ring_write
ring_write_slide r p h = elim (Bool-cases (ltb r.size (length r.buf + length p))) [
  | inl full ↦ ground arith
  | inr room ↦
      let none_dropped : length r.buf + length p - r.size ≡ 0 = ground arith in
      rw none_dropped (ground arith)
]

-- One write keeps the window: if the buffer is the end of `s`, it is the end of `s ++ p` after.
ring_write-last :
    (r : Ring) (s p : Bytes) → r.buf ≡ last r.size s → (ring_write r p).buf ≡ last r.size (s ++ p)
ring_write-last r s p e = elim (Bool-cases (leb r.size (length p))) [
  | inl whole ↦ ring_write_whole r p (ground arith) ∙ sym (last-long r.size s p (ground arith))
  | inr slide ↦
      ring_write_slide r p (ground arith)
      ∙ ap (λ b. drop (length b + length p - r.size) b ++ p) e
      ∙ ap (λ b. b ++ p)
          (drop-drop _ (length s - r.size) (length s + length p - r.size) s (
            omega (
              arith,
              length-drop (length s - r.size) s,
              (let h : length p < r.size = ground arith in h),
            )))
      ∙ sym (last-short r.size s p (ground arith))
]

write_chunks-last :
    (r : Ring) (s : Bytes) (ps : List Bytes)
    → r.buf ≡ last r.size s
    → (write_chunks r ps).buf ≡ last r.size (s ++ concat ps)
unfolding write_chunks
write_chunks-last r s [] e = rw append-nil e
write_chunks-last r s (p ∷ ps) e =
    write_chunks-last (ring_write r p) (s ++ p) ps
      (rw (size-ring_write r p) (ring_write-last r s p e))
    ∙ rw (size-ring_write r p, append_assoc)

-- After any writes to a new ring, its bytes are the last `size` bytes of all that was written.
pub write_chunks-window :
    (size : ℕ) (ps : List Bytes)
    → ring_bytes (write_chunks (new_ring size) ps) ≡ last size (concat ps)
write_chunks-window size ps = write_chunks-last (new_ring size) [] ps (sym (drop-nil (0 - size)))

-- A ring within its size is within it after a write.
pub length-ring_write :
    (r : Ring) (p : Bytes) → length r.buf ≤ r.size → length (ring_write r p).buf ≤ r.size
length-ring_write r p h = elim (Bool-cases (leb r.size (length p))) [
  | inl whole ↦
      rw (ring_write_whole r p (ground arith)) (omega (arith, length-drop (length p - r.size) p))
  | inr slide ↦
      rw (ring_write_slide r p (ground arith))
        (rw length-append (ground (arith, length-drop (length r.buf + length p - r.size) r.buf)))
]
