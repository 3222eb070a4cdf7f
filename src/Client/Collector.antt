-- ===== src/Client/Collector.antt =====
-- cmd/sercon/run.go: `collector`, the console output that a script's steps wait in. What it echoes and the
-- signal that wakes a wait are not kept; the match of a regular expression is a parameter.
use sercon.Prelude.{
  ℕ, ◌+◌, ◌-◌, ◌≤◌, ◌<◌, ◌≡◌, sym, ap, ◌∙◌, inl, inr, Option, none, some, [], ◌++◌, arith, ltb, leb,
  if◌then◌else◌, Bool-cases, maybe, if-intro, length, take, drop, length-append, length-drop,
  drop-drop, drop-append_le, Bytes,
}

abbrev pub max_collect : ℕ
max_collect = 4194304

pub record Collector : Type 0 where
  pub buf : Bytes
  pub consumed : ℕ

-- `newCollector`
abbrev pub new_collector : Collector
new_collector = record { buf = []; consumed = 0 }

-- The drop in `feed`; `consumed` falls by it, and to 0 at least.
abbrev pub trim : ℕ → Collector → Collector
trim n c = record { buf = drop n c.buf; consumed = c.consumed - n }

-- `collector.feed`, with the limit on the buffer.
unfoldable pub feed : ℕ → Collector → Bytes → Collector
feed max c p =
    let c' = record c { buf = c.buf ++ p } in
    if ltb max (length c'.buf) then trim (length c'.buf - max) c' else c'

unfoldable pub window : Collector → Bytes
window c = drop c.consumed c.buf

-- One round of `collector.wait`: `find` gives the end of the first match in the window.
unfoldable pub wait_round : (Bytes → Option ℕ) → Collector → Collector × Option Bytes
unfolding window maybe
wait_round find c =
    maybe (c, none) (λ n. (record c { consumed = c.consumed + n }, some (take n (window c))))
      (find (window c))

-- What is consumed lies in the buffer.
abbrev pub IsInBuffer : Collector → Type 0
IsInBuffer c = c.consumed ≤ length c.buf

drop_more :
    (buf p : Bytes) (k n : ℕ)
    → k ≤ length buf
    → drop (k - n) (drop n (buf ++ p)) ≡ drop (n - k) (drop k buf ++ p)
drop_more buf p k n h = elim (Bool-cases (leb n k)) [
  | inl less ↦
      let le : n ≤ k = ground arith in
      drop-drop (k - n) n k (buf ++ p) (omega arith)
      ∙ drop-append_le k buf p h
      ∙ ap (λ j. drop j (drop k buf ++ p)) (let z : 0 ≡ n - k = omega arith in z)
  | inr more ↦
      let lt : k < n = ground arith in
      ap (λ j. drop j (drop n (buf ++ p))) (let z : k - n ≡ 0 = omega arith in z)
      ∙ sym (drop-drop (n - k) k n (buf ++ p) (omega arith))
      ∙ ap (drop (n - k)) (drop-append_le k buf p h)
]

-- What `feed` makes of a collector.
pub record IsFed (max : ℕ) (c : Collector) (p : Bytes) (c' : Collector) : Type 0 where
  pub seen : window c' ≡ drop (length c.buf + length p - max - c.consumed) (window c ++ p)
  pub inside : IsInBuffer c'

-- Feeding output to a collector that has consumed no more than its buffer keeps all that no wait has
-- consumed: the window becomes the old window followed by the new output, less those first bytes that
-- exceed the limit, and what is consumed stays within the buffer.
pub feed-IsFed : (max : ℕ) (c : Collector) (p : Bytes) → IsInBuffer c → IsFed max c p (feed max c p)
unfolding feed window
feed-IsFed max c p h =
    if-intro (IsFed max c p) (ltb max (length (c.buf ++ p))) _ _
      (λ over. record {
        seen =
            drop_more c.buf p c.consumed (length (c.buf ++ p) - max) h
            ∙ ap (λ n. drop n (drop c.consumed c.buf ++ p))
                (ap (λ n. n - max - c.consumed) (length-append c.buf p));
        inside =
            omega
              (arith, length-append c.buf p, length-drop (length (c.buf ++ p) - max) (c.buf ++ p));
      })
      (λ fits.
        let small : length c.buf + length p ≤ max = ground (arith, length-append c.buf p) in
        record {
          seen =
              drop-append_le c.consumed c.buf p h
              ∙ ap (λ n. drop n (drop c.consumed c.buf ++ p))
                  (let z : 0 ≡ length c.buf + length p - max - c.consumed = omega arith in z);
          inside = omega (arith, length-append c.buf p);
        })
