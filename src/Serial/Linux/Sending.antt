-- ===== src/Serial/Linux/Sending.antt =====
-- internal/serialport/serialport_linux.go: what `Write` sends.
use sercon.Prelude.{
  ℕ, zero, suc, ◌+◌, ◌-◌, ◌≤◌, ◌≡◌, refl, sym, ap, ◌∙◌, subst, false, Option, none, some, List, [],
  ◌∷◌, ◌++◌, append_assoc, arith, ◌==◌, if-intro, if-false, length, take, drop, take-split, All,
  length-append, length-drop, Bytes,
}
use sercon.Serial.Linux.{
  gave, errno, PortError, Sent, sent, Try, tried, stop, took, write_loop, eintr, eagain, Port,
  is_closed, write,
}

-- The kernel takes no more than it is given.
abbrev pub Fits : ℕ → List Try → Type 0
Fits zero ts = Unit
Fits (suc r) [] = Unit
Fits (suc r) (tried (gave zero) late ∷ ts) = Fits (suc r) ts
Fits (suc r) (tried (gave (suc n)) late ∷ ts) = (n ≤ r) × Fits (r - n) ts
Fits (suc r) (tried (errno e) late ∷ ts) = Fits (suc r) ts

-- The kernel took `s`, the count is right, and without an error that is all.
pub record IsSent (total : ℕ) (b s : Bytes) (r : Sent) : Type 0 where
  pub rest : Bytes
  pub error : Option PortError
  pub counted : r ≡ sent (total + length s) error
  pub parts : b ≡ s ++ rest
  pub complete : error ≡ none → rest ≡ []

abbrev pub Reports : ℕ → Bytes → Option (Bytes × Sent) → Type 0
Reports total b none = Unit
Reports total b (some (s, r)) = IsSent total b s r

stop-Reports : (total : ℕ) (b : Bytes) (e : PortError) → Reports total b (stop total e)
stop-Reports total b e = record {
  rest = b;
  error = some e;
  counted = ap (λ n. sent n (some e)) (omega arith);
  parts = refl;
  complete = λ h. cc h;
}

length-take : (n : ℕ) (b : Bytes) → n ≤ length b → length (take n b) ≡ n
length-take zero b h = omega arith
length-take (suc n) [] h = elim h [ ]
length-take (suc n) (c ∷ b) h = omega (arith, length-take n b (omega arith))

took-Reports :
    (total n : ℕ) (b : Bytes) (o : Option (Bytes × Sent))
    → n ≤ length b
    → Reports (total + n) (drop n b) o
    → Reports total b (took (take n b) o)
unfolding took
took-Reports total n b none h g = tt
took-Reports total n b (some (s, r)) h g = record {
  rest = g.rest;
  error = g.error;
  counted =
      g.counted
      ∙ ap (λ i. sent i g.error) (omega (arith, length-append (take n b) s, length-take n b h));
  parts =
      sym (take-split n b)
      ∙ ap (λ x. take n b ++ x) g.parts
      ∙ sym (append_assoc (take n b) s g.rest);
  complete = g.complete;
}

-- Whatever the kernel answers, the bytes that it takes in a write are a prefix of those to send, the count that
-- comes back is their number, and no error means that they are all of them.
pub write_loop-Reports :
    (all total : ℕ) (b : Bytes) (ts : List Try)
    → Fits (length b) ts
    → Reports total b (write_loop all total b ts)
unfolding write_loop
write_loop-Reports all total [] ts h = record {
  rest = [];
  error = none;
  counted = ap (λ n. sent n none) (omega arith);
  parts = refl;
  complete = λ _. refl;
}
write_loop-Reports all total (c ∷ b) [] h = tt
write_loop-Reports all total (c ∷ b) (tried (gave zero) late ∷ ts) h =
    if-intro (Reports total (c ∷ b)) late _ _ (λ _. stop-Reports total (c ∷ b) _)
      (λ _. write_loop-Reports all total (c ∷ b) ts h)
write_loop-Reports all total (c ∷ b) (tried (gave (suc n)) late ∷ ts) h =
    took-Reports total (suc n) (c ∷ b) _ (omega (arith, h.0)) (
      write_loop-Reports all (total + suc n) (drop n b) ts (
        subst (λ r. Fits r ts)
          (let e : length b - n ≡ length (drop n b) = omega (arith, length-drop n b) in e) h.1))
write_loop-Reports all total (c ∷ b) (tried (errno e) late ∷ ts) h =
    let P = Reports total (c ∷ b) in
    if-intro P (e == eintr) _ _ (λ _. write_loop-Reports all total (c ∷ b) ts h)
      (λ _.
        if-intro P (e == eagain) _ _
          (λ _.
            if-intro P late _ _ (λ _. stop-Reports total (c ∷ b) _)
              (λ _. write_loop-Reports all total (c ∷ b) ts h))
          (λ _. stop-Reports total (c ∷ b) _))

-- Each call takes something.
abbrev pub IsTaking : Try → Type 0
IsTaking (tried (gave (suc n)) late) = Unit
IsTaking _ = ⊥

-- On an open port whose kernel takes at least a byte each time, a write ends within as many calls as there are
-- bytes: the kernel gets all of them, in order, and the count is their number.
pub write-sent :
    (p : Port) (b : Bytes) (ts : List Try)
    → is_closed p ≡ false
    → Fits (length b) ts
    → All IsTaking ts
    → length b ≤ length ts
    → write p b ts ≡ some (b, sent (length b) none)
unfolding write write_loop took
write-sent p b ts is_open fit h n =
    if-false _ _ _ is_open
    ∙ go (length b) 0 b ts fit h n
    ∙ ap (λ i. some (b, sent i none)) (omega arith)
  where
    whole :
        (k c : ℕ) (b : Bytes) (total : ℕ)
        → suc k ≤ suc (length b)
        → took
            (take (suc k) (c ∷ b))
            (some (drop k b, sent (total + suc k + length (drop k b)) none))
          ≡ some (c ∷ b, sent (total + length (c ∷ b)) none)
    whole k c b total le =
        ap (λ i. some (take (suc k) (c ∷ b) ++ drop k b, sent i none))
          (omega (arith, length-drop k b))
        ∙ ap (λ x. some (x, sent (total + length (c ∷ b)) none)) (take-split (suc k) (c ∷ b))

    go :
        (all total : ℕ) (b : Bytes) (ts : List Try)
        → Fits (length b) ts
        → All IsTaking ts
        → length b ≤ length ts
        → write_loop all total b ts ≡ some (b, sent (total + length b) none)
    go all total [] ts fit h n = ap (λ i. some ([], sent i none)) (omega arith)
    go all total (c ∷ b) [] fit h n = elim n [ ]
    go all total (c ∷ b) (tried (gave zero) late ∷ ts) fit h n = absurd h.0
    go all total (c ∷ b) (tried (errno e) late ∷ ts) fit h n = absurd h.0
    go all total (c ∷ b) (tried (gave (suc k)) late ∷ ts) fit h n =
        ap (took (take (suc k) (c ∷ b))) (
          go all (total + suc k) (drop k b) ts
            (subst (λ r. Fits r ts)
              (let e : length b - k ≡ length (drop k b) = omega (arith, length-drop k b) in e)
              fit.1)
            h.1 (omega (arith, length-drop k b)))
        ∙ whole k c b total (omega (arith, fit.0))
