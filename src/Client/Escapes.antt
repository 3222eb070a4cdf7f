-- ===== src/Client/Escapes.antt =====
-- cmd/sercon/run.go: `unescape`, the backslash escapes of a script's text. The loop's position inside an
-- escape is a `Cursor`.
use sercon.Prelude.{
  ℕ, ◌+◌, ◌-◌, ◌*◌, ◌/◌, ◌%◌, ◌<◌, ◌≡◌, refl, ap, ◌∙◌, false, ◌&&◌, Option, none, some, [], ◌∷◌,
  ◌++◌, arith, ltb, leb, ◌==◌, if◌then◌else◌, if-intro, if-false, All, Bytes,
}

pub data Cursor : Type 0 where
  in_text behind_backslash behind_x : Cursor
  behind_digit : ℕ → Cursor

pub data EscapeError : Type 0 where
  trailing_backslash truncated_hex : EscapeError
  bad_hex : ℕ → ℕ → EscapeError
  unknown_escape : ℕ → EscapeError

pub data Unescaped : Type 0 where
  text : Bytes → Unescaped
  failed : EscapeError → Unescaped

-- A digit of base 16, as `strconv.ParseUint` reads it.
unfoldable pub digit_value : ℕ → Option ℕ
digit_value c =
    if leb b'0' c && leb c b'9'
    then some (c - 48)
    else if leb b'a' c && leb c b'f'
    then some (c - 87)
    else if leb b'A' c && leb c b'F'
    then some (c - 55)
    else none

-- What one byte does: it writes bytes and moves on, or ends the loop with an error.
pub data Move : Type 0 where
  write : Bytes → Cursor → Move
  stop : EscapeError → Move

abbrev pub both_digits : ℕ → ℕ → Option ℕ → Option ℕ → Move
both_digits c d (some h) (some l) = write ((h * 16 + l) ∷ []) in_text
both_digits c d _ _ = stop (bad_hex c d)

unfoldable pub escaped_byte : ℕ → Move
escaped_byte c =
    if c == b'r'
    then write (13 ∷ []) in_text
    else if c == b'n'
    then write (10 ∷ []) in_text
    else if c == b't'
    then write (9 ∷ []) in_text
    else if c == b'0'
    then write (0 ∷ []) in_text
    else if c == 92
    then write (92 ∷ []) in_text
    else if c == b'x'
    then write [] behind_x
    else stop (unknown_escape c)

unfoldable pub move : Cursor → ℕ → Move
move in_text c = if c == 92 then write [] behind_backslash else write (c ∷ []) in_text
move behind_backslash c = escaped_byte c
move behind_x c = write [] (behind_digit c)
move (behind_digit c) d = both_digits c d (digit_value c) (digit_value d)

abbrev pub at_end : Cursor → Unescaped
at_end in_text = text []
at_end behind_backslash = failed trailing_backslash
at_end _ = failed truncated_hex

abbrev pub prepend : Bytes → Unescaped → Unescaped
prepend p (text s) = text (p ++ s)
prepend p (failed e) = failed e

unfoldable pub unescape_on : Cursor → Bytes → Unescaped
unescape_on cur [] = at_end cur
unescape_on cur (c ∷ s) = elim (move cur c) [
  | write p next ↦ prepend p (unescape_on next s)
  | stop e ↦ failed e
]

-- `unescape`
abbrev pub unescape : Bytes → Unescaped
unescape s = unescape_on in_text s

-- A way to write any byte in a script: printable ones as they are, the backslash doubled, and the others
-- by their two digits.
abbrev pub digit : ℕ → ℕ
digit n = if ltb n 10 then 48 + n else 87 + n

unfoldable pub written : ℕ → Bytes
written b =
    if b == 92
    then 92 ∷ 92 ∷ []
    else if leb 32 b && leb b 126
    then b ∷ []
    else 92 ∷ b'x' ∷ digit (b / 16) ∷ digit (b % 16) ∷ []

abbrev pub written_all : Bytes → Bytes
written_all [] = []
written_all (b ∷ p) = written b ++ written_all p

digit_value-digit : (n : ℕ) → n < 16 → digit_value (digit n) ≡ some n
unfolding digit_value
digit_value-digit n h = ground arith

move_on :
    (cur next : Cursor) (c : ℕ) (p s : Bytes)
    → move cur c ≡ write p next
    → unescape_on cur (c ∷ s) ≡ prepend p (unescape_on next s)
unfolding unescape_on
move_on cur next c p s h = rw (h, unescape_on) refl

prepend-nil : (u : Unescaped) → prepend [] u ≡ u
prepend-nil (text s) = refl
prepend-nil (failed e) = refl

move_digits :
    (h l : ℕ)
    → h < 16
    → l < 16
    → move (behind_digit (digit h)) (digit l) ≡ write ((h * 16 + l) ∷ []) in_text
unfolding move
move_digits h l hh hl =
    ap (λ x. both_digits (digit h) (digit l) x (digit_value (digit l))) (digit_value-digit h hh)
    ∙ ap (λ x. both_digits (digit h) (digit l) (some h) x) (digit_value-digit l hl)

unescape_hex :
    (h l : ℕ) (s : Bytes)
    → h < 16
    → l < 16
    → unescape (92 ∷ b'x' ∷ digit h ∷ digit l ∷ s) ≡ prepend ((h * 16 + l) ∷ []) (unescape s)
unfolding move escaped_byte
unescape_hex h l s hh hl =
    move_on in_text behind_backslash 92 [] (b'x' ∷ digit h ∷ digit l ∷ s) refl
    ∙ prepend-nil (unescape_on behind_backslash (b'x' ∷ digit h ∷ digit l ∷ s))
    ∙ move_on behind_backslash behind_x b'x' [] (digit h ∷ digit l ∷ s) refl
    ∙ prepend-nil (unescape_on behind_x (digit h ∷ digit l ∷ s))
    ∙ move_on behind_x (behind_digit (digit h)) (digit h) [] (digit l ∷ s) refl
    ∙ prepend-nil (unescape_on (behind_digit (digit h)) (digit l ∷ s))
    ∙ move_on (behind_digit (digit h)) in_text (digit l) ((h * 16 + l) ∷ []) s
        (move_digits h l hh hl)

unescape_backslash : (s : Bytes) → unescape (92 ∷ 92 ∷ s) ≡ prepend (92 ∷ []) (unescape s)
unfolding move escaped_byte
unescape_backslash s =
    move_on in_text behind_backslash 92 [] (92 ∷ s) refl
    ∙ prepend-nil (unescape_on behind_backslash (92 ∷ s))
    ∙ move_on behind_backslash in_text 92 (92 ∷ []) s refl

unescape_plain :
    (b : ℕ) (s : Bytes) → (b == 92) ≡ false → unescape (b ∷ s) ≡ prepend (b ∷ []) (unescape s)
unfolding move
unescape_plain b s h =
    move_on in_text in_text b (b ∷ []) s (if-false (b == 92) _ (write (b ∷ []) in_text) h)

unescape-written :
    (b : ℕ) (s : Bytes) → b < 256 → unescape (written b ++ s) ≡ prepend (b ∷ []) (unescape s)
unfolding written
unescape-written b s h =
    if-intro (λ (x : Bytes). unescape (x ++ s) ≡ prepend (b ∷ []) (unescape s)) (b == 92) _ _
      (λ slash.
        let same : 92 ≡ b = ground arith in
        unescape_backslash s ∙ ap (λ x. prepend (x ∷ []) (unescape s)) same)
      (λ other.
        if-intro (λ (x : Bytes). unescape (x ++ s) ≡ prepend (b ∷ []) (unescape s))
          (leb 32 b && leb b 126) _ _ (λ _. unescape_plain b s other)
          (λ _.
            unescape_hex (b / 16) (b % 16) s (omega arith) (omega arith)
            ∙ ap (λ x. prepend (x ∷ []) (unescape s))
                (let e : b / 16 * 16 + b % 16 ≡ b = omega arith in e)))

-- Any bytes can be written in a script: what `unescape` makes of their written form is these bytes.
pub unescape-written_all : (p : Bytes) → All (λ b. b < 256) p → unescape (written_all p) ≡ text p
unfolding unescape_on
unescape-written_all [] h = refl
unescape-written_all (b ∷ p) h =
    unescape-written b (written_all p) h.0 ∙ ap (prepend (b ∷ [])) (unescape-written_all p h.1)
