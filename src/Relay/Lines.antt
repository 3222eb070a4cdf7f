-- ===== src/Relay/Lines.antt =====
-- internal/relay/server.go: `readLine` and `trimCR`. A connection is the list of the bytes that are still
-- to be read before its end.
use sercon.Prelude.{
  ℕ, zero, suc, ◌≤◌, ◌<◌, ◌≡◌, refl, sym, ap, ◌∙◌, false, [], ◌∷◌, ◌++◌, append-nil, append_assoc,
  arith, ◌==◌, if◌then◌else◌, if-false, length, All, Bytes,
}

abbrev pub max_hello_len : ℕ
max_hello_len = 4096

-- `trimCR`
unfoldable pub trim_cr : Bytes → Bytes
trim_cr [] = []
trim_cr (b ∷ []) = if b == 13 then [] else b ∷ []
trim_cr (b ∷ c ∷ s) = b ∷ trim_cr (c ∷ s)

-- The line and what is left of the connection, the connection's end with nothing read, or too long a
-- line.
pub data LineResult : Type 0 where
  line : Bytes → Bytes → LineResult
  ended : LineResult
  too_long : ℕ → LineResult

abbrev pub at_eof : Bytes → LineResult
at_eof [] = ended
at_eof (b ∷ buf) = line (trim_cr (b ∷ buf)) []

-- The loop of `readLine`, with `room` bytes to go before the limit `max`.
unfoldable pub read_on : ℕ → ℕ → Bytes → Bytes → LineResult
read_on max zero buf s = too_long max
read_on max (suc room) buf [] = at_eof buf
read_on max (suc room) buf (b ∷ s) =
    let more = read_on max room (buf ++ b ∷ []) s in if b == 10 then line (trim_cr buf) s else more

-- `readLine`
abbrev pub read_line : ℕ → Bytes → LineResult
read_line max s = read_on max max [] s

abbrev pub IsInLine : ℕ → Type 0
IsInLine b = (b == 10) ≡ false

read_on-line :
    (max room : ℕ) (buf l rest : Bytes)
    → All IsInLine l
    → length l < room
    → read_on max room buf (l ++ 10 ∷ rest) ≡ line (trim_cr (buf ++ l)) rest
unfolding read_on
read_on-line max zero buf l rest h lt = elim lt [ ]
read_on-line max (suc room) buf [] rest h lt =
    ap (λ x. line (trim_cr x) rest) (sym (append-nil buf))
read_on-line max (suc room) buf (b ∷ l) rest h lt =
    if-false (b == 10) _ _ h.0
    ∙ read_on-line max room (buf ++ b ∷ []) l rest h.1 (omega arith)
    ∙ ap (λ x. line (trim_cr x) rest) (append_assoc buf (b ∷ []) l)

read_on-too_long :
    (max room : ℕ) (buf l : Bytes)
    → All IsInLine l
    → room ≤ length l
    → read_on max room buf l ≡ too_long max
unfolding read_on
read_on-too_long max zero buf l h le = refl
read_on-too_long max (suc room) buf [] h le = elim le [ ]
read_on-too_long max (suc room) buf (b ∷ l) h le =
    if-false (b == 10) _ _ h.0 ∙ read_on-too_long max room (buf ++ b ∷ []) l h.1 (omega arith)

-- A line shorter than the limit is read up to its end, a carriage return before it is taken off, and
-- every byte behind it stays in the connection for the session.
pub read_line-line :
    (max : ℕ) (l rest : Bytes)
    → All IsInLine l
    → length l < max
    → read_line max (l ++ 10 ∷ rest) ≡ line (trim_cr l) rest
read_line-line max l rest h lt = read_on-line max max [] l rest h lt

-- A connection whose first `max` bytes hold no line end is refused.
read_line-too_long :
    (max : ℕ) (l : Bytes) → All IsInLine l → max ≤ length l → read_line max l ≡ too_long max
read_line-too_long max l h le = read_on-too_long max max [] l h le
