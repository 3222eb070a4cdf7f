-- ===== src/Prelude/Strings.antt =====
-- Package strings on lists of bytes: splitting, joining and trimming. White space is ASCII's.
use sercon.Prelude.{
  ℕ, ◌≡◌, refl, sym, ap, ◌∙◌, inl, inr, Bool, true, false, ◌&&◌, ◌||◌, List, [], ◌∷◌, ◌++◌,
  append-nil, arith, leb, ◌==◌, if◌then◌else◌, Bool-cases, if-false, All, Bytes, str_eq, is_empty,
}

-- `unicode.IsSpace` on ASCII
unfoldable pub is_space : ℕ → Bool
is_space c = (leb 9 c && leb c 13) || c == 32

-- A byte put before the first piece.
abbrev pub cons_head : ℕ → List Bytes → List Bytes
cons_head c [] = (c ∷ []) ∷ []
cons_head c (w ∷ ws) = (c ∷ w) ∷ ws

-- The pieces of a text between the bytes that pass a test.
unfoldable pub split_by : (ℕ → Bool) → Bytes → List Bytes
split_by t [] = [] ∷ []
split_by t (c ∷ s) = let rest = split_by t s in if t c then [] ∷ rest else cons_head c rest

-- `strings.Split` at one byte
abbrev pub split_on : ℕ → Bytes → List Bytes
split_on sep = split_by (λ c. c == sep)

-- `strings.Join`
unfoldable pub join : Bytes → List Bytes → Bytes
join sep [] = []
join sep (w ∷ []) = w
join sep (w ∷ v ∷ ws) = w ++ (sep ++ join sep (v ∷ ws))

-- The pieces that are not empty.
abbrev pub non_empty : List Bytes → List Bytes
non_empty [] = []
non_empty (w ∷ ws) = if is_empty w then non_empty ws else w ∷ non_empty ws

-- `strings.Fields`
unfoldable pub fields : Bytes → List Bytes
fields s = non_empty (split_by is_space s)

-- `strings.TrimLeft`, `strings.TrimRight` and `strings.TrimSpace`, with the test of what goes.
unfoldable pub trim_left : (ℕ → Bool) → Bytes → Bytes
trim_left t [] = []
trim_left t (c ∷ s) = let rest = trim_left t s in if t c then rest else c ∷ s

unfoldable pub trim_right : (ℕ → Bool) → Bytes → Bytes
trim_right t [] = []
trim_right t (c ∷ s) = let rest = trim_right t s in if t c && is_empty rest then [] else c ∷ rest

unfoldable pub trim_by : (ℕ → Bool) → Bytes → Bytes
trim_by t s = trim_right t (trim_left t s)

abbrev pub trim_space : Bytes → Bytes
trim_space = trim_by is_space

-- `slices.Contains`, and a map's keys.
unfoldable pub has_text : Bytes → List Bytes → Bool
has_text s [] = false
has_text s (w ∷ ws) = str_eq w s || has_text s ws

-- No byte passes the test.
abbrev pub IsFree : (ℕ → Bool) → Bytes → Type 0
IsFree t s = All (λ c. t c ≡ false) s

-- A piece without separators, and not empty.
abbrev pub IsWord : (ℕ → Bool) → Bytes → Type 0
IsWord t w = IsFree t w × (is_empty w ≡ false)

pub split_by-IsFree : (t : ℕ → Bool) (s : Bytes) → All (IsFree t) (split_by t s)
unfolding split_by
split_by-IsFree t [] = (tt, tt)
split_by-IsFree t (c ∷ s) = elim (Bool-cases (t c)) [
  | inl sep ↦ rw sep (tt, split_by-IsFree t s)
  | inr plain ↦ rw plain (cons_head-IsFree t c (split_by t s) plain (split_by-IsFree t s))
]
  where
    cons_head-IsFree :
        (t : ℕ → Bool) (c : ℕ) (ws : List Bytes)
        → t c ≡ false
        → All (IsFree t) ws
        → All (IsFree t) (cons_head c ws)
    cons_head-IsFree t c [] h ws = ((h, tt), tt)
    cons_head-IsFree t c (w ∷ v) h ws = ((h, ws.0), ws.1)

-- A piece and a separator in front of a text are split off.
pub split_by-append :
    (t : ℕ → Bool) (w : Bytes) (c : ℕ) (s : Bytes)
    → IsFree t w
    → t c ≡ true
    → split_by t (w ++ c ∷ s) ≡ w ∷ split_by t s
unfolding split_by
split_by-append t [] c s h sep = rw sep refl
split_by-append t (b ∷ w) c s h sep = rw (h.0, split_by-append t w c s h.1 sep) refl

pub split_by_self : (t : ℕ → Bool) (w : Bytes) → IsFree t w → split_by t w ≡ w ∷ []
unfolding split_by
split_by_self t [] h = refl
split_by_self t (b ∷ w) h = rw (h.0, split_by_self t w h.1) refl

-- Splitting undoes joining, for pieces without separators.
pub split_by-join :
    (t : ℕ → Bool) (c : ℕ) (w : Bytes) (ws : List Bytes)
    → t c ≡ true
    → All (IsFree t) (w ∷ ws)
    → split_by t (join (c ∷ []) (w ∷ ws)) ≡ w ∷ ws
unfolding join
split_by-join t c w [] sep h = split_by_self t w h.0
split_by-join t c w (v ∷ ws) sep h =
    split_by-append t w c (join (c ∷ []) (v ∷ ws)) h.0 sep
    ∙ ap (λ x. w ∷ x) (split_by-join t c v ws sep h.1)

pub non_empty-IsWord :
    (t : ℕ → Bool) (ws : List Bytes) → All (IsFree t) ws → All (IsWord t) (non_empty ws)
non_empty-IsWord t [] h = tt
non_empty-IsWord t ([] ∷ ws) h = non_empty-IsWord t ws h.1
non_empty-IsWord t ((c ∷ w) ∷ ws) h = ((h.0, refl), non_empty-IsWord t ws h.1)

pub fields-IsWord : (s : Bytes) → All (IsWord is_space) (fields s)
unfolding fields
fields-IsWord s = non_empty-IsWord is_space (split_by is_space s) (split_by-IsFree is_space s)

pub non_empty-words : (t : ℕ → Bool) (ws : List Bytes) → All (IsWord t) ws → non_empty ws ≡ ws
non_empty-words t [] h = refl
non_empty-words t ([] ∷ ws) h = let no = h.0.1 in cc no
non_empty-words t ((c ∷ w) ∷ ws) h = ap (λ x. (c ∷ w) ∷ x) (non_empty-words t ws h.1)

words-IsFree : (t : ℕ → Bool) (ws : List Bytes) → All (IsWord t) ws → All (IsFree t) ws
words-IsFree t [] h = tt
words-IsFree t (w ∷ ws) h = (h.0.0, words-IsFree t ws h.1)

-- `strings.Fields` undoes joining words by a blank.
pub fields-join : (ws : List Bytes) → All (IsWord is_space) ws → fields (join (32 ∷ []) ws) ≡ ws
unfolding fields join is_space split_by
fields-join [] h = refl
fields-join (w ∷ ws) h =
    ap non_empty (split_by-join is_space 32 w ws refl (words-IsFree is_space (w ∷ ws) h))
    ∙ non_empty-words is_space (w ∷ ws) h

-- Trimming keeps a text that is made of words.
trim_right-append :
    (t : ℕ → Bool) (w s : Bytes) → IsFree t w → trim_right t (w ++ s) ≡ w ++ trim_right t s
unfolding trim_right
trim_right-append t [] s h = refl
trim_right-append t (c ∷ w) s h = rw (h.0, trim_right-append t w s h.1) refl

trim_right-join :
    (t : ℕ → Bool) (c : ℕ) (ws : List Bytes)
    → All (IsWord t) ws
    → trim_right t (join (c ∷ []) ws) ≡ join (c ∷ []) ws
unfolding join trim_right
trim_right-join t c [] h = refl
trim_right-join t c (w ∷ []) h =
    ap (trim_right t) (sym (append-nil w)) ∙ trim_right-append t w [] h.0.0 ∙ append-nil w
trim_right-join t c (w ∷ v ∷ ws) h =
    trim_right-append t w (c ∷ join (c ∷ []) (v ∷ ws)) h.0.0
    ∙ ap (λ s. w ++ s) (rw (trim_right-join t c (v ∷ ws) h.1, if-same t c v ws h.1.0.1) refl)
  where
    if-same :
        (t : ℕ → Bool) (c : ℕ) (v : Bytes) (ws : List Bytes)
        → is_empty v ≡ false
        → (t c && is_empty (join (c ∷ []) (v ∷ ws))) ≡ false
    if-same t c [] ws e = cc e
    if-same t c (x ∷ v) [] e = ground arith
    if-same t c (x ∷ v) (u ∷ ws) e = ground arith

pub trim_by-join :
    (t : ℕ → Bool) (c : ℕ) (ws : List Bytes)
    → All (IsWord t) ws
    → trim_by t (join (c ∷ []) ws) ≡ join (c ∷ []) ws
unfolding trim_by trim_left join
trim_by-join t c [] h = trim_right-join t c [] h
trim_by-join t c ([] ∷ ws) h = let no = h.0.1 in cc no
trim_by-join t c ((x ∷ w) ∷ ws) h =
    ap (trim_right t) (trim_left-join t c x w ws h.0.0.0) ∙ trim_right-join t c ((x ∷ w) ∷ ws) h
  where
    trim_left-join :
        (t : ℕ → Bool) (c x : ℕ) (w : Bytes) (ws : List Bytes)
        → t x ≡ false
        → trim_left t (join (c ∷ []) ((x ∷ w) ∷ ws)) ≡ join (c ∷ []) ((x ∷ w) ∷ ws)
    trim_left-join t c x w [] e = rw e refl
    trim_left-join t c x w (v ∷ ws) e = rw e refl

-- Trimming takes away a separator at the end of a word.
pub trim_by_end :
    (t : ℕ → Bool) (c : ℕ) (w : Bytes) → IsWord t w → t c ≡ true → trim_by t (w ++ c ∷ []) ≡ w
unfolding trim_by trim_left trim_right
trim_by_end t c [] h e = cc
trim_by_end t c (x ∷ w) h e =
    ap (trim_right t) (if-false (t x) _ _ h.0.0)
    ∙ trim_right-append t (x ∷ w) (c ∷ []) h.0
    ∙ ap (λ s. x ∷ w ++ s) (rw e refl)
    ∙ append-nil (x ∷ w)
