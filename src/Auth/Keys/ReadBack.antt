-- ===== src/Auth/Keys/ReadBack.antt =====
-- internal/sshauth/sshauth.go: `ParseKey` on what `Key.Text` writes.
use sercon.Prelude.{
  ◌≡◌, refl, sym, ap, ◌∙◌, subst, inl, inr, true, false, ◌||◌, List, [], ◌∷◌, ◌++◌, arith,
  if◌then◌else◌, Bool-cases, Option-cases, maybe, if-false, All, Bytes, codes, str_eq, str_eq_iff,
  is_empty, has_prefix,
}
use sercon.Prelude.Strings.{
  is_space, join, fields, trim_space, has_text, IsWord, fields-IsWord, fields-join, trim_by-join,
}
use sercon.Auth.Keys.{
  Codec, Key, Parsed, key, refused, key_type_prefixes, is_known_key_type, check_blob_header, blank,
  checked_key, found_key, parse_fields, parse_key, text,
}

has_text-cases :
    (a : Bytes) (ws : List Bytes) (P : Bytes → Type 0) → All P ws → has_text a ws ≡ true → P a
unfolding has_text
has_text-cases a [] P h e = cc
has_text-cases a (w ∷ ws) P h e = elim (Bool-cases (str_eq w a)) [
  | inl same ↦ subst P ((str_eq_iff w a).0 same) h.0
  | inr other ↦ has_text-cases a ws P h.1 (ground arith)
]

-- A text that is neither empty nor a comment.
IsEntry : Bytes → Type 0
IsEntry s = (is_empty s || has_prefix (codes "#") s) ≡ false

IsEntry-append : (a s : Bytes) → IsEntry a → IsEntry (a ++ s)
unfolding IsEntry has_prefix
IsEntry-append [] s h = cc
IsEntry-append (c ∷ a) s h = h

known-IsEntry : (a : Bytes) → is_known_key_type a ≡ true → IsEntry a
unfolding IsEntry has_prefix
known-IsEntry a h =
    has_text-cases a key_type_prefixes IsEntry
      (refl, (refl, (refl, (refl, (refl, (refl, (refl, tt))))))) h

key_or : Key → Parsed → Key
key_or d (key k) = k
key_or d (refused e) = d

checked_key-text :
    (cd : Codec) (a b : Bytes) (cs : List Bytes) (raw : Bytes) (k : Key)
    → All (IsWord is_space) cs
    → checked_key cd a b cs raw ≡ key k
    → text k ≡ join blank (a ∷ b ∷ cs)
unfolding checked_key maybe text join key_or
checked_key-text cd a b cs raw k h e = elim (Option-cases (check_blob_header raw a)) [
  | inl fine ↦
      let same =
        ap (key_or k)
          (subst (λ o. maybe (key (found_key cd a b cs raw)) refused o ≡ key k) fine e) in
      ap text (sym same) ∙ comment_text a b cs h
  | inr (x, bad) ↦
      let clash : refused x ≡ key k =
        subst (λ o. maybe (key (found_key cd a b cs raw)) refused o ≡ key k) bad e in
      cc clash
]
  where
    comment_text :
        (a b : Bytes) (cs : List Bytes)
        → All (IsWord is_space) cs
        → join blank (a ∷ b ∷ (if is_empty (join blank cs) then [] else join blank cs ∷ []))
          ≡ join blank (a ∷ b ∷ cs)
    comment_text a b [] h = refl
    comment_text a b ([] ∷ cs) h = let no = h.0.1 in cc no
    comment_text a b ((c ∷ w) ∷ []) h = refl
    comment_text a b ((c ∷ w) ∷ v ∷ cs) h = refl

parse_fields-inv :
    (cd : Codec) (ws : List Bytes) (k : Key)
    → All (IsWord is_space) ws
    → parse_fields cd ws ≡ key k
    → (text k ≡ join blank ws) × IsEntry (text k)
unfolding parse_fields maybe join
parse_fields-inv cd (a ∷ b ∷ cs) k h e = elim (Bool-cases (is_known_key_type a)) [
  | inl known ↦ elim (Option-cases (cd.decode_string b)) [
    | inl none_raw ↦ ground arith
    | inr (raw, some_raw) ↦
        let e' : checked_key cd a b cs raw ≡ key k = ground arith in
        let t = checked_key-text cd a b cs raw k h.1.1 e' in
        (t, subst IsEntry (sym t) (IsEntry-append a _ (known-IsEntry a known)))
  ]
  | inr unknown ↦ ground arith
]
parse_fields-inv cd (a ∷ []) k h e = cc
parse_fields-inv cd [] k h e = cc

-- The words of a line that gives a key are those of the key's text.
pub text_words :
    (cd : Codec) (l : Bytes) (k : Key)
    → parse_key cd l ≡ key k
    → (ws : List Bytes) × All (IsWord is_space) ws × (text k ≡ join blank ws)
unfolding parse_key
text_words cd l k e =
    let ws = fields (trim_space l) in
    let words = fields-IsWord (trim_space l) in
    (ws, words, (parse_fields-inv cd ws k words (ground arith)).0)

-- A key that a line gives is written as a text that gives the same key back, whatever blanks, tabs and
-- line ends the line had: its algorithm, blob, comment and fingerprint.
pub parse_key-text :
    (cd : Codec) (l : Bytes) (k : Key) → parse_key cd l ≡ key k → parse_key cd (text k) ≡ key k
unfolding parse_key IsEntry
parse_key-text cd l k e =
    let ws = fields (trim_space l) in
    let words = fields-IsWord (trim_space l) in
    let e' : parse_fields cd ws ≡ key k = ground arith in
    let (t, entry) = parse_fields-inv cd ws k words e' in
    let trimmed : trim_space (text k) ≡ text k =
      ap trim_space t ∙ trim_by-join is_space 32 ws words ∙ sym t in
    if-false _ _ _ (ap (λ s. is_empty s || has_prefix (codes "#") s) trimmed ∙ entry)
    ∙ ap (parse_fields cd) (ap fields (trimmed ∙ t) ∙ fields-join ws words)
    ∙ e'
