-- ===== src/Auth/File/Reading.antt =====
-- internal/sshauth/sshauth.go: `parseKeys`, which splits a file at line feeds only, against the lines of `splitLines`.
use sercon.Prelude.{
  ℕ, ◌+◌, ◌≡◌, refl, sym, ap, ◌∙◌, inl, inr, true, false, ◌&&◌, ◌||◌, List, [], ◌∷◌, map, arith,
  ◌==◌, if◌then◌else◌, Bool-cases, Option-cases, maybe, if-intro, All, All-append, not, Bytes,
  is_empty, has_prefix, codes,
}
use sercon.Prelude.Strings.{
  is_space, IsFree, join, cons_head, split_by, split_on, trim_by, trim_left, trim_right, trim_space,
  fields,
}
use sercon.Auth.Keys.{not_a_key, refused, Codec, Parsed, parse_fields, parse_key}
use sercon.Auth.File.{
  result_key, replace_crlf, split_lines, render, remove_lines, remove, parse_lines, parse_keys,
}
use sercon.Auth.File.Lines.{IsLine, join-All, split_lines-IsLine}
use sercon.Auth.File.Edits.{
  unnumbered, without, keys_in, keys_of, remove_lines-IsLine, keys_of-remove,
}

-- Every carriage return stands before a line feed.
abbrev pub NoLoneCr : Bytes → Type 0
NoLoneCr [] = Unit
NoLoneCr (c ∷ s) = ((c == 13) ≡ true → has_prefix (10 ∷ []) s ≡ true) × NoLoneCr s

-- A line without a carriage return at its end.
unfoldable pub chop : Bytes → Bytes
chop [] = []
chop (c ∷ l) = let rest = chop l in if c == 13 && is_empty l then [] else c ∷ rest

chop-cons_head :
    (c : ℕ) (ws : List Bytes)
    → (c == 13) ≡ false
    → map chop (cons_head c ws) ≡ cons_head c (map chop ws)
unfolding chop
chop-cons_head c [] h = rw h refl
chop-cons_head c (w ∷ ws) h = rw h refl

-- A carriage return before a line feed belongs to the line end.
before_feed :
    (s : Bytes)
    → has_prefix (10 ∷ []) s ≡ true
    → map chop (cons_head 13 (split_on 10 s)) ≡ map chop (split_on 10 s)
unfolding has_prefix split_by chop
before_feed [] h = cc
before_feed (c ∷ s) h = let feed : (c == 10) ≡ true = ground arith in rw feed refl

split_lines-chop : (s : Bytes) → NoLoneCr s → split_lines s ≡ map chop (split_on 10 s)
unfolding split_lines replace_crlf split_by chop
split_lines-chop [] h = refl
split_lines-chop (c ∷ s) h = elim (Bool-cases (c == 13)) [
  | inl cr ↦
      let feed = h.0 cr in
      let not_feed : (c == 10) ≡ false = ground arith in
      let it : 13 ≡ c = ground arith in
      rw (cr, feed)
        (split_lines-chop s h.1
          ∙ rw not_feed
              (sym (before_feed s feed) ∙ ap (λ b. map chop (cons_head b (split_on 10 s))) it))
  | inr other ↦ elim (Bool-cases (c == 10)) [
    | inl feed ↦ rw (other, other, feed) (ap (λ x. [] ∷ x) (split_lines-chop s h.1))
    | inr plain ↦
        rw (other, other, plain)
          (ap (cons_head c) (split_lines-chop s h.1) ∙ sym (chop-cons_head c (split_on 10 s) other))
  ]
]

-- Trimming does not see the carriage return.
trim_left-chop : (l : Bytes) → trim_left is_space (chop l) ≡ chop (trim_left is_space l)
unfolding trim_left chop is_space
trim_left-chop [] = refl
trim_left-chop (c ∷ l) = elim (Bool-cases (is_space c)) [
  | inl space ↦ rw space (
      if-intro (λ x. trim_left is_space x ≡ chop (trim_left is_space l)) (c == 13 && is_empty l) _ _
        (λ last. only l (ground (arith, last))) (λ _. rw space (trim_left-chop l)))
  | inr dark ↦
      let other : (c == 13) ≡ false = ground (arith, dark) in rw (dark, other) (rw dark refl)
]
  where
    only : (l : Bytes) → is_empty l ≡ true → [] ≡ chop (trim_left is_space l)
    only [] e = refl
    only (c ∷ l) e = cc

trim_right-chop : (l : Bytes) → trim_right is_space (chop l) ≡ trim_right is_space l
unfolding trim_right chop is_space
trim_right-chop [] = refl
trim_right-chop (c ∷ l) =
    if-intro (λ x. trim_right is_space x ≡ trim_right is_space (c ∷ l)) (c == 13 && is_empty l) _ _
      (λ last. only c l (ground (arith, last)) (ground (arith, last)))
      (λ _. ap (λ rest. if is_space c && is_empty rest then [] else c ∷ rest) (trim_right-chop l))
  where
    only :
        (c : ℕ) (l : Bytes)
        → (c == 13) ≡ true
        → is_empty l ≡ true
        → [] ≡ trim_right is_space (c ∷ l)
    only c [] cr e = let space : is_space c ≡ true = ground arith in rw space refl
    only c (d ∷ l) cr e = cc

trim_space-chop : (l : Bytes) → trim_space (chop l) ≡ trim_space l
unfolding trim_by
trim_space-chop l =
    ap (trim_right is_space) (trim_left-chop l) ∙ trim_right-chop (trim_left is_space l)

NoCr-NoLoneCr : (s : Bytes) → IsFree (λ c. c == 13) s → NoLoneCr s
NoCr-NoLoneCr [] h = tt
NoCr-NoLoneCr (c ∷ s) h =
    (λ cr. let other = h.0 in absurd (ground (arith, other, cr)), NoCr-NoLoneCr s h.1)

pub render-NoLoneCr : (ls : List Bytes) → All IsLine ls → NoLoneCr (render ls)
unfolding render
render-NoLoneCr ls h =
    if-intro NoLoneCr (is_empty ls) _ _ (λ _. tt)
      (λ _. NoCr-NoLoneCr _ (
        All-append (λ c. (c == 13) ≡ false) (join (10 ∷ []) ls) (10 ∷ [])
          (join-All (λ c. (c == 13) ≡ false) 10 ls refl (free ls h)) (refl, tt)))
  where
    free : (ls : List Bytes) → All IsLine ls → All (IsFree (λ c. c == 13)) ls
    free [] h = tt
    free (l ∷ ls) h = (h.0.0, free ls h.1)

module _ (cd : Codec) where
  parse_key-chop : (l : Bytes) → parse_key cd (chop l) ≡ parse_key cd l
  unfolding parse_key
  parse_key-chop l = ap of (trim_space-chop l)
    where
      of : Bytes → Parsed
      of s =
          if is_empty s || has_prefix (codes "#") s
          then refused not_a_key
          else parse_fields cd (fields s)

  keys_in-chop : (ls : List Bytes) → keys_in cd (map chop ls) ≡ keys_in cd ls
  unfolding keys_in result_key maybe
  keys_in-chop [] = refl
  keys_in-chop (l ∷ ls) =
      ap
        (λ r.
          maybe (keys_in cd (map chop ls)) (λ k. unnumbered k ∷ keys_in cd (map chop ls))
            (result_key r))
        (parse_key-chop l)
      ∙ ap (λ rest. maybe rest (λ k. unnumbered k ∷ rest) (result_key (parse_key cd l)))
          (keys_in-chop ls)

  keys_in-parse_lines :
      (i : ℕ) (ls : List Bytes) → map unnumbered (parse_lines cd i ls) ≡ keys_in cd ls
  unfolding parse_lines keys_in result_key maybe
  keys_in-parse_lines i [] = refl
  keys_in-parse_lines i (l ∷ ls) = elim (Option-cases (result_key (parse_key cd l))) [
    | inl missing ↦ rw (missing) (keys_in-parse_lines (i + 1) ls)
    | inr (k, found) ↦ rw (found) (ap (λ x. unnumbered k ∷ x) (keys_in-parse_lines (i + 1) ls))
  ]

  -- The program's reading of a file, but for the numbers of the lines.
  pub parse_keys-keys_of :
      (s : Bytes) → NoLoneCr s → map unnumbered (parse_keys cd s) ≡ keys_of cd s
  unfolding parse_keys
  parse_keys-keys_of s h =
      keys_in-parse_lines 1 (split_on 10 s)
      ∙ sym (keys_in-chop (split_on 10 s))
      ∙ ap (keys_in cd) (sym (split_lines-chop s h))

  remove-NoLoneCr :
      (content : Bytes) (fps : List Bytes) → NoLoneCr content → NoLoneCr (remove cd content fps)
  unfolding remove
  remove-NoLoneCr content fps h =
      let ls = split_lines content in
      if-intro NoLoneCr (not (remove_lines cd fps ls).1) _ _ (λ _. h)
        (λ _.
          render-NoLoneCr (remove_lines cd fps ls).0
            (remove_lines-IsLine cd fps ls (split_lines-IsLine content)))

  -- In a file whose carriage returns all stand before a line feed, removing fingerprints takes away exactly the keys
  -- that have one of them, as `parseKeys` lists them but for the numbers of their lines: the other keys stay, in
  -- their order.
  pub parse_keys-remove :
      (content : Bytes) (fps : List Bytes)
      → NoLoneCr content
      → map unnumbered (parse_keys cd (remove cd content fps))
        ≡ without fps (map unnumbered (parse_keys cd content))
  parse_keys-remove content fps h =
      parse_keys-keys_of (remove cd content fps) (remove-NoLoneCr content fps h)
      ∙ keys_of-remove cd content fps
      ∙ ap (without fps) (sym (parse_keys-keys_of content h))
