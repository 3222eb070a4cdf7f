-- ===== src/Auth/File/Additions.antt =====
-- internal/sshauth/sshauth.go: what `AddAll` makes of the keys of a file.
use sercon.Prelude.{
  codes, has_prefix, ◌||◌, is_empty, ℕ, ◌≡◌, refl, sym, ap, ◌∙◌, subst, true, false, ◌||◌, List, [],
  ◌∷◌, ◌++◌, map, append-nil, arith, ◌==◌, if◌then◌else◌, maybe, if-intro, if-true, All, All-append,
  Bytes, str_eq_refl, is_empty,
}
use sercon.Prelude.Strings.{is_space, join, has_text, IsFree, IsWord, trim_space}
use sercon.Auth.Keys.{not_a_key, refused, Codec, Key, key, parse_key, text, blank}
use sercon.Auth.Keys.ReadBack.{text_words, parse_key-text}
use sercon.Auth.File.{
  result_key, split_lines, render, parse_keys, drop_blank, kept_lines, new_keys, add_all,
}
use sercon.Auth.File.Lines.{IsLine, join-All, split_lines-IsLine}
use sercon.Auth.File.Edits.{unnumbered, prints, keys_in, keys_of, keys_in-append, keys_of-render}
use sercon.Auth.File.Reading.{NoLoneCr, render-NoLoneCr, parse_keys-keys_of}

has_text-append :
    (x : Bytes) (a b : List Bytes) → has_text x (a ++ b) ≡ (has_text x a || has_text x b)
unfolding has_text
has_text-append x [] b = refl
has_text-append x (y ∷ a) b = ground (arith, has_text-append x a b)

IsKnown : List Bytes → Key → Type 0
IsKnown have k = has_text k.fingerprint have ≡ true

-- The first of a list moved behind another.
IsKnown-later :
    (f : Bytes) (have new : List Bytes) (ks : List Key)
    → All (IsKnown ((f ∷ have) ++ new)) ks
    → All (IsKnown (have ++ f ∷ new)) ks
unfolding IsKnown has_text
IsKnown-later f have new [] h = tt
IsKnown-later f have new (k ∷ ks) h = (
  (has_text-append k.fingerprint have (f ∷ new)
      ∙ ground (arith, has_text-append k.fingerprint have new)),
  IsKnown-later f have new ks h.1,
)

-- Each key is present or added.
new_keys-IsKnown :
    (have : List Bytes) (add : List Key) → All (IsKnown (have ++ prints (new_keys have add))) add
unfolding new_keys IsKnown has_text
new_keys-IsKnown have [] = tt
new_keys-IsKnown have (k ∷ add) =
    if-intro (λ (new : List Key). All (IsKnown (have ++ prints new)) (k ∷ add))
      (has_text k.fingerprint have) _ _
      (λ present.
        ((has_text-append k.fingerprint have _ ∙ rw present refl), new_keys-IsKnown have add))
      (λ _. (
        (has_text-append k.fingerprint have _ ∙ ground (arith, str_eq_refl k.fingerprint)),
        IsKnown-later k.fingerprint have _ add (new_keys-IsKnown (k.fingerprint ∷ have) add),
      ))

new_keys-known :
    (have : List Bytes) (add : List Key) → All (IsKnown have) add → new_keys have add ≡ []
unfolding new_keys IsKnown
new_keys-known have [] h = refl
new_keys-known have (k ∷ add) h = rw h.0 (new_keys-known have add h.1)

prints-append : (a b : List Key) → prints (a ++ b) ≡ prints a ++ prints b
prints-append [] b = refl
prints-append (k ∷ a) b = ap (λ x. k.fingerprint ∷ x) (prints-append a b)

prints-unnumbered : (ks : List Key) → prints (map unnumbered ks) ≡ prints ks
prints-unnumbered [] = refl
prints-unnumbered (k ∷ ks) = ap (λ x. k.fingerprint ∷ x) (prints-unnumbered ks)

module _ (cd : Codec) where
  -- A key that some line gave.
  abbrev pub IsRead : Key → Type 0
  IsRead k = (l : Bytes) × (parse_key cd l ≡ key (unnumbered k))

  text-IsLine : (k : Key) → IsRead k → IsLine (text k)
  unfolding text is_space
  text-IsLine k (l, read) =
      let (ws, words, same) = text_words cd l (unnumbered k) read in
      subst IsLine (sym same)
        (free 13 (λ c e. ground arith) refl ws words, free 10 (λ c e. ground arith) refl ws words)
    where
      weaken :
          (b : ℕ)
          → ((c : ℕ) → is_space c ≡ false → (c == b) ≡ false)
          → (s : Bytes) → IsFree is_space s
          → IsFree (λ c. c == b) s
      weaken b f [] h = tt
      weaken b f (c ∷ s) h = (f c h.0, weaken b f s h.1)

      weaken_all :
          (b : ℕ)
          → ((c : ℕ) → is_space c ≡ false → (c == b) ≡ false)
          → (ws : List Bytes) → All (IsWord is_space) ws
          → All (IsFree (λ c. c == b)) ws
      weaken_all b f [] h = tt
      weaken_all b f (w ∷ ws) h = (weaken b f w h.0.0, weaken_all b f ws h.1)

      free :
          (b : ℕ)
          → ((c : ℕ) → is_space c ≡ false → (c == b) ≡ false)
          → (32 == b) ≡ false
          → (ws : List Bytes) → All (IsWord is_space) ws
          → IsFree (λ c. c == b) (join blank ws)
      free b f e ws h = join-All (λ c. (c == b) ≡ false) 32 ws e (weaken_all b f ws h)

  parse_key-blank :
      (l : Bytes) → is_empty (trim_space l) ≡ true → parse_key cd l ≡ refused not_a_key
  unfolding parse_key
  parse_key-blank l e = if-true _ _ _ (ap (λ b. b || has_prefix (codes "#") (trim_space l)) e)

  keys_in-drop_blank : (ls : List Bytes) → keys_in cd (drop_blank ls) ≡ keys_in cd ls
  unfolding drop_blank keys_in result_key maybe
  keys_in-drop_blank [] = refl
  keys_in-drop_blank (l ∷ ls) =
      if-intro (λ ms. keys_in cd ms ≡ keys_in cd (l ∷ ls)) (is_empty (trim_space l)) _ _
        (λ blank. keys_in-drop_blank ls ∙ sym (rw (parse_key-blank l blank) refl))
        (λ _. keep l ls (drop_blank ls) (keys_in-drop_blank ls))
    where
      keep :
          (l : Bytes) (ls : List Bytes) (ms : List Bytes)
          → keys_in cd ms ≡ keys_in cd ls
          → keys_in cd (l ∷ ms) ≡ keys_in cd (l ∷ ls)
      keep l ls ms e =
          ap (λ rest. maybe rest (λ k. unnumbered k ∷ rest) (result_key (parse_key cd l))) e

  drop_blank-IsLine : (ls : List Bytes) → All IsLine ls → All IsLine (drop_blank ls)
  unfolding drop_blank
  drop_blank-IsLine [] h = tt
  drop_blank-IsLine (l ∷ ls) h =
      if-intro (All IsLine) (is_empty (trim_space l)) _ _ (λ _. drop_blank-IsLine ls h.1)
        (λ _. (h.0, drop_blank-IsLine ls h.1))

  new_keys-All :
      (P : Key → Type 0) (have : List Bytes) (add : List Key)
      → All P add
      → All P (new_keys have add)
  unfolding new_keys
  new_keys-All P have [] h = tt
  new_keys-All P have (k ∷ add) h =
      if-intro (All P) (has_text k.fingerprint have) _ _ (λ _. new_keys-All P have add h.1)
        (λ _. (h.0, new_keys-All P (k.fingerprint ∷ have) add h.1))

  texts-IsLine : (ks : List Key) → All IsRead ks → All IsLine (map text ks)
  texts-IsLine [] h = tt
  texts-IsLine (k ∷ ks) h = (text-IsLine k h.0, texts-IsLine ks h.1)

  keys_in-texts : (ks : List Key) → All IsRead ks → keys_in cd (map text ks) ≡ map unnumbered ks
  unfolding keys_in result_key maybe text
  keys_in-texts [] h = refl
  keys_in-texts (k ∷ ks) ((l, read), h) =
      rw (parse_key-text cd l (unnumbered k) read) (ap (λ x. unnumbered k ∷ x) (keys_in-texts ks h))

  -- Adding keys to a file keeps the keys that it has, in their order, and puts behind them exactly the
  -- keys that the result reports as added. The keys to add are such as a line gives.
  pub keys_of-add_all :
      (existing : List Key) (content : Bytes) (add : List Key)
      → All IsRead add
      → keys_of cd (add_all existing content add).0
        ≡ keys_of cd content ++ map unnumbered (add_all existing content add).1
  unfolding add_all kept_lines
  keys_of-add_all existing content add h =
      let added = new_keys (prints existing) add in
      let lines = drop_blank (split_lines content) in
      let good = new_keys-All IsRead (prints existing) add h in
      if-intro (λ (r : Bytes × List Key). keys_of cd r.0 ≡ keys_of cd content ++ map unnumbered r.1)
        (is_empty added) _ _ (λ _. sym (append-nil (keys_of cd content)))
        (λ _.
          keys_of-render cd (lines ++ map text added) (
            All-append IsLine lines (map text added)
              (drop_blank-IsLine (split_lines content) (split_lines-IsLine content))
              (texts-IsLine added good))
          ∙ keys_in-append cd lines (map text added)
          ∙ rw (keys_in-drop_blank (split_lines content), keys_in-texts added good) refl)

  added_keys :
      (existing : List Key) (content : Bytes) (add : List Key)
      → (add_all existing content add).1 ≡ new_keys (prints existing) add
  unfolding add_all
  added_keys existing content add = given _ _ (new_keys (prints existing) add)
    where
      given :
          (c d : Bytes) (added : List Key)
          → let r : Bytes × List Key = if is_empty added then (c, []) else (d, added) in r.1 ≡ added
      given c d [] = refl
      given c d (k ∷ ks) = refl

  prints_after :
      (content : Bytes) (add : List Key)
      → All IsRead add
      → let old = keys_of cd content in
        prints (keys_of cd (add_all old content add).0)
        ≡ prints old ++ prints (new_keys (prints old) add)
  prints_after content add h =
      let old = keys_of cd content in
      let added = (add_all old content add).1 in
      ap prints (keys_of-add_all old content add h)
      ∙ prints-append old (map unnumbered added)
      ∙ ap (λ x. prints old ++ x) (prints-unnumbered added ∙ ap prints (added_keys old content add))

  add_all-again :
      (content : Bytes) (add : List Key)
      → All IsRead add
      → let once = (add_all (keys_of cd content) content add).0 in
        add_all (keys_of cd once) once add ≡ (once, [])
  unfolding add_all IsKnown
  add_all-again content add h =
      let old = keys_of cd content in
      let once = (add_all old content add).0 in
      let all_there : All (IsKnown (prints (keys_of cd once))) add =
        subst (λ p. All (IsKnown p) add) (sym (prints_after content add h))
          (new_keys-IsKnown (prints old) add) in
      let nothing = new_keys-known (prints (keys_of cd once)) add all_there in
      if-true _ _ _ (ap is_empty nothing)

  add_all-prints :
      (a b : List Key) (content : Bytes) (add : List Key)
      → prints a ≡ prints b
      → add_all a content add ≡ add_all b content add
  unfolding add_all
  add_all-prints a b content add e =
      ap
        (λ (have : List Bytes).
          let added = new_keys have add in
          if is_empty added
          then (content, [])
          else (render (kept_lines content ++ map text added), added))
        e

  add_all-NoLoneCr :
      (existing : List Key) (content : Bytes) (add : List Key)
      → All IsRead add
      → NoLoneCr content
      → NoLoneCr (add_all existing content add).0
  unfolding add_all kept_lines
  add_all-NoLoneCr existing content add h no_cr =
      let added = new_keys (prints existing) add in
      if-intro (λ (r : Bytes × List Key). NoLoneCr r.0) (is_empty added) _ _ (λ _. no_cr)
        (λ _. render-NoLoneCr (drop_blank (split_lines content) ++ map text added) (
          All-append IsLine (drop_blank (split_lines content)) (map text added)
            (drop_blank-IsLine (split_lines content) (split_lines-IsLine content))
            (texts-IsLine added (new_keys-All IsRead (prints existing) add h))))

  prints-parse_keys : (s : Bytes) → NoLoneCr s → prints (parse_keys cd s) ≡ prints (keys_of cd s)
  prints-parse_keys s h =
      sym (prints-unnumbered (parse_keys cd s)) ∙ ap prints (parse_keys-keys_of cd s h)

  -- In a file whose carriage returns all stand before a line feed, adding the same keys once more, to the file that
  -- `parseKeys` reads again, adds nothing and leaves the file as it is. The keys to add are such as a line gives.
  pub add_all-twice :
      (content : Bytes) (add : List Key)
      → All IsRead add
      → NoLoneCr content
      → let once = (add_all (parse_keys cd content) content add).0 in
        add_all (parse_keys cd once) once add ≡ (once, [])
  add_all-twice content add h no_cr =
      let same =
        add_all-prints (parse_keys cd content) (keys_of cd content) content add
          (prints-parse_keys content no_cr) in
      let once = (add_all (parse_keys cd content) content add).0 in
      let read =
        prints-parse_keys once (add_all-NoLoneCr (parse_keys cd content) content add h no_cr) in
      add_all-prints (parse_keys cd once) (keys_of cd once) once add read
      ∙ subst (λ (r : Bytes × List Key). add_all (keys_of cd r.0) r.0 add ≡ (r.0, [])) (sym same)
          (add_all-again content add h)
