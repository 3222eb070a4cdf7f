-- ===== src/Client/Args/Order.antt =====
-- cmd/sercon/main.go: the new order of the arguments, as package flag reads it.
use sercon.Prelude.{
  ◌≡◌, refl, ap, ◌∙◌, subst, inl, inr, Bool, true, false, not, Option, none, some, List, [], ◌∷◌,
  ◌++◌, arith, Option-cases, maybe, All, Bytes,
}
use sercon.Client.Args.{sort_args, wants_next, reorder_args}
use sercon.Client.Args.Flags.{
  Word, positional, terminator, bad, flag, word_of, Reading, add_flag, add_positional, needs, met,
  parse, parse_word, gather, gather_word,
}
use sercon.Client.Args.Words.{takes_next, flag-IsFlag, positional-plain}

abbrev Plain : List Bytes → Type 0
Plain q = All (λ a. word_of a ≡ positional) q

abbrev is_given : Option Bytes → Bool
is_given none = false
is_given (some n) = true

module _ (lookup : Bytes → Option Bool) where
  parse-Plain : (q : List Bytes) → Plain q → parse lookup none q ≡ some ([], q)
  unfolding parse parse_word
  parse-Plain [] h = refl
  parse-Plain (a ∷ q) h = rw h.0 refl

  abbrev sorted : Option Bytes → List Bytes → List Bytes × List Bytes
  sorted pend args = sort_args (needs lookup) (is_given pend) args

  -- The flags of the new order read as those of a meaning, whatever positional arguments follow.
  record Reads (pend : Option Bytes) (args : List Bytes)
      (p : List (Bytes × Option Bytes) × List Bytes) : Type 0 where
    rest : (sorted pend args).1 ≡ p.1
    plain : Plain (sorted pend args).1
    read :
        (q : List Bytes) → Plain q → parse lookup pend ((sorted pend args).0 ++ q) ≡ some (p.0, q)

  abbrev Meant : Option Bytes → List Bytes → Reading → Type 0
  Meant pend args r =
      (p : List (Bytes × Option Bytes) × List Bytes) → r ≡ some p → Reads pend args p

  value-Reads :
      (n a : Bytes) (args : List Bytes)
      → Meant none args (gather lookup none args)
      → Meant (some n) (a ∷ args) (gather lookup (some n) (a ∷ args))
  unfolding gather parse sort_args add_flag maybe
  value-Reads n a args ih p h = elim (Option-cases (gather lookup none args)) [
    | inl gone ↦ ground (arith, gone, h)
    | inr (p', there) ↦
        let it = ih p' there in
        let same : ((n, some a) ∷ p'.0, p'.1) ≡ p = ground (arith, there, h) in
        subst (Reads (some n) (a ∷ args)) same
          (record { rest = it.rest; plain = it.plain; read = λ q plain. rw (it.read q plain) refl })
  ]

  plain-Reads :
      (a : Bytes) (args : List Bytes)
      → word_of a ≡ positional
      → Meant none args (gather lookup none args)
      → Meant none (a ∷ args) (add_positional a (gather lookup none args))
  unfolding sort_args add_positional maybe
  plain-Reads a args word ih p h = elim (Option-cases (gather lookup none args)) [
    | inl gone ↦ ground (arith, gone, h)
    | inr (p', there) ↦
        let it = ih p' there in
        let (no_end, plain) = positional-plain lookup a word in
        let same : (p'.0, a ∷ p'.1) ≡ p = ground (arith, there, h) in
        subst (Reads none (a ∷ args)) same (record {
          rest = rw (no_end, plain) (ap (λ x. a ∷ x) it.rest);
          plain = rw (no_end, plain) (word, it.plain);
          read = λ q all. rw (no_end, plain) (it.read q all);
        })
  ]

  -- A flag that stands by itself.
  flag_alone-Reads :
      (a n : Bytes) (v : Option Bytes) (args : List Bytes)
      → word_of a ≡ flag n v
      → takes_next lookup n v ≡ false
      → ((rest taken : Reading) → met lookup n v (lookup n) rest taken ≡ add_flag n v rest)
      → Meant none args (gather lookup none args)
      → Meant none (a ∷ args) (add_flag n v (gather lookup none args))
  unfolding parse parse_word sort_args add_flag maybe
  flag_alone-Reads a n v args word alone m ih p h = elim (Option-cases (gather lookup none args)) [
    | inl gone ↦ ground (arith, gone, h)
    | inr (p', there) ↦
        let it = ih p' there in
        let f = flag-IsFlag lookup a n v word in
        let off = f.wants ∙ alone in
        let same : ((n, v) ∷ p'.0, p'.1) ≡ p = ground (arith, there, h) in
        subst (Reads none (a ∷ args)) same (record {
          rest = rw (f.no_end, f.no_positional, off) it.rest;
          plain = rw (f.no_end, f.no_positional, off) it.plain;
          read = λ q all.
              rw (f.no_end, f.no_positional, off)
                (rw word (m _ _ ∙ ap (add_flag n v) (it.read q all)));
        })
  ]

  -- A flag whose value is the next argument.
  flag_takes-Reads :
      (a n : Bytes) (args : List Bytes)
      → word_of a ≡ flag n none
      → lookup n ≡ some false
      → Meant (some n) args (gather lookup (some n) args)
      → Meant none (a ∷ args) (gather lookup (some n) args)
  unfolding parse parse_word met sort_args needs maybe
  flag_takes-Reads a n args word known ih p h =
      let it = ih p h in
      let f = flag-IsFlag lookup a n none word in
      let on : wants_next (needs lookup) a ≡ true = f.wants ∙ ap (maybe false not) known in
      record {
        rest = rw (f.no_end, f.no_positional, on) it.rest;
        plain = rw (f.no_end, f.no_positional, on) it.plain;
        read = λ q all. rw (f.no_end, f.no_positional, on) (rw (word, known) (it.read q all));
      }

  flag-Reads :
      (a n : Bytes) (v : Option Bytes) (b : Option Bool) (args : List Bytes)
      → word_of a ≡ flag n v
      → lookup n ≡ b
      → Meant none args (gather lookup none args)
      → Meant (some n) args (gather lookup (some n) args)
      → Meant none
          (a ∷ args)
          (met lookup n v b (gather lookup none args) (gather lookup (some n) args))
  unfolding met needs maybe
  flag-Reads a n v none args word known ih taken p h = cc h
  flag-Reads a n (some w) (some b) args word known ih taken p h =
      flag_alone-Reads a n (some w) args word refl (λ r t. rw known refl) ih p h
  flag-Reads a n none (some true) args word known ih taken p h =
      flag_alone-Reads a n none args word (ap (maybe false not) known) (λ r t. rw known refl) ih p h
  flag-Reads a n none (some false) args word known ih taken p h =
      flag_takes-Reads a n args word known taken p h

  word-Reads :
      (w : Word) (a : Bytes) (args : List Bytes)
      → word_of a ≡ w
      → Meant none args (gather lookup none args)
      → ((n : Bytes) → Meant (some n) args (gather lookup (some n) args))
      → Meant none
          (a ∷ args)
          (gather_word lookup w a (gather lookup none args) (λ n. gather lookup (some n) args))
  unfolding gather_word
  word-Reads positional a args word ih taken p h = plain-Reads a args word ih p h
  word-Reads terminator a args word ih taken p h = cc h
  word-Reads bad a args word ih taken p h = cc h
  word-Reads (flag n v) a args word ih taken p h =
      flag-Reads a n v (lookup n) args word refl ih (taken n) p h

  gather-Reads :
      (pend : Option Bytes) (args : List Bytes) → Meant pend args (gather lookup pend args)
  unfolding gather parse sort_args
  gather-Reads (some n) [] p h = cc h
  gather-Reads (some n) (a ∷ args) p h = value-Reads n a args (gather-Reads none args) p h
  gather-Reads none [] p h =
      let same : ([], []) ≡ p = ground (arith, h) in
      subst (Reads none []) same (record { rest = refl; plain = tt; read = parse-Plain })
  gather-Reads none (a ∷ args) p h =
      word-Reads (word_of a) a args refl (gather-Reads none args) (λ n. gather-Reads (some n) args)
        p h

  -- For arguments that mean something with flags anywhere (no `--`, only known flags, each with its value), package
  -- flag, which stops at the first argument that is no flag, reads the new order as just that meaning: the same flags
  -- with the same values in their order, and the same positional arguments.
  pub parse-reorder_args :
      (args : List Bytes) (p : List (Bytes × Option Bytes) × List Bytes)
      → gather lookup none args ≡ some p
      → parse lookup none (reorder_args (needs lookup) args) ≡ some p
  unfolding reorder_args
  parse-reorder_args args p h =
      let it = gather-Reads none args p h in
      it.read (sorted none args).1 it.plain ∙ ap (λ ps. some (p.0, ps)) it.rest
