-- ===== src/Hub/Links/Join.antt =====
-- internal/hub/conn.go: the end of `handleOpen` puts a connection with no port on one that nobody else
-- owns, or beside its owner.
use sercon.Prelude.{
  ℕ, ◌≡◌, refl, sym, ap, ◌∙◌, inl, inr, Bool, true, false, ◌||◌, none, some, List, arith, ◌==◌,
  if◌then◌else◌, Bool-cases, ℤ, Bytes, str_eq, str_eq_iff, str_eq_refl,
}
use sercon.Prelude.Dict.{nat_key, str_key, get, adjust, adjust-get, adjust-inv, has, has-include}
use sercon.Hub.Types.{Conn, Port, is_owner}
use sercon.Hub.Session.{join_port, bound, held_by_other}
use sercon.Hub.Links.{IsLinked}

join-has :
    (c d : ℕ) (want : Bool) (baud : ℤ) (p : Port)
    → has d (join_port c want baud p).conns ≡ (c == d || has d p.conns)
join-has c d want baud p = has-include c d p.conns

join-owner :
    (c d : ℕ) (want : Bool) (baud : ℤ) (p : Port)
    → is_owner (join_port c want baud p).owner d ≡ (if want then c == d else is_owner p.owner d)
join-owner c d want baud p = ground arith

module _ (ps : List (Bytes × Port)) (cs : List (ℕ × Conn)) (c : ℕ) (k : Conn) (r : Bytes) (p : Port)
    (want : Bool) (baud : ℤ) (now : ℕ) (h : IsLinked ps cs) (here : get c cs ≡ some k)
    (off : k.port ≡ none) (there : get r ps ≡ some p)
    (free : want ≡ true → held_by_other p.owner c ≡ false) where
  abbrev ps' : List (Bytes × Port)
  ps' = adjust r (join_port c want baud) ps

  abbrev cs' : List (ℕ × Conn)
  cs' = adjust c (bound r want now) cs

  join_named : (s : Bytes) (q : Port) → get s ps' ≡ some q → q.ref ≡ s
  join_named s q e =
      let (o, ho, eq) = adjust-inv r s (join_port c want baud) ps e in
      ground (arith, h.named s o ho)

  join_owner_joined :
      (s : Bytes) (q : Port) (d : ℕ)
      → get s ps' ≡ some q
      → is_owner q.owner d ≡ true
      → has d q.conns ≡ true
  join_owner_joined s q d e x =
      let (o, ho, eq) = adjust-inv r s (join_port c want baud) ps e in
      ground (arith, join-owner c d want baud o, join-has c d want baud o, h.owner_joined s o d ho)

  -- The connection is on no port yet.
  not_joined : (s : Bytes) (o : Port) → get s ps ≡ some o → has c o.conns ≡ false
  not_joined s o ho = elim (Bool-cases (has c o.conns)) [
    | inl joined ↦ let (j, hj, bj) = h.joined_bound s o c ho joined in ground arith
    | inr apart ↦ apart
  ]

  join_joined_bound :
      (s : Bytes) (q : Port) (d : ℕ)
      → get s ps' ≡ some q
      → has d q.conns ≡ true
      → (j : Conn) × (get d cs' ≡ some j) × (j.port ≡ some s)
  join_joined_bound s q d e x = elim (Bool-cases (c == d)) [
    | inl self ↦
        let (o, ho, eq) = adjust-inv r s (join_port c want baud) ps e in
        let mine : str_eq r s ≡ true = ground (arith, not_joined s o ho) in
        (
          bound r want now k,
          ground (arith, adjust-get c c (bound r want now) cs here),
          ground (arith, str_eq_iff r s),
        )
    | inr apart ↦
        let (o, ho, eq) = adjust-inv r s (join_port c want baud) ps e in
        let was : has d o.conns ≡ true = ground (arith, join-has c d want baud o) in
        let (j, hj, bj) = h.joined_bound s o d ho was in
        (j, ground (arith, adjust-get c d (bound r want now) cs hj), bj)
  ]

  -- Nobody else gains or loses the port.
  join_keeps :
      (d : ℕ) (s : Bytes) (o : Port) (b : Bool)
      → str_eq r s ≡ b
      → (c == d) ≡ false
      → get s ps ≡ some o
      → is_owner (if b then join_port c want baud o else o).owner d ≡ is_owner o.owner d
  join_keeps d s o false e apart ho = refl
  join_keeps d s o true e apart ho =
      let to : r ≡ s = (str_eq_iff r s).0 e in
      let same : get r ps ≡ some o = rw to ho in ground (arith, join-owner c d want baud o, free)

  join_bound_joined :
      (d : ℕ) (j : Conn) (s : Bytes)
      → get d cs' ≡ some j
      → j.port ≡ some s
      → (q : Port) × (get s ps' ≡ some q)
        × (has d q.conns ≡ true)
        × (j.writable ≡ is_owner q.owner d)
  join_bound_joined d j s e b = elim (Bool-cases (c == d)) [
    | inl self ↦
        let (i, hi, eq) = adjust-inv c d (bound r want now) cs e in
        let to : r ≡ s = ground arith in
        (
          join_port c want baud p,
          rw (← to)
              (ground (arith, adjust-get r r (join_port c want baud) ps there, str_eq_refl r)),
          ground (arith, join-has c d want baud p),
          ground
              (arith, join-owner c d want baud p, not_joined r p there, h.owner_joined r p c there),
        )
    | inr apart ↦
        let (i, hi, eq) = adjust-inv c d (bound r want now) cs e in
        let same : j ≡ i = ground arith in
        let (o, ho, joined, w) = h.bound_joined d i s hi (ground arith) in
        (
          if str_eq r s then join_port c want baud o else o,
          adjust-get r s (join_port c want baud) ps ho,
          ground (arith, join-has c d want baud o),
          ap (λ (x : Conn). x.writable) same
              ∙ w
              ∙ sym (join_keeps d s o (str_eq r s) refl apart ho),
        )
  ]

  pub join-IsLinked : IsLinked ps' cs'
  join-IsLinked = record {
    named = join_named;
    owner_joined = join_owner_joined;
    joined_bound = join_joined_bound;
    bound_joined = join_bound_joined;
  }
