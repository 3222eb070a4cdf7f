-- ===== src/Hub/Links/Leave.antt =====
-- internal/hub/conn.go: the links under `detach`.
use sercon.Prelude.{
  ℕ, ◌≡◌, refl, ap, ◌∙◌, true, false, Option, none, some, List, arith, ◌==◌, if◌then◌else◌,
  maybe-intro, Bytes, str_eq, str_eq_iff,
}
use sercon.Prelude.Dict.{nat_key, str_key, get, adjust, adjust-get, adjust-inv, has, has-exclude}
use sercon.Hub.Types.{Reason, Conn, Port, Manager, is_owner}
use sercon.Hub.Session.{leave_port, unbound, detach_from, detach}
use sercon.Hub.Links.{IsLinked}

-- What `leave_port` makes of the set and of the owner.
pub leave-has :
    (c d : ℕ) (k : Conn) (why : Reason) (p : Port)
    → has d (leave_port c k why p).conns ≡ (if c == d then false else has d p.conns)
leave-has c d k why p = ground (arith, has-exclude c d p.conns)

leave-owner :
    (c d : ℕ) (k : Conn) (why : Reason) (p : Port)
    → is_owner (leave_port c k why p).owner d ≡ (if c == d then false else is_owner p.owner d)
leave-owner c d k why p = ground arith

leave-ref : (c : ℕ) (k : Conn) (why : Reason) (p : Port) → (leave_port c k why p).ref ≡ p.ref
leave-ref c k why p = ground arith

module _ (ps : List (Bytes × Port)) (cs : List (ℕ × Conn)) (c : ℕ) (k : Conn) (r : Bytes)
    (why : Reason) (h : IsLinked ps cs) (here : get c cs ≡ some k) (on : k.port ≡ some r) where
  abbrev ps' : List (Bytes × Port)
  ps' = adjust r (leave_port c k why) ps

  abbrev cs' : List (ℕ × Conn)
  cs' = adjust c unbound cs

  leave_named : (s : Bytes) (q : Port) → get s ps' ≡ some q → q.ref ≡ s
  leave_named s q e =
      let (p, hp, eq) = adjust-inv r s (leave_port c k why) ps e in
      ground (arith, leave-ref c k why p, h.named s p hp)

  leave_owner_joined :
      (s : Bytes) (q : Port) (d : ℕ)
      → get s ps' ≡ some q
      → is_owner q.owner d ≡ true
      → has d q.conns ≡ true
  leave_owner_joined s q d e o =
      let (p, hp, eq) = adjust-inv r s (leave_port c k why) ps e in
      ground (arith, leave-owner c d k why p, leave-has c d k why p, h.owner_joined s p d hp)

  leave_joined_bound :
      (s : Bytes) (q : Port) (d : ℕ)
      → get s ps' ≡ some q
      → has d q.conns ≡ true
      → (j : Conn) × (get d cs' ≡ some j) × (j.port ≡ some s)
  leave_joined_bound s q d e o =
      let (p, hp, eq) = adjust-inv r s (leave_port c k why) ps e in
      let was : has d p.conns ≡ true = ground (arith, leave-has c d k why p) in
      let (j, hj, bj) = h.joined_bound s p d hp was in
      let other : (c == d) ≡ false = ground (arith, leave-has c d k why p, str_eq_iff r s) in
      (j, ground (arith, adjust-get c d unbound cs hj), bj)

  leave_bound_joined :
      (d : ℕ) (j : Conn) (s : Bytes)
      → get d cs' ≡ some j
      → j.port ≡ some s
      → (q : Port) × (get s ps' ≡ some q)
        × (has d q.conns ≡ true)
        × (j.writable ≡ is_owner q.owner d)
  leave_bound_joined d j s e b =
      let (i, hi, eq) = adjust-inv c d unbound cs e in
      let other : (c == d) ≡ false = ground arith in
      let same : j ≡ i = ground arith in
      let (p, hp, joined, w) = h.bound_joined d i s hi (ground arith) in
      (
        if str_eq r s then leave_port c k why p else p,
        adjust-get r s (leave_port c k why) ps hp,
        ground (arith, leave-has c d k why p),
        ground (arith, leave-owner c d k why p),
      )

  pub leave-IsLinked : IsLinked ps' cs'
  leave-IsLinked = record {
    named = leave_named;
    owner_joined = leave_owner_joined;
    joined_bound = leave_joined_bound;
    bound_joined = leave_bound_joined;
  }

module _ (ps : List (Bytes × Port)) (cs : List (ℕ × Conn)) (c : ℕ) (k : Conn) (h : IsLinked ps cs)
    (here : get c cs ≡ some k) (off : k.port ≡ none) where
  unbound_joined :
      (s : Bytes) (p : Port) (d : ℕ)
      → get s ps ≡ some p
      → has d p.conns ≡ true
      → (j : Conn) × (get d (adjust c unbound cs) ≡ some j) × (j.port ≡ some s)
  unbound_joined s p d hp o =
      let (j, hj, bj) = h.joined_bound s p d hp o in
      let other : (c == d) ≡ false = ground arith in
      (j, ground (arith, adjust-get c d unbound cs hj), bj)

  unbound_bound :
      (d : ℕ) (j : Conn) (s : Bytes)
      → get d (adjust c unbound cs) ≡ some j
      → j.port ≡ some s
      → (p : Port) × (get s ps ≡ some p)
        × (has d p.conns ≡ true)
        × (j.writable ≡ is_owner p.owner d)
  unbound_bound d j s e b =
      let (i, hi, eq) = adjust-inv c d unbound cs e in
      let same : j ≡ i = ground arith in
      let (p, hp, joined, w) = h.bound_joined d i s hi (ground arith) in
      (p, hp, joined, ground arith)

  -- A connection with no port may be marked so once more.
  unbound-IsLinked : IsLinked ps (adjust c unbound cs)
  unbound-IsLinked = record {
    named = h.named;
    owner_joined = h.owner_joined;
    joined_bound = unbound_joined;
    bound_joined = unbound_bound;
  }

detach_from-IsLinked :
    (m : Manager) (c : ℕ) (k : Conn) (why : Reason) (o : Option Bytes)
    → IsLinked m.ports m.conns
    → get c m.conns ≡ some k
    → k.port ≡ o
    → IsLinked (detach_from m c k why o).ports (detach_from m c k why o).conns
unfolding detach_from
detach_from-IsLinked m c k why none h here off = unbound-IsLinked m.ports m.conns c k h here off
detach_from-IsLinked m c k why (some r) h here on =
    leave-IsLinked m.ports m.conns c k r why h here on

pub detach-IsLinked :
    (m : Manager) (c : ℕ) (why : Reason)
    → IsLinked m.ports m.conns
    → IsLinked (detach m c why).ports (detach m c why).conns
unfolding detach
detach-IsLinked m c why h =
    maybe-intro (λ (x : Manager). IsLinked x.ports x.conns) _ _ (get c m.conns) (λ _. h)
      (λ k here. detach_from-IsLinked m c k why k.port h here refl)

detach_from-conns :
    (m : Manager) (c : ℕ) (k : Conn) (why : Reason) (o : Option Bytes)
    → (detach_from m c k why o).conns ≡ adjust c unbound m.conns
unfolding detach_from
detach_from-conns m c k why none = refl
detach_from-conns m c k why (some r) = refl

-- `detach` takes the port from the connection, and does nothing else to a connection.
pub detach-conns :
    (m : Manager) (c : ℕ) (why : Reason) {k : Conn}
    → get c m.conns ≡ some k
    → (detach m c why).conns ≡ adjust c unbound m.conns
unfolding detach
detach-conns m c why {k} e = ground (arith, detach_from-conns m c k why k.port)

pub detach-get :
    (m : Manager) (c : ℕ) (why : Reason) {k : Conn}
    → get c m.conns ≡ some k
    → get c (detach m c why).conns ≡ some (unbound k)
detach-get m c why {k} e =
    ap (get c) (detach-conns m c why e) ∙ ground (arith, adjust-get c c unbound m.conns e)
