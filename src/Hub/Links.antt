-- ===== src/Hub/Links.antt =====
-- internal/hub: the pointers between ports and connections, and what leaves them alone.
pub mod Quiet
pub mod Leave
pub mod Join
pub mod Open
pub mod Register
pub mod Steps
use sercon.Prelude.{
  ℕ, ◌≡◌, sym, ap, ◌∙◌, subst, Bool, true, false, some, List, if◌then◌else◌, Bytes,
}
use sercon.Prelude.Dict.{Key, nat_key, str_key, get, adjust, adjust-get, adjust-inv, has}
use sercon.Hub.Types.{Conn, Port, Manager, is_owner}

-- Ports and connections point to one another: `Port.conns` and `Port.owner` against `Conn.port` and
-- `Conn.writable`.
pub record IsLinked (ps : List (Bytes × Port)) (cs : List (ℕ × Conn)) : Type 0 where
  pub named : (r : Bytes) (p : Port) → get r ps ≡ some p → p.ref ≡ r
  pub owner_joined :
      (r : Bytes) (p : Port) (c : ℕ)
      → get r ps ≡ some p
      → is_owner p.owner c ≡ true
      → has c p.conns ≡ true
  pub joined_bound :
      (r : Bytes) (p : Port) (c : ℕ)
      → get r ps ≡ some p
      → has c p.conns ≡ true
      → (k : Conn) × (get c cs ≡ some k) × (k.port ≡ some r)
  pub bound_joined :
      (c : ℕ) (k : Conn) (r : Bytes)
      → get c cs ≡ some k
      → k.port ≡ some r
      → (p : Port) × (get r ps ≡ some p)
        × (has c p.conns ≡ true)
        × (k.writable ≡ is_owner p.owner c)

-- The same links.
abbrev pub SamePort : Port → Port → Type 0
SamePort p q = (q.ref ≡ p.ref) × (q.conns ≡ p.conns) × (q.owner ≡ p.owner)

abbrev pub SameConn : Conn → Conn → Type 0
SameConn j k = (k.port ≡ j.port) × (k.writable ≡ j.writable)

-- Two maps with the same keys, whose values are related.
pub record Alike {ℓ κ} {K : Type ℓ} {V : Type κ} ⦃e : Key K⦄ (R : V → V → Type 0)
    (d d' : List (K × V)) : Type (ℓ ⊔ κ) where
  pub kept : (k : K) (v : V) → get k d ≡ some v → (w : V) × (get k d' ≡ some w) × R v w
  pub back : (k : K) (w : V) → get k d' ≡ some w → (v : V) × (get k d ≡ some v) × R v w

module _ {K V : Type 0} ⦃e : Key K⦄ (R : V → V → Type 0) where
  pub Alike-refl : ((v : V) → R v v) → (d : List (K × V)) → Alike R d d
  Alike-refl r d = record { kept = λ k v h. (v, h, r v); back = λ k w h. (w, h, r w) }

  pub Alike-trans :
      ((u v w : V) → R u v → R v w → R u w)
      → (a b c : List (K × V)) → Alike R a b
      → Alike R b c
      → Alike R a c
  Alike-trans t a b c p q = record {
    kept = λ k v h.
        let (w, hw, rw') = p.kept k v h in
        let (x, hx, rx) = q.kept k w hw in (x, hx, t v w x rw' rx);
    back = λ k w h.
        let (v, hv, rv) = q.back k w h in let (u, hu, ru) = p.back k v hv in (u, hu, t u v w ru rv);
  }

  pub Alike-adjust :
      ((v : V) → R v v)
      → (k : K) (f : V → V) → ((v : V) → R v (f v))
      → (d : List (K × V)) → Alike R d (adjust k f d)
  Alike-adjust r k f s d = record {
    kept = λ j v h. (if e.beq k j then f v else v, adjust-get k j f d h, at (e.beq k j) v);
    back = λ j w h.
        let (v, hv, eq) = adjust-inv k j f d h in (v, hv, subst (R v) (sym eq) (at (e.beq k j) v));
  }
    where
      at : (b : Bool) (v : V) → R v (if b then f v else v)
      at true v = s v
      at false v = r v

-- The links of one manager are those of the other.
pub record SameLinks (m m' : Manager) : Type 0 where
  pub ports_alike : Alike SamePort m.ports m'.ports
  pub conns_alike : Alike SameConn m.conns m'.conns

pub SameLinks-IsLinked :
    (m m' : Manager) → SameLinks m m' → IsLinked m.ports m.conns → IsLinked m'.ports m'.conns
SameLinks-IsLinked m m' s h = record {
  named = λ r q e. let (p, hp, same) = s.ports_alike.back r q e in same.0 ∙ h.named r p hp;
  owner_joined = λ r q c e o.
      let (p, hp, same) = s.ports_alike.back r q e in
      let o' : is_owner p.owner c ≡ true = ap (λ x. is_owner x c) (sym same.2) ∙ o in
      ap (has c) same.1 ∙ h.owner_joined r p c hp o';
  joined_bound = λ r q c e o.
      let (p, hp, same) = s.ports_alike.back r q e in
      let o' : has c p.conns ≡ true = ap (has c) (sym same.1) ∙ o in
      let (k, hk, bk) = h.joined_bound r p c hp o' in
      let (j, hj, sj) = s.conns_alike.kept c k hk in (j, hj, sj.0 ∙ bk);
  bound_joined = λ c j r e b.
      let (k, hk, sk) = s.conns_alike.back c j e in
      let (p, hp, joined, w) = h.bound_joined c k r hk (sym sk.0 ∙ b) in
      let (q, hq, sq) = s.ports_alike.kept r p hp in
      (q, hq, ap (has c) sq.1 ∙ joined, sk.1 ∙ w ∙ ap (λ x. is_owner x c) (sym sq.2));
}
