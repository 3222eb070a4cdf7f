-- ===== src/Hub/Links/Register.antt =====
-- internal/hub: the links of what enters the maps and of what leaves them.
use sercon.Prelude.{
  ℕ, ◌≡◌, refl, inl, inr, Option, none, some, List, [], arith, Bool-cases, if-intro, Bytes, str_eq,
  str_eq_iff,
}
use sercon.Prelude.Dict.{nat_key, str_key, get, put, delete, get-put, get-delete, has}
use sercon.Hub.Types.{Options, Conn, Port, Manager}
use sercon.Hub.Manager.{Device, new_port, register}
use sercon.Hub.Loop.{unregister, new_conn, serve, accept_step}
use sercon.Hub.Links.{IsLinked}
use sercon.Hub.Links.Open.{Linked}

drop-IsLinked :
    (ps : List (Bytes × Port)) (cs : List (ℕ × Conn)) (c : ℕ) (k : Conn)
    → IsLinked ps cs
    → get c cs ≡ some k
    → k.port ≡ none
    → IsLinked ps (delete c cs)
drop-IsLinked ps cs c k h here off = record {
  named = h.named;
  owner_joined = h.owner_joined;
  joined_bound = λ r p d e x.
      let (j, hj, bj) = h.joined_bound r p d e x in (j, ground (arith, get-delete c d cs), bj);
  bound_joined = λ d j r e b. h.bound_joined d j r (ground (arith, get-delete c d cs)) b;
}

pub unregister-Linked :
    (m : Manager) (c : ℕ) {k : Conn}
    → Linked m
    → get c m.conns ≡ some k
    → k.port ≡ none
    → Linked (unregister m c)
unregister-Linked m c {k} h here off = record {
  links = drop-IsLinked m.ports m.conns c k h.links here off;
}

enter-IsLinked :
    (ps : List (Bytes × Port)) (cs : List (ℕ × Conn)) (c : ℕ) (k : Conn)
    → IsLinked ps cs
    → get c cs ≡ none
    → k.port ≡ none
    → IsLinked ps (put c k cs)
enter-IsLinked ps cs c k h free off = record {
  named = h.named;
  owner_joined = h.owner_joined;
  joined_bound = λ r p d e x.
      let (j, hj, bj) = h.joined_bound r p d e x in (j, ground (arith, get-put c d k cs), bj);
  bound_joined = λ d j r e b. h.bound_joined d j r (ground (arith, get-put c d k cs)) b;
}

pub accept-Linked :
    (m : Manager) (c : ℕ) (remote session : Bytes) (o : Option Conn)
    → Linked m
    → get c m.conns ≡ o
    → Linked (accept_step m c remote session o)
unfolding serve
accept-Linked m c remote session none h free =
    if-intro Linked m.closed _ _ (λ _. h)
      (λ _. record {
        links = enter-IsLinked m.ports m.conns c (new_conn remote session) h.links free refl;
      })
accept-Linked m c remote session (some k) h free = h

new_port-ref : (o : Options) (d : Device) → (new_port o d).ref ≡ d.ref
unfolding new_port
new_port-ref o d = ground arith

new_port-conns : (o : Options) (d : Device) → (new_port o d).conns ≡ []
unfolding new_port
new_port-conns o d = ground arith

new_port-owner : (o : Options) (d : Device) → (new_port o d).owner ≡ none
unfolding new_port
new_port-owner o d = ground arith

-- A new port has nobody on it.
register-IsLinked :
    (ps : List (Bytes × Port)) (cs : List (ℕ × Conn)) (r : Bytes) (p : Port)
    → IsLinked ps cs
    → get r ps ≡ none
    → p.ref ≡ r
    → p.conns ≡ []
    → p.owner ≡ none
    → IsLinked (put r p ps) cs
unfolding has
register-IsLinked ps cs r p h free ref nobody unowned = record {
  named = λ s q e. elim (Bool-cases (str_eq r s)) [
    | inl at ↦ ground (arith, get-put r s p ps, str_eq_iff r s)
    | inr off ↦ h.named s q (ground (arith, get-put r s p ps))
  ];
  owner_joined = λ s q c e x. h.owner_joined s q c (ground (arith, get-put r s p ps)) x;
  joined_bound = λ s q c e x. h.joined_bound s q c (ground (arith, get-put r s p ps)) x;
  bound_joined = λ c k s e b.
      let (q, hq, joined, w) = h.bound_joined c k s e b in
      (q, ground (arith, get-put r s p ps, str_eq_iff r s), joined, w);
}

pub register-Linked :
    (m : Manager) (d : Device) → Linked m → get d.ref m.ports ≡ none → Linked (register m d)
register-Linked m d h free = record {
  links =
      register-IsLinked m.ports m.conns d.ref (new_port m.opts d) h.links free
        (new_port-ref m.opts d) (new_port-conns m.opts d) (new_port-owner m.opts d);
}
