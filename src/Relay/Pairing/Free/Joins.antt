-- ===== src/Relay/Pairing/Free/Joins.antt =====
-- internal/relay/server.go: the lists of the rooms when a peer joins a room.
use sercon.Prelude.{
  ℕ, ◌≡◌, refl, ap, sym, ◌∙◌, subst, arith, ◌==◌, inl, inr, Bool-cases, false, none, some, List, [],
  ◌∷◌, ◌++◌, Bytes, str_eq, All,
}
use sercon.Prelude.Dict.{nat_key, str_key, get, get-put, has}
use sercon.Relay.Server.{
  Role, publish, attach, Peer, Room, Server, link, set_room, pair_up, publish_in, attach_in,
  join_room, add_peer,
}
use sercon.Relay.Pairing.{Listed, IsRoom, Orderly}
use sercon.Relay.Pairing.Listing.{away-has, elsewhere}
use sercon.Relay.Pairing.Free.{
  Distinct, NotIn, IsFree, Free, has-append, Distinct-append, put-IsFree, link-IsFree,
}

pub set_room-Free :
    (s : Server) (n : Bytes) (r : Room) → Free s → IsFree s.peers r → Free (set_room s n r)
set_room-Free s n r h ok = record {
  each_free = λ n' r' at. elim (Bool-cases (str_eq n n')) [
    | inl same ↦
        let rooms : r ≡ r' = ground (arith, get-put n n' r s.rooms) in
        subst (IsFree s.peers) rooms ok
    | inr other ↦ h.each_free n' r' (ground (arith, get-put n n' r s.rooms))
  ];
}

pub add_peer-Free :
    (s : Server) (i : ℕ) (role : Role) (n : Bytes) → Free s → Free (add_peer s i role n)
add_peer-Free s i role n h = record {
  each_free = λ n' r at.
      put-IsFree s.peers r i (record { role = role; room = n; partner = none }) refl
        (h.each_free n' r at);
}

-- A peer of the room `n` is in no other room.
Listed-NotIn :
    (s : Server) (role : Role) (n : Bytes) (i : ℕ)
    → Orderly s
    → Listed s.peers role n i
    → (n' : Bytes) (r' : Room) → get n' s.rooms ≡ some r'
    → str_eq n n' ≡ false
    → NotIn i r'
Listed-NotIn s role n i h l n' r' at other =
    away-has s i n' r' h at
      (elsewhere s.peers i n' l.peer l.there (ap (λ m. str_eq m n') l.its_room ∙ other))

pair_up-Free :
    (s : Server) (i q : ℕ) (mine theirs : Role) (n : Bytes) (r : Room)
    → Orderly s
    → Free s
    → Listed s.peers mine n i
    → Listed s.peers theirs n q
    → IsFree s.peers r
    → NotIn i r
    → NotIn q r
    → Free (pair_up s i q n r).0
pair_up-Free s i q mine theirs n r o h me them ok no_i no_q = record {
  each_free = λ n' r' at. elim (Bool-cases (str_eq n n')) [
    | inl same ↦
        let rooms : r ≡ r' = ground (arith, get-put n n' r s.rooms) in
        subst (IsFree (link i q s.peers)) rooms (link-IsFree s.peers r i q no_i no_q ok)
    | inr other ↦
        let at' : get n' s.rooms ≡ some r' = ground (arith, get-put n n' r s.rooms) in
        link-IsFree s.peers r' i q (Listed-NotIn s mine n i o me n' r' at' other)
          (Listed-NotIn s theirs n q o them n' r' at' other) (h.each_free n' r' at')
  ];
}

-- A newcomer that is put at the end of a list.
append-alone :
    (ps : List (ℕ × Peer)) (i j q : ℕ) (x p : Peer) (xs : List ℕ)
    → get i ps ≡ some x
    → x.partner ≡ none
    → get j ps ≡ some p
    → p.partner ≡ some q
    → has j xs ≡ false
    → has j (xs ++ i ∷ []) ≡ false
append-alone ps i j q x p xs here lone there it out = elim (Bool-cases (i == j)) [
  | inl same ↦
      let eq : i ≡ j = ground arith in
      let one : x ≡ p = ground (arith, here, there, eq) in cc (one, lone, it)
  | inr other ↦ ground (arith, has-append j i xs)
]

module _ (s : Server) (i : ℕ) (n : Bytes) (r : Room) (o : Orderly s) (h : Free s)
    (room : IsRoom s.peers n r) (ok : IsFree s.peers r) (new : NotIn i r) (x : Peer)
    (here : get i s.peers ≡ some x) (lone : x.partner ≡ none) where
  publish_in-Free :
      (others : List ℕ)
      → Listed s.peers publish n i
      → r.waiting ≡ others
      → Free (publish_in s i n r others).0
  unfolding has
  publish_in-Free [] me w =
      set_room-Free s n (record r { idle = r.idle ++ i ∷ [] }) h
        (record {
          alone = λ j q p there it.
              let out = ok.alone j q p there it in
              (append-alone s.peers i j q x p r.idle here lone there it out.0, out.1);
          idle_once = Distinct-append i r.idle new.0 ok.idle_once;
          waiting_once = ok.waiting_once;
        })
  publish_in-Free (q ∷ rest) me w =
      let listed = subst (All (Listed s.peers attach n)) w room.attachers in
      let once = subst Distinct w ok.waiting_once in
      let no_idle : r.idle ≡ [] = elim room.one_side [ inl e ↦ e | inr e ↦ cc (w, e) ] in
      pair_up-Free s i q publish attach n (record r { waiting = rest }) o h me listed.0
        (record {
          alone = λ j q' p there it.
              let out = ok.alone j q' p there it in
              (out.0, let all = ap (has j) (sym w) ∙ out.1 in ground arith);
          idle_once = ok.idle_once;
          waiting_once = once.1;
        })
        (new.0, let all = ap (has i) (sym w) ∙ new.1 in ground arith) (ap (has q) no_idle, once.0)

  attach_in-Free :
      (others : List ℕ)
      → Listed s.peers attach n i
      → r.idle ≡ others
      → Free (attach_in s i n r others).0
  unfolding has
  attach_in-Free [] me w =
      set_room-Free s n (record r { waiting = r.waiting ++ i ∷ [] }) h
        (record {
          alone = λ j q p there it.
              let out = ok.alone j q p there it in
              (out.0, append-alone s.peers i j q x p r.waiting here lone there it out.1);
          idle_once = ok.idle_once;
          waiting_once = Distinct-append i r.waiting new.1 ok.waiting_once;
        })
  attach_in-Free (q ∷ rest) me w =
      let listed = subst (All (Listed s.peers publish n)) w room.publishers in
      let once = subst Distinct w ok.idle_once in
      let no_waiting : r.waiting ≡ [] = elim room.one_side [ inl e ↦ cc (w, e) | inr e ↦ e ] in
      pair_up-Free s i q attach publish n (record r { idle = rest }) o h me listed.0
        (record {
          alone = λ j q' p there it.
              let out = ok.alone j q' p there it in
              (let all = ap (has j) (sym w) ∙ out.0 in ground arith, out.1);
          idle_once = once.1;
          waiting_once = ok.waiting_once;
        })
        (let all = ap (has i) (sym w) ∙ new.0 in ground arith, new.1)
        (once.0, ap (has q) no_waiting)

  pub join_room-Free : (role : Role) → Listed s.peers role n i → Free (join_room role s i n r).0
  unfolding join_room
  join_room-Free publish me = publish_in-Free r.waiting me refl
  join_room-Free attach me = attach_in-Free r.idle me refl
