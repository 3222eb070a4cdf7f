-- ===== src/Relay/Pairing.antt =====
-- internal/relay/server.go: the rooms and the peers that they list.
pub mod Runs
pub mod Partners
pub mod Listing
pub mod Free
use sercon.Prelude.{
  ℕ, ◌≡◌, refl, ◌∙◌, subst, ◌⊎◌, inl, inr, false, none, some, List, [], ◌∷◌, ◌++◌, arith, ◌==◌,
  if◌then◌else◌, Bool-cases, All, All-append, Bytes, str_eq, str_eq_iff,
}
use sercon.Prelude.Dict.{nat_key, str_key, get, put, adjust, get-put, adjust-get}
use sercon.Relay.Server.{
  Role, publish, attach, Peer, Room, Server, set_partner, link, set_room, pair_up, publish_in,
  attach_in, join_room,
}

-- A peer that a room may list.
pub record Listed (ps : List (ℕ × Peer)) (role : Role) (n : Bytes) (q : ℕ) : Type 0 where
  pub peer : Peer
  pub there : get q ps ≡ some peer
  pub its_role : peer.role ≡ role
  pub its_room : peer.room ≡ n

pub record IsRoom (ps : List (ℕ × Peer)) (n : Bytes) (r : Room) : Type 0 where
  pub one_side : (r.idle ≡ []) ⊎ (r.waiting ≡ [])
  pub publishers : All (Listed ps publish n) r.idle
  pub attachers : All (Listed ps attach n) r.waiting

pub record Orderly (s : Server) : Type 0 where
  pub each_room : (n : Bytes) (r : Room) → get n s.rooms ≡ some r → IsRoom s.peers n r

-- Every peer is kept, with its role and its room.
pub record Extends (ps ps' : List (ℕ × Peer)) : Type 0 where
  kept :
      (q : ℕ) (x : Peer)
      → get q ps ≡ some x
      → (y : Peer) × (get q ps' ≡ some y) × (y.role ≡ x.role) × (y.room ≡ x.room)

pub All-map :
    {A : Type 0} (P Q : A → Type 0) (xs : List A) → ((x : A) → P x → Q x) → All P xs → All Q xs
All-map P Q [] f h = tt
All-map P Q (x ∷ xs) f h = (f x h.0, All-map P Q xs f h.1)

Extends-Listed :
    (ps ps' : List (ℕ × Peer)) (role : Role) (n : Bytes)
    → Extends ps ps'
    → (q : ℕ) → Listed ps role n q
    → Listed ps' role n q
Extends-Listed ps ps' role n e q l =
    let (y, hy, same_role, same_room) = e.kept q l.peer l.there in
    record {
      peer = y;
      there = hy;
      its_role = same_role ∙ l.its_role;
      its_room = same_room ∙ l.its_room;
    }

pub Extends-IsRoom :
    (ps ps' : List (ℕ × Peer)) (n : Bytes) (r : Room)
    → Extends ps ps'
    → IsRoom ps n r
    → IsRoom ps' n r
Extends-IsRoom ps ps' n r e h = record {
  one_side = h.one_side;
  publishers =
      All-map (Listed ps publish n) (Listed ps' publish n) r.idle
        (Extends-Listed ps ps' publish n e) h.publishers;
  attachers =
      All-map (Listed ps attach n) (Listed ps' attach n) r.waiting
        (Extends-Listed ps ps' attach n e) h.attachers;
}

pub Extends-put :
    (ps : List (ℕ × Peer)) (i : ℕ) (x : Peer) → get i ps ≡ none → Extends ps (put i x ps)
Extends-put ps i x fresh = record {
  kept = λ q y h.
      let other : (i == q) ≡ false = ground arith in
      (y, ground (arith, get-put i q x ps), refl, refl);
}

Extends-partner : (ps : List (ℕ × Peer)) (i q : ℕ) → Extends ps (adjust i (set_partner q) ps)
Extends-partner ps i q = record {
  kept = λ j x h. (
    if i == j then set_partner q x else x,
    adjust-get i j (set_partner q) ps h,
    ground arith,
    ground arith,
  );
}

Extends-trans : (a b c : List (ℕ × Peer)) → Extends a b → Extends b c → Extends a c
Extends-trans a b c h k = record {
  kept = λ q x e.
      let (y, hy, r, n) = h.kept q x e in
      let (z, hz, r', n') = k.kept q y hy in (z, hz, r' ∙ r, n' ∙ n);
}

Extends-link : (ps : List (ℕ × Peer)) (i q : ℕ) → Extends ps (link i q ps)
unfolding link
Extends-link ps i q =
    Extends-trans ps (adjust i (set_partner q) ps) _ (Extends-partner ps i q)
      (Extends-partner (adjust i (set_partner q) ps) q i)

pub set_room-Orderly :
    (s : Server) (n : Bytes) (r : Room) → Orderly s → IsRoom s.peers n r → Orderly (set_room s n r)
set_room-Orderly s n r h ok = record {
  each_room = λ n' r' e. elim (Bool-cases (str_eq n n')) [
    | inl same ↦
        let names : n ≡ n' = ground (arith, str_eq_iff n n') in
        let rooms : r ≡ r' = ground (arith, get-put n n' r s.rooms) in
        subst (λ x. IsRoom s.peers x r') names (subst (λ x. IsRoom s.peers n x) rooms ok)
    | inr other ↦ h.each_room n' r' (ground (arith, get-put n n' r s.rooms))
  ];
}

pub extend-Orderly :
    (s : Server) (ps : List (ℕ × Peer))
    → Extends s.peers ps
    → Orderly s
    → Orderly (record s { peers = ps })
extend-Orderly s ps e h = record {
  each_room = λ n r at. Extends-IsRoom s.peers ps n r e (h.each_room n r at);
}

pair_up-Orderly :
    (s : Server) (i q : ℕ) (n : Bytes) (r : Room)
    → Orderly s
    → IsRoom s.peers n r
    → Orderly (pair_up s i q n r).0
pair_up-Orderly s i q n r h ok =
    extend-Orderly (set_room s n r) (link i q s.peers) (Extends-link s.peers i q)
      (set_room-Orderly s n r h ok)

publish_in-Orderly :
    (s : Server) (i : ℕ) (n : Bytes) (r : Room) (others : List ℕ)
    → Orderly s
    → IsRoom s.peers n r
    → Listed s.peers publish n i
    → r.waiting ≡ others
    → Orderly (publish_in s i n r others).0
publish_in-Orderly s i n r [] h ok me w =
    set_room-Orderly s n (record r { idle = r.idle ++ i ∷ [] }) h
      (record {
        one_side = inr w;
        publishers = All-append (Listed s.peers publish n) r.idle (i ∷ []) ok.publishers (me, tt);
        attachers = ok.attachers;
      })
publish_in-Orderly s i n r (q ∷ rest) h ok me w =
    let listed : All (Listed s.peers attach n) (q ∷ rest) =
      subst (All (Listed s.peers attach n)) w ok.attachers in
    pair_up-Orderly s i q n (record r { waiting = rest }) h
      (record {
        one_side = elim ok.one_side [
          | inl none_idle ↦ inl none_idle
          | inr none_waits ↦ cc (w, none_waits)
        ];
        publishers = ok.publishers;
        attachers = listed.1;
      })

attach_in-Orderly :
    (s : Server) (i : ℕ) (n : Bytes) (r : Room) (others : List ℕ)
    → Orderly s
    → IsRoom s.peers n r
    → Listed s.peers attach n i
    → r.idle ≡ others
    → Orderly (attach_in s i n r others).0
attach_in-Orderly s i n r [] h ok me w =
    set_room-Orderly s n (record r { waiting = r.waiting ++ i ∷ [] }) h
      (record {
        one_side = inl w;
        publishers = ok.publishers;
        attachers = All-append (Listed s.peers attach n) r.waiting (i ∷ []) ok.attachers (me, tt);
      })
attach_in-Orderly s i n r (q ∷ rest) h ok me w =
    let listed : All (Listed s.peers publish n) (q ∷ rest) =
      subst (All (Listed s.peers publish n)) w ok.publishers in
    pair_up-Orderly s i q n (record r { idle = rest }) h
      (record {
        one_side = elim ok.one_side [
          | inl none_idle ↦ cc (w, none_idle)
          | inr none_waits ↦ inr none_waits
        ];
        publishers = listed.1;
        attachers = ok.attachers;
      })

pub join_room-Orderly :
    (role : Role) (s : Server) (i : ℕ) (n : Bytes) (r : Room)
    → Orderly s
    → IsRoom s.peers n r
    → Listed s.peers role n i
    → Orderly (join_room role s i n r).0
unfolding join_room
join_room-Orderly publish s i n r h ok me = publish_in-Orderly s i n r r.waiting h ok me refl
join_room-Orderly attach s i n r h ok me = attach_in-Orderly s i n r r.idle h ok me refl
