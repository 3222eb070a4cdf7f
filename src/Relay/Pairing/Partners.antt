-- ===== src/Relay/Pairing/Partners.antt =====
-- internal/relay/server.go: the pairs that `register` makes.
use sercon.Prelude.{
  ℕ, ◌≡◌, refl, subst, inl, inr, true, false, none, some, List, [], ◌∷◌, arith, ◌==◌, Bool-cases,
  maybe-intro, if-intro, All, Bytes, str_eq,
}
use sercon.Prelude.Dict.{nat_key, str_key, get, adjust, adjust-get}
use sercon.Relay.Server.{
  Role, publish, attach, Peer, Room, Server, Outcome, paired_with, set_partner, link, pair_up,
  publish_in, attach_in, join_room, add_peer, empty_room, register, Step, run,
}
use sercon.Relay.Pairing.{Listed, IsRoom, Orderly, Extends-put, Extends-IsRoom, All-map}
use sercon.Relay.Pairing.Runs.{added-Listed, empty-IsRoom, run-Orderly, new-Orderly, new_server}

abbrev pub other_side : Role → Role
other_side publish = attach
other_side attach = publish

-- What the peers are once `i` is paired with `q`.
pub record IsPaired (ps : List (ℕ × Peer)) (i q : ℕ) (role : Role) (n : Bytes) : Type 0 where
  pub mine : Peer
  pub mine_there : get i ps ≡ some mine
  pub mine_partner : mine.partner ≡ some q
  pub theirs : Peer
  pub theirs_there : get q ps ≡ some theirs
  pub theirs_partner : theirs.partner ≡ some i
  pub their_role : theirs.role ≡ other_side role
  pub their_room : theirs.room ≡ n

link-IsPaired :
    (ps : List (ℕ × Peer)) (i q : ℕ) (role : Role) (n : Bytes) (x : Peer)
    → get i ps ≡ some x
    → (i == q) ≡ false
    → Listed ps (other_side role) n q
    → IsPaired (link i q ps) i q role n
unfolding link
link-IsPaired ps i q role n x me other l =
    let at_q : (q == q) ≡ true = ground arith in
    let at_i : (i == i) ≡ true = ground arith in
    let not_i : (q == i) ≡ false = ground arith in
    let ps' = adjust i (set_partner q) ps in
    let first = adjust-get i i (set_partner q) ps me in
    let first' = adjust-get i q (set_partner q) ps l.there in
    record {
      mine = set_partner q x;
      mine_there = ground (arith, adjust-get q i (set_partner i) ps' first);
      mine_partner = refl;
      theirs = set_partner i l.peer;
      theirs_there = ground (arith, adjust-get q q (set_partner i) ps' first');
      theirs_partner = refl;
      their_role = l.its_role;
      their_room = l.its_room;
    }

pub record Pairs (i : ℕ) (role : Role) (n : Bytes) (x : Server × Outcome) : Type 0 where
  pub pairs : (q : ℕ) → x.1 ≡ paired_with q → IsPaired x.0.peers i q role n

abbrev Other : ℕ → ℕ → Type 0
Other i q = (i == q) ≡ false

pair_up-Pairs :
    (s : Server) (i q : ℕ) (role : Role) (n : Bytes) (r : Room)
    → Listed s.peers role n i
    → Other i q
    → Listed s.peers (other_side role) n q
    → Pairs i role n (pair_up s i q n r)
pair_up-Pairs s i q role n r me other l = record {
  pairs = λ q' e.
      let same : q ≡ q' = ground arith in
      subst (λ x. IsPaired (link i q s.peers) i x role n) same
        (link-IsPaired s.peers i q role n me.peer me.there other l);
}

publish_in-Pairs :
    (s : Server) (i : ℕ) (n : Bytes) (r : Room) (others : List ℕ)
    → Listed s.peers publish n i
    → All (Other i) others
    → All (Listed s.peers attach n) others
    → Pairs i publish n (publish_in s i n r others)
publish_in-Pairs s i n r [] me o l = record { pairs = λ q e. cc }
publish_in-Pairs s i n r (q ∷ rest) me o l =
    pair_up-Pairs s i q publish n (record r { waiting = rest }) me o.0 l.0

attach_in-Pairs :
    (s : Server) (i : ℕ) (n : Bytes) (r : Room) (others : List ℕ)
    → Listed s.peers attach n i
    → All (Other i) others
    → All (Listed s.peers publish n) others
    → Pairs i attach n (attach_in s i n r others)
attach_in-Pairs s i n r [] me o l = record { pairs = λ q e. cc }
attach_in-Pairs s i n r (q ∷ rest) me o l =
    pair_up-Pairs s i q attach n (record r { idle = rest }) me o.0 l.0

-- The peers that a room listed before are not the new one.
Listed-Other :
    (ps : List (ℕ × Peer)) (i : ℕ) (role : Role) (n : Bytes)
    → get i ps ≡ none
    → (q : ℕ) → Listed ps role n q
    → Other i q
Listed-Other ps i role n fresh q l =
    let here = l.there in
    elim (Bool-cases (i == q)) [
      | inl same ↦ let eq : i ≡ q = ground arith in cc (eq, fresh, here)
      | inr other ↦ other
    ]

join_room-Pairs :
    (role : Role) (s : Server) (i : ℕ) (n : Bytes) (r : Room)
    → get i s.peers ≡ none
    → IsRoom s.peers n r
    → Pairs i role n (join_room role (add_peer s i role n) i n r)
unfolding join_room
join_room-Pairs publish s i n r fresh ok =
    publish_in-Pairs (add_peer s i publish n) i n r r.waiting (added-Listed s i publish n)
      (All-map _ (Other i) r.waiting (Listed-Other s.peers i attach n fresh) ok.attachers)
      (Extends-IsRoom s.peers _ n r (Extends-put s.peers i _ fresh) ok).attachers
join_room-Pairs attach s i n r fresh ok =
    attach_in-Pairs (add_peer s i attach n) i n r r.idle (added-Listed s i attach n)
      (All-map _ (Other i) r.idle (Listed-Other s.peers i publish n fresh) ok.publishers)
      (Extends-IsRoom s.peers _ n r (Extends-put s.peers i _ fresh) ok).publishers

pub register-Pairs :
    (s : Server) (i : ℕ) (role : Role) (n token : Bytes)
    → get i s.peers ≡ none
    → Orderly s
    → Pairs i role n (register s i role n token)
unfolding register
register-Pairs s i role n token fresh h =
    maybe-intro (Pairs i role n) _ _ (get n s.rooms)
      (λ _. join_room-Pairs role s i n (empty_room token) fresh (empty-IsRoom s.peers n token))
      (λ r there.
        if-intro (Pairs i role n) (str_eq r.token token) _ _
          (λ _. join_room-Pairs role s i n r fresh (h.each_room n r there))
          (λ _. record { pairs = λ q e. cc }))

-- In every run of the server, a new peer that registers and is given a partner points to it and is
-- pointed to by it, and the partner has registered for the same room in the other role.
pub run-register-IsPaired :
    (xs : List Step) (i q : ℕ) (role : Role) (n token : Bytes)
    → get i (run new_server xs).peers ≡ none
    → (register (run new_server xs) i role n token).1 ≡ paired_with q
    → IsPaired (register (run new_server xs) i role n token).0.peers i q role n
run-register-IsPaired xs i q role n token fresh e =
    (register-Pairs (run new_server xs) i role n token fresh
        (run-Orderly new_server xs new-Orderly)).pairs
      q e
