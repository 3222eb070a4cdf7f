-- ===== src/Relay/Server.antt =====
-- internal/relay/server.go: `register`, `unregister` and the checks of a registration. A peer is named
-- by a number; `peers` holds the objects that the pointers of the rooms lead to.
use sercon.Prelude.{
  ℕ, ◌&&◌, not, Option, none, some, List, [], ◌∷◌, ◌++◌, ltb, if◌then◌else◌, maybe, length, Bytes,
  codes, str_eq, is_empty,
}
use sercon.Prelude.Dict.{nat_key, str_key, get, put, adjust, delete, exclude}

abbrev pub role_publish : Bytes
role_publish = codes "publish"

abbrev pub role_attach : Bytes
role_attach = codes "attach"

abbrev pub min_token_len : ℕ
min_token_len = 16

-- `peer`; the role is one of the two that `ServeConn` lets through.
pub data Role : Type 0 where
  publish attach : Role

pub record Peer : Type 0 where
  pub role : Role
  pub room : Bytes
  pub partner : Option ℕ

pub record Room : Type 0 where
  pub token : Bytes
  pub idle : List ℕ
  pub waiting : List ℕ

pub record Server : Type 0 where
  pub rooms : List (Bytes × Room)
  pub peers : List (ℕ × Peer)

-- What `register` returns.
pub data Outcome : Type 0 where
  token_mismatch : Outcome
  waits : Outcome
  paired_with : ℕ → Outcome

abbrev pub set_partner : ℕ → Peer → Peer
set_partner q x = record x { partner = some q }

-- `p.partner, partner.partner = partner, p`
unfoldable pub link : ℕ → ℕ → List (ℕ × Peer) → List (ℕ × Peer)
link i q ps = adjust q (set_partner i) (adjust i (set_partner q) ps)

abbrev pub set_room : Server → Bytes → Room → Server
set_room s n r = record s { rooms = put n r s.rooms }

abbrev pub pair_up : Server → ℕ → ℕ → Bytes → Room → Server × Outcome
pair_up s i q n r = (record (set_room s n r) { peers = link i q s.peers }, paired_with q)

-- The switch of `register`, in the room `r` named `n`, by the queue of the other side.
abbrev pub publish_in : Server → ℕ → Bytes → Room → List ℕ → Server × Outcome
publish_in s i n r [] = (set_room s n (record r { idle = r.idle ++ i ∷ [] }), waits)
publish_in s i n r (q ∷ rest) = pair_up s i q n (record r { waiting = rest })

abbrev pub attach_in : Server → ℕ → Bytes → Room → List ℕ → Server × Outcome
attach_in s i n r [] = (set_room s n (record r { waiting = r.waiting ++ i ∷ [] }), waits)
attach_in s i n r (q ∷ rest) = pair_up s i q n (record r { idle = rest })

unfoldable pub join_room : Role → Server → ℕ → Bytes → Room → Server × Outcome
join_room publish s i n r = publish_in s i n r r.waiting
join_room attach s i n r = attach_in s i n r r.idle

abbrev pub add_peer : Server → ℕ → Role → Bytes → Server
add_peer s i role n = record s {
  peers = put i (record { role = role; room = n; partner = none }) s.peers;
}

abbrev pub empty_room : Bytes → Room
empty_room token = record { token = token; idle = []; waiting = [] }

-- `Server.register` for a peer that gets the number `i`.
unfoldable pub register : Server → ℕ → Role → Bytes → Bytes → Server × Outcome
unfolding maybe
register s i role n token =
    maybe (join_room role (add_peer s i role n) i n (empty_room token))
      (λ r.
        if str_eq r.token token
        then join_room role (add_peer s i role n) i n r
        else (s, token_mismatch))
      (get n s.rooms)

-- What is left of a room without the peer; `remove` is `exclude`.
abbrev pub without : ℕ → Room → Room
without i r = record r { idle = exclude i r.idle; waiting = exclude i r.waiting }

abbrev pub keep_room : Server → Bytes → Room → Server
keep_room s n r =
    if is_empty r.idle && is_empty r.waiting
    then record s { rooms = delete n s.rooms }
    else set_room s n r

-- `Server.unregister`
unfoldable pub unregister : Server → ℕ → Server
unfolding maybe
unregister s i =
    maybe s (λ (p : Peer). maybe s (λ r. keep_room s p.room (without i r)) (get p.room s.rooms))
      (get i s.peers)

-- A registration line, and why `ServeConn` rejects it.
pub record Hello : Type 0 where
  pub room : Bytes
  pub token : Bytes
  pub role : Bytes

pub data HelloError : Type 0 where
  no_room bad_role short_token : HelloError

unfoldable pub check_hello : Hello → Option HelloError
check_hello h =
    if is_empty h.room
    then some no_room
    else if not (str_eq h.role role_publish) && not (str_eq h.role role_attach)
    then some bad_role
    else if ltb (length h.token) min_token_len
    then some short_token
    else none

abbrev pub role_named : Bytes → Role
role_named name = if str_eq name role_publish then publish else attach

-- The steps of a server: a connection registers, or ends (it timed out, broke, or its session is over).
pub data Step : Type 0 where
  arrive : ℕ → Hello → Step
  leave : ℕ → Step

abbrev pub admit : Server → ℕ → Hello → Option HelloError → Server
admit s i h (some e) = s
admit s i h none = (register s i (role_named h.role) h.room h.token).0

-- A new connection is a new pointer: a number that is taken names none.
abbrev pub accept_hello : Server → ℕ → Hello → Option Peer → Server
accept_hello s i h (some x) = s
accept_hello s i h none = admit s i h (check_hello h)

unfoldable pub step : Server → Step → Server
step s (arrive i h) = accept_hello s i h (get i s.peers)
step s (leave i) = unregister s i

unfoldable pub run : Server → List Step → Server
run s [] = s
run s (x ∷ xs) = run (step s x) xs
