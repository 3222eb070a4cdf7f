-- ===== src/Relay/Pairing/Free/Runs.antt =====
-- internal/relay/server.go: in every run of the server a peer that has a partner is in no list.
use sercon.Prelude.{
  ℕ, ◌≡◌, refl, arith, ◌&&◌, Option, none, some, List, [], ◌∷◌, maybe-intro, if-intro, Bytes,
  str_eq, is_empty,
}
use sercon.Prelude.Dict.{nat_key, str_key, get, get-put_self, get-delete, has, has-exclude}
use sercon.Relay.Server.{
  Role, Peer, Room, Server, Outcome, join_room, add_peer, empty_room, register, without, keep_room,
  unregister, Hello, HelloError, check_hello, admit, accept_hello, role_named, Step, arrive, leave,
  step, run,
}
use sercon.Relay.Pairing.{IsRoom, Orderly}
use sercon.Relay.Pairing.Runs.{
  new_server, added-Listed, empty-IsRoom, step-Orderly, add_peer-Orderly,
}
use sercon.Relay.Pairing.Free.{NotIn, IsFree, Free, Distinct-exclude, empty-IsFree, put-IsFree}
use sercon.Relay.Pairing.Free.Joins.{set_room-Free, add_peer-Free, join_room-Free}
use sercon.Relay.Pairing.Listing.{fresh-Unlisted}

pub register-Free :
    (s : Server) (i : ℕ) (role : Role) (n token : Bytes)
    → get i s.peers ≡ none
    → Orderly s
    → Free s
    → Free (register s i role n token).0
unfolding register has
register-Free s i role n token fresh o h =
    maybe-intro Goal _ _ (get n s.rooms)
      (λ _.
        joins (empty_room token) (empty-IsRoom added.peers n token) (empty-IsFree added.peers token)
          (refl, refl))
      (λ r at.
        if-intro Goal (str_eq r.token token) _ _
          (λ _.
            joins r (added-ok.each_room n r at)
              (put-IsFree s.peers r i newcomer refl (h.each_free n r at))
              (fresh-Unlisted s i o fresh n r at))
          (λ _. h))
  where
    Goal : Server × Outcome → Type 0
    Goal x = Free x.0

    newcomer : Peer
    newcomer = record { role = role; room = n; partner = none }

    added : Server
    added = add_peer s i role n

    added-ok : Orderly added
    added-ok = add_peer-Orderly s i role n fresh o

    joins :
        (r : Room)
        → IsRoom added.peers n r
        → IsFree added.peers r
        → NotIn i r
        → Goal (join_room role added i n r)
    joins r room ok new =
        join_room-Free added i n r added-ok (add_peer-Free s i role n h) room ok new newcomer
          (get-put_self i newcomer s.peers) refl role (added-Listed s i role n)

without-IsFree : (ps : List (ℕ × Peer)) (i : ℕ) (r : Room) → IsFree ps r → IsFree ps (without i r)
without-IsFree ps i r h = record {
  alone = λ j q p there it.
      let out = h.alone j q p there it in
      (ground (arith, has-exclude i j r.idle), ground (arith, has-exclude i j r.waiting));
  idle_once = Distinct-exclude i r.idle h.idle_once;
  waiting_once = Distinct-exclude i r.waiting h.waiting_once;
}

keep_room-Free :
    (s : Server) (n : Bytes) (r : Room) → Free s → IsFree s.peers r → Free (keep_room s n r)
keep_room-Free s n r h ok =
    if-intro Free (is_empty r.idle && is_empty r.waiting) _ _
      (λ _. record {
        each_free = λ n' r' at. h.each_free n' r' (ground (arith, get-delete n n' s.rooms));
      })
      (λ _. set_room-Free s n r h ok)

pub unregister-Free : (s : Server) (i : ℕ) → Free s → Free (unregister s i)
unfolding unregister
unregister-Free s i h =
    maybe-intro Free _ _ (get i s.peers) (λ _. h)
      (λ p _.
        maybe-intro Free _ _ (get p.room s.rooms) (λ _. h)
          (λ r at.
            keep_room-Free s p.room (without i r) h
              (without-IsFree s.peers i r (h.each_free p.room r at))))

admit-Free :
    (s : Server) (i : ℕ) (hello : Hello) (e : Option HelloError)
    → get i s.peers ≡ none
    → Orderly s
    → Free s
    → Free (admit s i hello e)
admit-Free s i hello (some e) fresh o h = h
admit-Free s i hello none fresh o h =
    register-Free s i (role_named hello.role) hello.room hello.token fresh o h

accept_hello-Free :
    (s : Server) (i : ℕ) (hello : Hello) (x : Option Peer)
    → get i s.peers ≡ x
    → Orderly s
    → Free s
    → Free (accept_hello s i hello x)
accept_hello-Free s i hello (some x) taken o h = h
accept_hello-Free s i hello none fresh o h = admit-Free s i hello (check_hello hello) fresh o h

step-Free : (s : Server) (x : Step) → Orderly s → Free s → Free (step s x)
unfolding step
step-Free s (leave i) o h = unregister-Free s i h
step-Free s (arrive i hello) o h = accept_hello-Free s i hello (get i s.peers) refl o h

pub run-Free : (s : Server) (xs : List Step) → Orderly s → Free s → Free (run s xs)
unfolding run
run-Free s [] o h = h
run-Free s (x ∷ xs) o h = run-Free (step s x) xs (step-Orderly s x o) (step-Free s x o h)

pub new-Free : Free new_server
unfolding get
new-Free = record { each_free = λ n r e. cc }
