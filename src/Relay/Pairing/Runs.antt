-- ===== src/Relay/Pairing/Runs.antt =====
-- internal/relay/server.go: the rooms in every run of the server.
use sercon.Prelude.{
  ℕ, ◌≡◌, refl, ◌⊎◌, inl, inr, ◌&&◌, Option, none, some, List, [], ◌∷◌, arith, ◌==◌, maybe-intro,
  if-intro, All, Bytes, str_eq, is_empty,
}
use sercon.Prelude.Dict.{nat_key, str_key, get, get-delete, get-put_self, exclude}
use sercon.Relay.Server.{
  Role, publish, attach, Peer, Room, Server, Outcome, add_peer, empty_room, register, without,
  keep_room, unregister, Hello, HelloError, admit, check_hello, role_named, Step, arrive, leave,
  accept_hello, step, run,
}
use sercon.Relay.Pairing.{
  Listed, IsRoom, Orderly, Extends-put, extend-Orderly, set_room-Orderly, join_room-Orderly,
}

pub added-Listed :
    (s : Server) (i : ℕ) (role : Role) (n : Bytes) → Listed (add_peer s i role n).peers role n i
added-Listed s i role n = record {
  peer = record { role = role; room = n; partner = none };
  there = get-put_self i _ s.peers;
  its_role = refl;
  its_room = refl;
}

pub add_peer-Orderly :
    (s : Server) (i : ℕ) (role : Role) (n : Bytes)
    → get i s.peers ≡ none
    → Orderly s
    → Orderly (add_peer s i role n)
add_peer-Orderly s i role n fresh h =
    extend-Orderly s _
      (Extends-put s.peers i (record { role = role; room = n; partner = none }) fresh) h

pub empty-IsRoom : (ps : List (ℕ × Peer)) (n token : Bytes) → IsRoom ps n (empty_room token)
empty-IsRoom ps n token = record { one_side = inl refl; publishers = tt; attachers = tt }

pub register-Orderly :
    (s : Server) (i : ℕ) (role : Role) (n token : Bytes)
    → get i s.peers ≡ none
    → Orderly s
    → Orderly (register s i role n token).0
unfolding register
register-Orderly s i role n token fresh h =
    maybe-intro Goal _ _ (get n s.rooms)
      (λ _.
        join_room-Orderly role added i n (empty_room token) added-ok (empty-IsRoom _ n token)
          (added-Listed s i role n))
      (λ r there.
        if-intro Goal (str_eq r.token token) _ _
          (λ _.
            join_room-Orderly role added i n r added-ok (added-ok.each_room n r there)
              (added-Listed s i role n))
          (λ _. h))
  where
    Goal : Server × Outcome → Type 0
    Goal x = Orderly x.0

    added : Server
    added = add_peer s i role n

    added-ok : Orderly added
    added-ok = add_peer-Orderly s i role n fresh h

All-exclude : (P : ℕ → Type 0) (i : ℕ) (xs : List ℕ) → All P xs → All P (exclude i xs)
unfolding exclude
All-exclude P i [] h = tt
All-exclude P i (x ∷ xs) h =
    let rest = All-exclude P i xs h.1 in
    if-intro (All P) (x == i) _ _ (λ _. rest) (λ _. (h.0, rest))

exclude-nil : (i : ℕ) (xs : List ℕ) → xs ≡ [] → exclude i xs ≡ []
unfolding exclude
exclude-nil i [] e = refl
exclude-nil i (x ∷ xs) e = cc

without-IsRoom :
    (ps : List (ℕ × Peer)) (n : Bytes) (i : ℕ) (r : Room)
    → IsRoom ps n r
    → IsRoom ps n (without i r)
without-IsRoom ps n i r h = record {
  one_side = elim h.one_side [
    | inl e ↦ inl (exclude-nil i r.idle e)
    | inr e ↦ inr (exclude-nil i r.waiting e)
  ];
  publishers = All-exclude (Listed ps publish n) i r.idle h.publishers;
  attachers = All-exclude (Listed ps attach n) i r.waiting h.attachers;
}

keep_room-Orderly :
    (s : Server) (n : Bytes) (r : Room) → Orderly s → IsRoom s.peers n r → Orderly (keep_room s n r)
keep_room-Orderly s n r h ok =
    if-intro Orderly (is_empty r.idle && is_empty r.waiting) _ _
      (λ _. record {
        each_room = λ n' r' e. h.each_room n' r' (ground (arith, get-delete n n' s.rooms));
      })
      (λ _. set_room-Orderly s n r h ok)

pub unregister-Orderly : (s : Server) (i : ℕ) → Orderly s → Orderly (unregister s i)
unfolding unregister
unregister-Orderly s i h =
    maybe-intro Orderly _ _ (get i s.peers) (λ _. h)
      (λ p _.
        maybe-intro Orderly _ _ (get p.room s.rooms) (λ _. h)
          (λ r there.
            keep_room-Orderly s p.room (without i r) h
              (without-IsRoom s.peers p.room i r (h.each_room p.room r there))))

admit-Orderly :
    (s : Server) (i : ℕ) (hello : Hello) (e : Option HelloError)
    → get i s.peers ≡ none
    → Orderly s
    → Orderly (admit s i hello e)
admit-Orderly s i hello (some e) fresh h = h
admit-Orderly s i hello none fresh h =
    register-Orderly s i (role_named hello.role) hello.room hello.token fresh h

accept_hello-Orderly :
    (s : Server) (i : ℕ) (hello : Hello) (o : Option Peer)
    → get i s.peers ≡ o
    → Orderly s
    → Orderly (accept_hello s i hello o)
accept_hello-Orderly s i hello (some x) taken h = h
accept_hello-Orderly s i hello none fresh h = admit-Orderly s i hello (check_hello hello) fresh h

pub step-Orderly : (s : Server) (x : Step) → Orderly s → Orderly (step s x)
unfolding step
step-Orderly s (leave i) h = unregister-Orderly s i h
step-Orderly s (arrive i hello) h = accept_hello-Orderly s i hello (get i s.peers) refl h

pub run-Orderly : (s : Server) (xs : List Step) → Orderly s → Orderly (run s xs)
unfolding run
run-Orderly s [] h = h
run-Orderly s (x ∷ xs) h = run-Orderly (step s x) xs (step-Orderly s x h)

abbrev pub new_server : Server
new_server = record { rooms = []; peers = [] }

pub new-Orderly : Orderly new_server
unfolding get
new-Orderly = record { each_room = λ n r e. cc }

-- In every run of the server, no room lists an idle publisher and a waiting attacher at the same time.
pub run_one_side :
    (xs : List Step) (n : Bytes) (r : Room)
    → get n (run new_server xs).rooms ≡ some r
    → (r.idle ≡ []) ⊎ (r.waiting ≡ [])
run_one_side xs n r e = ((run-Orderly new_server xs new-Orderly).each_room n r e).one_side
