-- ===== src/Relay/Serve/Ended.antt =====
-- internal/relay/server.go: the lists of the rooms when `ServeConn` has ended.
use sercon.Prelude.{
  ℕ, ◌≡◌, refl, subst, sym, arith, Option, none, some, List, [], ◌∷◌, inl, inr, Option-cases, maybe,
  maybe-intro, if-intro, Bytes, str_eq,
}
use sercon.Prelude.Dict.{nat_key, str_key, get}
use sercon.Relay.Server.{
  Role, publish, attach, Room, Server, Outcome, token_mismatch, waits, paired_with, publish_in,
  attach_in, join_room, add_peer, empty_room, register, unregister, Hello, check_hello, role_named,
  Step, run,
}
use sercon.Relay.Pairing.{Orderly}
use sercon.Relay.Pairing.Runs.{register-Orderly, run-Orderly, new_server, new-Orderly}
use sercon.Relay.Pairing.Partners.{register-Pairs}
use sercon.Relay.Pairing.Listing.{Unlisted, fresh-Unlisted, unregister-Unlisted, unregister-shrinks}
use sercon.Relay.Pairing.Free.{Free, partner-Unlisted}
use sercon.Relay.Pairing.Free.Runs.{register-Free, run-Free, new-Free}
use sercon.Relay.Serve.{
  Served, ServeCalls, partner_of, reject, pair_over, time_out, wait_over, give_up, registered,
  greeted, serve_conn, hello_text,
}

-- A registration that the token refuses leaves the server as it was.
abbrev Refused : Server → Server × Outcome → Type 0
Refused s x = x.1 ≡ token_mismatch → x.0 ≡ s

publish_in-Refused :
    (s s' : Server) (i : ℕ) (n : Bytes) (r : Room) (others : List ℕ)
    → Refused s (publish_in s' i n r others)
publish_in-Refused s s' i n r [] e = cc
publish_in-Refused s s' i n r (q ∷ rest) e = cc

attach_in-Refused :
    (s s' : Server) (i : ℕ) (n : Bytes) (r : Room) (others : List ℕ)
    → Refused s (attach_in s' i n r others)
attach_in-Refused s s' i n r [] e = cc
attach_in-Refused s s' i n r (q ∷ rest) e = cc

join_room-Refused :
    (role : Role) (s s' : Server) (i : ℕ) (n : Bytes) (r : Room)
    → Refused s (join_room role s' i n r)
unfolding join_room
join_room-Refused publish s s' i n r = publish_in-Refused s s' i n r r.waiting
join_room-Refused attach s s' i n r = attach_in-Refused s s' i n r r.idle

register-Refused :
    (s : Server) (i : ℕ) (role : Role) (n token : Bytes) → Refused s (register s i role n token)
unfolding register
register-Refused s i role n token =
    maybe-intro (Refused s) _ _ (get n s.rooms)
      (λ _. join_room-Refused role s (add_peer s i role n) i n (empty_room token))
      (λ r _.
        if-intro (Refused s) (str_eq r.token token) _ _
          (λ _. join_room-Refused role s (add_peer s i role n) i n r) (λ _ _. refl))

module _ (c : ServeCalls) (i : ℕ) where
  abbrev Ended : Served → Type 0
  Ended x = Unlisted i x.server

  reject-Ended : (s : Server) (why : Bytes) → Unlisted i s → Ended (reject c i s why)
  unfolding reject
  reject-Ended s why h = h

  pair_over-Ended : (s : Server) (q : ℕ) → Unlisted i s → Ended (pair_over c i s q)
  unfolding pair_over
  pair_over-Ended s q h =
      if-intro Ended c.second_write _ _ (λ _. h)
        (λ _. unregister-shrinks (unregister s i) i q (unregister-shrinks s i i h))

  time_out-Ended : (s : Server) → Orderly s → Ended (time_out c i s)
  unfolding time_out
  time_out-Ended s o = unregister-Unlisted s i o

  give_up-Ended : (s : Server) → Orderly s → Ended (give_up c i s)
  unfolding give_up
  give_up-Ended s o = unregister-Unlisted s i o

  partner_of-Unlisted : (s : Server) (q : ℕ) → Free s → partner_of i s ≡ some q → Unlisted i s
  unfolding partner_of maybe
  partner_of-Unlisted s q h e = elim (Option-cases (get i s.peers)) [
    | inl gone ↦ ground arith
    | inr (p, there) ↦ partner-Unlisted s i q p h there (ground arith)
  ]

  wait_over-Ended : (s : Server) → Orderly s → Free s → Ended (wait_over c i s)
  unfolding wait_over
  wait_over-Ended s o h =
      maybe-intro Ended _ _ (partner_of i s) (λ _. time_out-Ended s o)
        (λ q has_one.
          if-intro Ended c.timer_chosen _ _ (λ _. time_out-Ended s o)
            (λ _. pair_over-Ended s q (partner_of-Unlisted s q h has_one)))

  registered-Ended :
      (s : Server) (o : Outcome)
      → Orderly s
      → Free s
      → (o ≡ token_mismatch → Unlisted i s)
      → ((q : ℕ) → o ≡ paired_with q → Unlisted i s)
      → Ended (registered c i s o)
  unfolding registered
  registered-Ended s token_mismatch o h refused paired = reject-Ended s _ (refused refl)
  registered-Ended s waits o h refused paired =
      if-intro Ended c.first_write _ _
        (λ _.
          wait_over-Ended (run s c.meanwhile) (run-Orderly s c.meanwhile o)
            (run-Free s c.meanwhile o h))
        (λ _. give_up-Ended s o)
  registered-Ended s (paired_with q) o h refused paired =
      if-intro Ended c.first_write _ _ (λ _. pair_over-Ended s q (paired q refl))
        (λ _. give_up-Ended s o)

  greeted-Ended :
      (s : Server) (hello : Hello)
      → Orderly s
      → Free s
      → get i s.peers ≡ none
      → Ended (greeted c i s hello)
  unfolding greeted
  greeted-Ended s hello o h fresh =
      maybe-intro Ended _ _ (check_hello hello)
        (λ _.
          registered-Ended after.0 after.1 after-Orderly after-Free
            (λ e.
              subst (Unlisted i) (sym (register-Refused s i role hello.room hello.token e))
                (fresh-Unlisted s i o fresh))
            (λ q e.
              let pair = (register-Pairs s i role hello.room hello.token fresh o).pairs q e in
              partner-Unlisted after.0 i q pair.mine after-Free pair.mine_there pair.mine_partner))
        (λ e _. reject-Ended s (hello_text e) (fresh-Unlisted s i o fresh))
    where
      role : Role
      role = role_named hello.role

      after : Server × Outcome
      after = register s i role hello.room hello.token

      after-Orderly : Orderly after.0
      after-Orderly = register-Orderly s i role hello.room hello.token fresh o

      after-Free : Free after.0
      after-Free = register-Free s i role hello.room hello.token fresh o h

-- When `ServeConn` of a new connection ends or starts to copy bytes, in any run of the server, on whatever branch
-- and whatever the other connections did while it waited, no room lists the connection.
pub serve_conn-Unlisted :
    (xs : List Step) (c : ServeCalls) (i : ℕ) (read : Bytes → Option Hello)
    → get i (run new_server xs).peers ≡ none
    → Unlisted i (serve_conn c i read (run new_server xs)).server
unfolding serve_conn
serve_conn-Unlisted xs c i read fresh =
    maybe-intro (Ended c i) _ _ c.line (λ _. out)
      (λ l _.
        maybe-intro (Ended c i) _ _ (read l) (λ _. reject-Ended c i s _ out)
          (λ hello _.
            greeted-Ended c i s hello o (run-Free new_server xs new-Orderly new-Free) fresh))
  where
    s : Server
    s = run new_server xs

    o : Orderly s
    o = run-Orderly new_server xs new-Orderly

    out : Unlisted i s
    out = fresh-Unlisted s i o fresh
