-- ===== src/Relay/Serve/Told.antt =====
-- internal/relay: what a peer is told, against how the server ends its connection.
use sercon.Prelude.{
  ℕ, ◌≡◌, refl, sym, ap, ◌∙◌, subst, arith, map, All, Bool, true, false, Option, none, some, List,
  [], ◌∷◌, maybe, maybe-intro, if-intro, Bytes, codes, str_eq,
}
use sercon.Relay.Server.{
  Server, Outcome, token_mismatch, waits, paired_with, Hello, check_hello, role_named, register,
  run,
}
use sercon.Relay.Tickets.{Reply, expect_state, Ticket, is_complete, AttachCalls, attach}
use sercon.Relay.Serve.{
  says, refuses, Ending, no_hello, rejected, gone_waiting, timed_out, lost, spliced, Served,
  ServeCalls, written, partner_of, reject, pair_over, time_out, wait_over, give_up, registered,
  greeted, serve_conn, hello_text, PublishCalls, publish_serve,
}

abbrev pub is_spliced : Ending → Bool
is_spliced no_hello = false
is_spliced rejected = false
is_spliced gone_waiting = false
is_spliced timed_out = false
is_spliced (lost q) = false
is_spliced (spliced q) = true

-- The first line that a peer reads, and the second.
abbrev pub first_line : List Bytes → Option Bytes
first_line [] = none
first_line (l ∷ ls) = some l

abbrev pub second_line : List Bytes → Option Bytes
second_line [] = none
second_line (l ∷ ls) = first_line ls

abbrev pub attach_calls : List Bytes → AttachCalls
attach_calls ls = record {
  dials = true;
  says_hello = true;
  first_line = first_line ls;
  second_line = second_line ls;
  handshakes = true;
}

abbrev pub publish_calls : Bool → PublishCalls
publish_calls daemon = record {
  dials = true;
  says_hello = true;
  handshakes = true;
  finds_daemon = daemon;
}

-- The replies that an ending leaves behind.
abbrev pub Leaves : Ending → List Reply → Type 0
Leaves no_hello rs = rs ≡ []
Leaves rejected rs = (b : Bool) × (why : Bytes) × (rs ≡ written b (refuses why))
Leaves gone_waiting rs = rs ≡ []
Leaves timed_out rs =
    (b : Bool) × (why : Bytes) × (rs ≡ says (codes "waiting") ∷ written b (refuses why))
Leaves (lost q) rs = rs ≡ says (codes "waiting") ∷ []
Leaves (spliced q) rs = rs ≡ says (codes "waiting") ∷ says (codes "paired") ∷ []

abbrev IsLeft : Served → Type 0
IsLeft x = Leaves x.ending x.replies

module _ (c : ServeCalls) (i : ℕ) where
  reject-IsLeft : (s : Server) (why : Bytes) → IsLeft (reject c i s why)
  unfolding reject
  reject-IsLeft s why = (c.first_write, why, refl)

  pair_over-IsLeft : (s : Server) (q : ℕ) → IsLeft (pair_over c i s q)
  unfolding pair_over
  pair_over-IsLeft s q = if-intro IsLeft c.second_write _ _ (λ _. refl) (λ _. refl)

  time_out-IsLeft : (s : Server) → IsLeft (time_out c i s)
  unfolding time_out
  time_out-IsLeft s = (c.second_write, codes "no console is publishing this room", refl)

  wait_over-IsLeft : (s : Server) → IsLeft (wait_over c i s)
  unfolding wait_over
  wait_over-IsLeft s =
      maybe-intro IsLeft _ _ (partner_of i s) (λ _. time_out-IsLeft s)
        (λ q _.
          if-intro IsLeft c.timer_chosen _ _ (λ _. time_out-IsLeft s) (λ _. pair_over-IsLeft s q))

  give_up-IsLeft : (s : Server) → IsLeft (give_up c i s)
  unfolding give_up
  give_up-IsLeft s = refl

  registered-IsLeft : (s : Server) (o : Outcome) → IsLeft (registered c i s o)
  unfolding registered
  registered-IsLeft s token_mismatch = reject-IsLeft s _
  registered-IsLeft s waits =
      if-intro IsLeft c.first_write _ _ (λ _. wait_over-IsLeft (run s c.meanwhile))
        (λ _. give_up-IsLeft s)
  registered-IsLeft s (paired_with q) =
      if-intro IsLeft c.first_write _ _ (λ _. pair_over-IsLeft s q) (λ _. give_up-IsLeft s)

  greeted-IsLeft : (s : Server) (h : Hello) → IsLeft (greeted c i s h)
  unfolding greeted
  greeted-IsLeft s h =
      maybe-intro IsLeft _ _ (check_hello h)
        (λ _.
          let (s', o) = register s i (role_named h.role) h.room h.token in registered-IsLeft s' o)
        (λ e _. reject-IsLeft s (hello_text e))

  serve_conn-IsLeft : (read : Bytes → Option Hello) (s : Server) → IsLeft (serve_conn c i read s)
  unfolding serve_conn
  serve_conn-IsLeft read s =
      maybe-intro IsLeft _ _ c.line (λ _. refl)
        (λ l _.
          maybe-intro IsLeft _ _ (read l) (λ _. reject-IsLeft s _) (λ h _. greeted-IsLeft s h))

module _ (u : Bytes → Option Reply) where
  -- Both ends take a connection for paired.
  pub record AreTold (b daemon : Bool) (t : Ticket) (ls : List Bytes) : Type 0 where
    pub publisher : (publish_serve u (publish_calls daemon) (first_line ls) (second_line ls)).0 ≡ b
    pub attacher : (attach u t (attach_calls ls)).is_open ≡ b

  heard : (ls : List Bytes) → Bool
  unfolding maybe
  heard ls =
      maybe (maybe true (λ _. false) (expect_state u (codes "paired") (second_line ls)))
        (λ _. false) (expect_state u (codes "waiting") (first_line ls))

  heard-AreTold :
      (daemon : Bool) (t : Ticket) (ls : List Bytes)
      → is_complete t ≡ true
      → AreTold (heard ls) daemon t ls
  unfolding publish_serve attach maybe heard
  heard-AreTold daemon t ls full = record {
    publisher = elim daemon [ true ↦ ground arith | false ↦ ground arith ];
    attacher = ground (arith, full);
  }

-- The lines of a list of replies, each read back.
abbrev pub AreRead : (Bytes → Option Reply) → (Reply → Bytes) → List Reply → Type 0
AreRead u m = All (λ r. u (m r) ≡ some r)

Leaves-heard :
    (u : Bytes → Option Reply) (m : Reply → Bytes) (e : Ending) (rs : List Reply)
    → Leaves e rs
    → AreRead u m rs
    → heard u (map m rs) ≡ is_spliced e
unfolding expect_state str_eq maybe written heard
Leaves-heard u m no_hello rs h =
    subst (λ x. AreRead u m x → heard u (map m x) ≡ false) (sym h) (λ _. refl)
Leaves-heard u m rejected rs (false, why, h) =
    subst (λ x. AreRead u m x → heard u (map m x) ≡ false) (sym h) (λ _. refl)
Leaves-heard u m rejected rs (true, why, h) =
    subst (λ x. AreRead u m x → heard u (map m x) ≡ false) (sym h) (λ b. rw (b.0) refl)
Leaves-heard u m gone_waiting rs h =
    subst (λ x. AreRead u m x → heard u (map m x) ≡ false) (sym h) (λ _. refl)
Leaves-heard u m timed_out rs (false, why, h) =
    subst (λ x. AreRead u m x → heard u (map m x) ≡ false) (sym h) (λ b. rw (b.0) refl)
Leaves-heard u m timed_out rs (true, why, h) =
    subst (λ x. AreRead u m x → heard u (map m x) ≡ false) (sym h) (λ b. rw (b.0, b.1.0) refl)
Leaves-heard u m (lost q) rs h =
    subst (λ x. AreRead u m x → heard u (map m x) ≡ false) (sym h) (λ b. rw (b.0) refl)
Leaves-heard u m (spliced q) rs h =
    subst (λ x. AreRead u m x → heard u (map m x) ≡ true) (sym h) (λ b. rw (b.0, b.1.0) refl)

-- When what a peer reads is the lines of the replies that its own `ServeConn` got through, nothing of its partner's
-- session among them, when each of these replies is read back from its line, the attacher's ticket is complete, and
-- the dials, greetings and TLS handshakes work, then a publisher's slot counts as paired, and an attacher gets an
-- open connection, exactly when that `ServeConn` goes on to copy bytes, on each of its branches.
pub serve_conn-AreTold :
    (u : Bytes → Option Reply) (m : Reply → Bytes) (c : ServeCalls) (i : ℕ)
    (read : Bytes → Option Hello) (s : Server) (daemon : Bool) (t : Ticket) (seen : List Bytes)
    → is_complete t ≡ true
    → AreRead u m (serve_conn c i read s).replies
    → seen ≡ map m (serve_conn c i read s).replies
    → AreTold u (is_spliced (serve_conn c i read s).ending) daemon t seen
serve_conn-AreTold u m c i read s daemon t seen full back own =
    subst (λ b. AreTold u b daemon t seen)
      (ap (heard u) own ∙ Leaves-heard u m _ _ (serve_conn-IsLeft c i read s) back)
      (heard-AreTold u daemon t seen full)
