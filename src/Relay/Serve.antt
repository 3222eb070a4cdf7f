-- ===== src/Relay/Serve.antt =====
-- internal/relay/server.go: `ServeConn`, and publish.go: `serve` of a publisher's slot. A reply is written or lost; what
-- the other connections do while one waits is a list of steps of the server, and the select between the partner
-- and the timer, when both are ready, is an input.
pub mod Told
pub mod Ended
mod Tests
use sercon.Prelude.{
  ℕ, Bool, true, false, not, Option, none, some, List, [], ◌∷◌, if◌then◌else◌, maybe, Bytes, codes,
}
use sercon.Prelude.Dict.{nat_key, get}
use sercon.Relay.Server.{
  Peer, Server, Outcome, token_mismatch, waits, paired_with, register, unregister, Hello,
  HelloError, no_room, bad_role, short_token, check_hello, role_named, Step, run,
}
use sercon.Relay.Tickets.{Reply, ExpectError, expect_state}

abbrev pub says : Bytes → Reply
says state = record { is_ok = true; state = state; error = [] }

abbrev pub refuses : Bytes → Reply
refuses error = record { is_ok = false; state = []; error = error }

unfoldable pub hello_text : HelloError → Bytes
hello_text no_room = codes "no room given"
hello_text bad_role = codes "role must be publish or attach"
hello_text short_token = codes "token must be at least 16 characters"

-- How `ServeConn` ends, or that it starts to copy bytes.
pub data Ending : Type 0 where
  no_hello rejected gone_waiting timed_out : Ending
  lost spliced : ℕ → Ending

pub record Served : Type 0 where
  pub server : Server
  pub replies : List Reply
  pub ending : Ending

-- What the network and the clock answer to `ServeConn`.
pub record ServeCalls : Type 0 where
  pub line : Option Bytes
  pub first_write : Bool
  pub meanwhile : List Step
  pub timer_chosen : Bool
  pub second_write : Bool

unfoldable pub written : Bool → Reply → List Reply
written b r = if b then r ∷ [] else []

-- `p.partner` once others may have set it
unfoldable pub partner_of : ℕ → Server → Option ℕ
unfolding maybe
partner_of i s = maybe none (λ (p : Peer). p.partner) (get i s.peers)

module _ (c : ServeCalls) (i : ℕ) where
  unfoldable pub reject : Server → Bytes → Served
  reject s why = record {
    server = s;
    replies = written c.first_write (refuses why);
    ending = rejected;
  }

  -- The second reply, with `closeBoth` when it fails; `splice` runs behind a `spliced`.
  unfoldable pub pair_over : Server → ℕ → Served
  pair_over s q =
      if c.second_write
      then record {
        server = s;
        replies = says (codes "waiting") ∷ says (codes "paired") ∷ [];
        ending = spliced q;
      }
      else record {
        server = unregister (unregister s i) q;
        replies = says (codes "waiting") ∷ [];
        ending = lost q;
      }

  unfoldable pub time_out : Server → Served
  time_out s = record {
    server = unregister s i;
    replies =
        says (codes "waiting")
        ∷ written c.second_write (refuses (codes "no console is publishing this room"));
    ending = timed_out;
  }

  unfoldable pub wait_over : Server → Served
  unfolding maybe
  wait_over s =
      maybe (time_out s) (λ q. if c.timer_chosen then time_out s else pair_over s q)
        (partner_of i s)

  unfoldable pub give_up : Server → Served
  give_up s = record { server = unregister s i; replies = []; ending = gone_waiting }

  unfoldable pub registered : Server → Outcome → Served
  registered s token_mismatch = reject s (codes "token does not match this room")
  registered s waits = if c.first_write then wait_over (run s c.meanwhile) else give_up s
  registered s (paired_with q) = if c.first_write then pair_over s q else give_up s

  unfoldable pub greeted : Server → Hello → Served
  unfolding maybe
  greeted s h =
      maybe (let (s', o) = register s i (role_named h.role) h.room h.token in registered s' o)
        (λ e. reject s (hello_text e)) (check_hello h)

  -- `Server.ServeConn`, for a connection that gets the number `i`
  unfoldable pub serve_conn : (Bytes → Option Hello) → Server → Served
  unfolding maybe
  serve_conn read s =
      maybe (record { server = s; replies = []; ending = no_hello })
        (λ l. maybe (reject s (codes "malformed registration")) (greeted s) (read l)) c.line

pub data PublishError : Type 0 where
  no_relay not_said no_tls no_daemon : PublishError
  never_waiting never_paired : ExpectError → PublishError

-- What the network answers to `Publisher.serve`.
pub record PublishCalls : Type 0 where
  pub dials : Bool
  pub says_hello : Bool
  pub handshakes : Bool
  pub finds_daemon : Bool

-- `Publisher.serve`, with the two lines that it reads: whether it was paired, and its error
unfoldable pub publish_serve :
    (Bytes → Option Reply) → PublishCalls → Option Bytes → Option Bytes → Bool × Option PublishError
unfolding maybe
publish_serve unmarshal c first second =
    if not c.dials
    then (false, some no_relay)
    else if not c.says_hello
    then (false, some not_said)
    else maybe
        (maybe
          (if not c.handshakes
            then (false, some no_tls)
            else if not c.finds_daemon
            then (true, some no_daemon)
            else (true, none))
          (λ e. (false, some (never_paired e))) (expect_state unmarshal (codes "paired") second))
        (λ e. (false, some (never_waiting e))) (expect_state unmarshal (codes "waiting") first)
