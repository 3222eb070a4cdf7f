-- ===== src/Relay/Serve/Tests.antt =====
-- internal/relay/server.go: a publisher whose wait ends when another attacher comes for the same room.
use sercon.Prelude.{
  map, maybe, refl, true, false, Option, none, some, [], ◌∷◌, ◌++◌, if◌then◌else◌, Bytes, codes,
  str_eq,
}
use sercon.Prelude.Dict.{nat_key, str_key, get, put, adjust}
use sercon.Relay.Server.{
  role_publish, role_attach, unregister, link, Hello, join_room, register, check_hello, arrive,
  step, run,
}
use sercon.Relay.Pairing.Runs.{new_server}
use sercon.Relay.Pairing.Listing.{Unlisted}
use sercon.Relay.Tickets.{Reply, Ticket, is_complete}
use sercon.Relay.Serve.{
  says, Served, ServeCalls, serve_conn, greeted, registered, wait_over, pair_over, partner_of,
}
use sercon.Relay.Serve.Told.{is_spliced, AreTold, serve_conn-AreTold}
use sercon.Relay.Serve.Ended.{serve_conn-Unlisted}

abbrev hello_as : Bytes → Hello
hello_as role = record { room = codes "lab"; token = codes "0123456789abcdef"; role = role }

abbrev registers : Bytes → Option Hello
registers line = some (hello_as line)

abbrev calls : ServeCalls
calls = record {
  line = some role_publish;
  first_write = true;
  meanwhile = arrive 3 (hello_as role_attach) ∷ arrive 4 (hello_as role_attach) ∷ [];
  timer_chosen = false;
  second_write = true;
}

serve_conn-Unlisted_example :
    Unlisted 2
      (serve_conn calls 2 registers (run new_server (arrive 1 (hello_as role_publish) ∷ []))).server
unfolding run step register join_room check_hello get put str_eq
serve_conn-Unlisted_example =
    serve_conn-Unlisted (arrive 1 (hello_as role_publish) ∷ []) calls 2 registers refl

-- JSON of the two replies that the publisher gets.
abbrev marshal : Reply → Bytes
marshal r =
    if r.is_ok
    then codes "{\"ok\":true,\"state\":\"" ++ r.state ++ codes "\"}\n"
    else codes "{\"ok\":false}\n"

abbrev unmarshal : Bytes → Option Reply
unmarshal l =
    if str_eq l (marshal (says (codes "waiting")))
    then some (says (codes "waiting"))
    else if str_eq l (marshal (says (codes "paired")))
    then some (says (codes "paired"))
    else none

abbrev ticket : Ticket
ticket = record {
  relay = codes "relay:7";
  room = codes "lab";
  token = codes "0123456789abcdef";
  sha256 = codes "ab";
}

abbrev served : Served
served = serve_conn calls 2 registers new_server

serve_conn-AreTold_example :
    AreTold unmarshal (is_spliced served.ending) true ticket (map marshal served.replies)
unfolding is_complete serve_conn greeted registered wait_over pair_over partner_of register
    unregister check_hello get put str_eq run step join_room link adjust maybe
serve_conn-AreTold_example =
    serve_conn-AreTold unmarshal marshal calls 2 registers new_server true ticket
      (map marshal served.replies) refl (refl, (refl, tt)) refl
