-- ===== src/Relay/Tests.antt =====
-- internal/relay: registrations to run the server on.
use sercon.Prelude.{
  ◌≡◌, refl, true, Option, none, some, List, [], ◌∷◌, leb, length, Bytes, codes, str_eq,
}
use sercon.Prelude.Strings.{is_space, IsWord}
use sercon.Relay.Tickets.{TokenCalls}
use sercon.Prelude.Dict.{nat_key, str_key, get, put}
use sercon.Relay.Server.{
  min_token_len, attach, join_room, register, Hello, check_hello, Step, arrive, step, run,
}
use sercon.Relay.Pairing.Runs.{new_server}
use sercon.Relay.Pairing.Partners.{IsPaired, run-register-IsPaired}

abbrev hello_as : Bytes → Hello
hello_as role = record { room = codes "lab"; token = codes "0123456789abcdef"; role = role }

abbrev published : List Step
published = arrive 1 (hello_as (codes "publish")) ∷ arrive 2 (hello_as (codes "x")) ∷ []

run-register-IsPaired_example :
    IsPaired
      (register
        (run new_server published)
        2
        attach
        (codes "lab")
        (codes "0123456789abcdef")).0.peers
      2
      1
      attach
      (codes "lab")
unfolding run step register join_room check_hello get put str_eq
run-register-IsPaired_example =
    run-register-IsPaired published 2 1 attach (codes "lab") (codes "0123456789abcdef") refl refl

abbrev token_calls : TokenCalls
token_calls = record {
  made = true;
  reads = true;
  random = some (codes "0123456789abcdef");
  writes = true;
}

-- A text of 16 characters without white space.
abbrev IsLong : Option Bytes → Type 0
IsLong none = Unit
IsLong (some r) = IsWord is_space r × (leb min_token_len (length r) ≡ true)
