-- ===== src/Daemon/Tests.antt =====
-- internal/daemon, internal/ipc and cmd/sercond: a daemon that is started and stopped.
use sercon.Prelude.{ℕ, ◌≡◌, refl, true, false, none, some, List, [], ◌∷◌, maybe, codes, str_eq}
use sercon.Daemon.{Startup, ensure, comes_up}
use sercon.Daemon.Listen.{
  from, leftover, listening, race, race_two_listeners, race_two_fresh, absent, answered,
}
use sercon.Daemon.Commands.{
  CaptureCalls, connection, transient, stopping, cmd_capture, accept_loop, exit_code, word_of,
}
use sercon.Daemon.Commands.Endings.{nothing, replay, cmd_capture-Released}

-- The daemon that another client started answers at the second look.
abbrev two_clients : Startup
two_clients = record {
  alive = false;
  made = true;
  spawn_err = some (codes "busy");
  looks = false ∷ true ∷ [];
}

two_clients_up : ensure two_clients ≡ none
unfolding ensure comes_up
two_clients_up = refl

race_two_listeners_example :
    (is : List ℕ) × ((race (answered is) (from leftover)).phase 3 ≡ listening)
    × ((race (answered is) (from leftover)).phase 4 ≡ listening)
race_two_listeners_example = race_two_listeners 3 4 refl

race_two_fresh_example :
    (is : List ℕ) × ((race (answered is) (from absent)).phase 3 ≡ listening)
    × ((race (answered is) (from absent)).phase 4 ≡ listening)
race_two_fresh_example = race_two_fresh 3 4 refl

abbrev a_day : CaptureCalls
a_day = record {
  socket = some (codes "s.sock");
  configured = true;
  has_bound = true;
  manager_made = true;
  manager_starts = true;
  accepted = connection ∷ transient ∷ connection ∷ stopping ∷ [];
}

cmd_capture-Released_example : replay (cmd_capture a_day).0 nothing ≡ nothing
unfolding cmd_capture accept_loop maybe
cmd_capture-Released_example = cmd_capture-Released a_day refl

unknown_command : exit_code (λ c args. true) (codes "relay" ∷ []) ≡ 2
unfolding exit_code word_of str_eq
unknown_command = refl
