-- ===== src/Relay/Splice/Order.antt =====
-- internal/relay/server.go: the order in which `splice` lets bytes through.
use sercon.Prelude.{true, Option, Bytes}
use sercon.Relay.Splice.{Direction}

-- A direction in the middle of two copies.
abbrev half_way : Bytes → Option Bytes → Option Bytes → Bytes → Direction
half_way s f g w = record {
  unread = s;
  held_first = f;
  held_second = g;
  written = w;
  is_open = true;
}
