-- ===== src/Relay/Splice/Tests.antt =====
-- internal/relay/server.go: a short session, with a concrete copier.
use sercon.Prelude.{
  ℕ, ◌&&◌, not, Option, none, some, ◌++◌, if◌then◌else◌, take, drop, Bytes, is_empty,
}
use sercon.Relay.Splice.{Copier, Direction, held, hold, Copying}

abbrev read_into : Copier → ℕ → Option Bytes → Direction → Direction
read_into c n (some h) d = d
read_into c n none d =
    if d.is_open && not (is_empty (take n d.unread))
    then hold c (some (take n d.unread)) (record d { unread = drop n d.unread })
    else d

abbrev write_out : Copier → Option Bytes → Direction → Direction
write_out c none d = d
write_out c (some h) d =
    if d.is_open then hold c none (record d { written = d.written ++ h }) else hold c none d

abbrev copier : Copying
copier = record {
  copy_in = λ c n d. read_into c n (held c d) d;
  copy_out = λ c d. write_out c (held c d) d;
}
