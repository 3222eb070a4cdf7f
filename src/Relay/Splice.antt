-- ===== src/Relay/Splice.antt =====
-- internal/relay/server.go: `splice` and `closeBoth` for one direction of a session. The ServeConn of each of the two
-- peers runs `splice`, so two copiers read the one connection and write to the other, in any interleaving.
use sercon.Prelude.{
  ℕ, ◌≡◌, Bool, true, false, ◌&&◌, not, Option, none, some, List, [], ◌∷◌, ◌++◌, ltb, if◌then◌else◌,
  take, drop, Bytes, is_empty,
}
pub mod Order
mod Tests

-- The copier that the first peer's splice started, or the second's.
pub data Copier : Type 0 where
  first second : Copier

-- The bytes that are still to be read, what each copier has read and not yet written, the bytes written, and whether
-- the connections are open.
pub record Direction : Type 0 where
  pub unread : Bytes
  pub held_first : Option Bytes
  pub held_second : Option Bytes
  pub written : Bytes
  pub is_open : Bool

abbrev pub unsent : Bytes → Direction
unsent s = record {
  unread = s;
  held_first = none;
  held_second = none;
  written = [];
  is_open = true;
}

abbrev pub held : Copier → Direction → Option Bytes
held first d = d.held_first
held second d = d.held_second

abbrev pub hold : Copier → Option Bytes → Direction → Direction
hold first h d = record d { held_first = h }
hold second h d = record d { held_second = h }

-- A step of a copier: it reads some bytes, writes what it read, or finds the end and has `closeBoth` close
-- the connections.
pub data Move : Type 0 where
  reads : Copier → ℕ → Move
  writes : Copier → Move
  ends : Copier → Move

-- `io.Copy` from the source to the destination, as one read of at most so many bytes and one write by a copier.
pub record Copying : Type 0 where
  pub copy_in : Copier → ℕ → Direction → Direction
  pub copy_out : Copier → Direction → Direction

-- What `io.Copy` promises of them: while the connections are open, a copier with nothing to write reads the bytes
-- that come next, and one with something to write writes it all behind what was written before.
pub record IsCopying (k : Copying) : Type 0 where
  pub reads_next :
      (c : Copier) (n : ℕ) (d : Direction)
      → d.is_open ≡ true
      → held c d ≡ none
      → is_empty (take n d.unread) ≡ false
      → k.copy_in c n d ≡ hold c (some (take n d.unread)) (record d { unread = drop n d.unread })
  pub writes_all :
      (c : Copier) (h : Bytes) (d : Direction)
      → d.is_open ≡ true
      → held c d ≡ some h
      → k.copy_out c d ≡ hold c none (record d { written = d.written ++ h })

-- The source's end has come when nothing is unread; then `closeBoth` closes the connections.
abbrev pub find_end : Option Bytes → Direction → Direction
find_end (some h) d = d
find_end none d = if is_empty d.unread then record d { is_open = false } else d

module _ (k : Copying) where
  unfoldable pub copy_step : Move → Direction → Direction
  copy_step (reads c n) d = k.copy_in c n d
  copy_step (writes c) d = k.copy_out c d
  copy_step (ends c) d = find_end (held c d) d

  unfoldable pub splice : List Move → Direction → Direction
  splice [] d = d
  splice (x ∷ xs) d = splice xs (copy_step x d)
