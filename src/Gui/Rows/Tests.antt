-- ===== src/Gui/Rows/Tests.antt =====
-- cmd/sercon-gui/paint_windows.go: a table with one port that went away and one that came.
use sercon.Prelude.{ℕ, ◌+◌, ◌/◌, ◌≡◌, true, [], ◌∷◌, ◌==◌, pos, Bytes, codes, str_eq}
use sercon.Prelude.Dict.{str_key}
use sercon.Hub.Types.{PortInfo}
use sercon.Gui.Rows.{Shade, Row, sync_rows}
use sercon.Gui.Rows.Sync.{live, sync_rows-live}

abbrev shade : Shade ℕ
shade = record { zero_shade = 0; full_shade = 100; same = ◌==◌; is_faint = λ v. v == 0 }

abbrev port : Bytes → PortInfo
port ref = record {
  ref = ref;
  dev = [];
  desc = [];
  baud = pos 9600;
  online = true;
  owner = [];
  observers = 0;
  log = [];
  last_err = [];
}

abbrev leaving : Row ℕ
leaving = record {
  ref = codes "COM3";
  fade = record { from = 100; to = 0; value = 60; start_ms = 50; duration = 160; active = true };
  dying = true;
  shown_port = port (codes "COM3");
}

abbrev halved : ℕ → ℕ → ℕ → ℕ → ℕ
halved a b elapsed duration = (a + b) / 2

sync_rows-live_example :
    live (codes "COM4") (sync_rows shade (port (codes "COM4") ∷ []) 90 (leaving ∷ [])).0 ≡ 1
unfolding str_eq
sync_rows-live_example =
    sync_rows-live shade (port (codes "COM4") ∷ []) 90 (leaving ∷ []) (codes "COM4")
