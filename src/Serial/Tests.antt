-- ===== src/Serial/Tests.antt =====
-- internal/serialport: devices and system calls to run the functions on.
use sercon.Prelude.{
  ℕ, ◌≡◌, refl, true, false, Option, none, some, List, [], ◌∷◌, arith, pos, Bytes, codes,
}
use sercon.Serial.Windows as Win
use sercon.Serial.Windows.{WriteCalls, pending, timed_out, write_file, write_wait, reset_write}
use sercon.Serial.Names.{RegistryValue}
use sercon.Serial.Linux.{gave, OpenCalls, Port, Kernel, open_port, sent, tried, write, is_closed}
use sercon.Serial.Linux.Sending.{write-sent}
use sercon.Serial.Linux.Descriptors.{Restores, open_port-Restores}
use sercon.Prelude.Dict.{has}

abbrev no_number : Bytes → Option ℕ
no_number s = none

abbrev registry : List RegistryValue
registry =
    record { is_text = true; value = codes "COM3"; name = codes "\\Device\\Serial0" }
    ∷ record { is_text = true; value = codes "LPT1"; name = codes "\\Device\\Parallel0" }
    ∷ []

abbrev tty : Port
tty = record { fd = pos 3; epfd = pos 4; path = codes "/dev/ttyUSB0" }

write-sent_example :
    write tty
      (codes "abc")
      (tried (gave 2) false ∷ tried (gave 1) false ∷ tried (gave 1) false ∷ [])
    ≡ some (codes "abc", sent 3 none)
unfolding is_closed
write-sent_example =
    write-sent tty (codes "abc")
      (tried (gave 2) false ∷ tried (gave 1) false ∷ tried (gave 1) false ∷ []) refl
      (omega arith, (omega arith, tt)) (tt, (tt, (tt, tt))) (omega arith)

abbrev answers : OpenCalls
answers = record { opened = gave 3; got = none; set = none; polled = gave 4; added = some 22 }

abbrev kernel : Kernel
kernel = record { descriptors = 1 ∷ []; lines = [] }

open_port-Restores_example :
    Restores (1 ∷ []) (open_port answers (codes "/dev/ttyUSB0") (pos 9600) false kernel)
unfolding has
open_port-Restores_example =
    open_port-Restores answers (codes "/dev/ttyUSB0") (pos 9600) false kernel (λ n e. ground arith)

abbrev idle_port : Win.Port
idle_port = record {
  closed = false;
  read_pending = false;
  write_pending = false;
  overwritten = false;
}

-- A write that timed out is still pending when the next one resets the struct.
abbrev stuck : WriteCalls
stuck = record { file = pending; wait = timed_out; result = gave 0; written = 0 }

write_again :
    (Win.write stuck (codes "a") (Win.write stuck (codes "a") idle_port).0).0.overwritten ≡ true
unfolding Win.write write_file write_wait reset_write
write_again = refl
