-- ===== src/Audit/Tests.antt =====
-- internal/audit/audit.go: a trail of two days.
use sercon.Prelude.{◌≡◌, refl, true, false, none, some, [], ◌∷◌, Bytes, codes, maybe}
use sercon.Audit.{Record, AuditCalls, Logger}
use sercon.Audit.Kept.{log_all, log_all-lines}

abbrev on_day : Bytes → AuditCalls
on_day day = record { now = codes "12:00"; day = day; opens = true; write_fails = none }

abbrev event : Bytes → Record
event text = record { ts = []; json = λ ts. some text }

abbrev unprintable : Record
unprintable = record { ts = codes "now"; json = λ ts. none }

abbrev closed : Logger
closed = record { dir = codes "audit"; day = []; f = false; err = none }

log_all-lines_example :
    (log_all
      ((on_day (codes "1"), event (codes "a"))
        ∷ (on_day (codes "1"), unprintable)
        ∷ (on_day (codes "2"), event (codes "b"))
        ∷ [])
      closed
      []).1
    ≡ (codes "1", 97 ∷ 10 ∷ []) ∷ (codes "2", 98 ∷ 10 ∷ []) ∷ []
unfolding maybe
log_all-lines_example =
    log_all-lines
      ((on_day (codes "1"), event (codes "a"))
        ∷ (on_day (codes "1"), unprintable)
        ∷ (on_day (codes "2"), event (codes "b"))
        ∷ [])
      closed [] ((refl, refl), ((refl, refl), ((refl, refl), tt)))
