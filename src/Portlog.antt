-- ===== src/Portlog.antt =====
-- internal/portlog: the per-port log files.
mod Names
mod Writer
mod Tests
