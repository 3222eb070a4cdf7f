-- ===== src/Serial.antt =====
-- internal/serialport: serial devices.
mod Names
mod Linux
mod Windows
mod Tests
