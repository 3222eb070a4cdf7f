-- ===== src/Gui.antt =====
-- cmd/sercon-gui: the window.
mod Anim
mod KeyPanel
mod Layout
mod Hover
mod Rows
mod Tests
