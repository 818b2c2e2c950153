-- ===== src/Passthrough.antt =====
-- kbm-passthrough (recipes-apps/kbm-passthrough/files/main.c): keyboard and mouse to HID reports.
pub mod Keymap
pub mod Keyboard
pub mod Mouse
pub mod Hotkey
pub mod ChordFile
pub mod Loop
pub mod Session
