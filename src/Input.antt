-- ===== src/Input.antt =====
-- Kernel input events: the numbers of linux/input-event-codes.h that the programs name.
mod Letters
mod Control
mod Keypad
mod Events
pub use Letters.*
pub use Control.*
pub use Keypad.*
pub use Events.*
