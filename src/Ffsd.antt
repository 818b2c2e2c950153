-- ===== src/Ffsd.antt =====
-- dualsense-ffsd (recipes-apps/kbm-mapper-ff/files): the USB gadget, its control transfers, its input
-- devices and its writer thread.
pub mod Descriptor
pub mod Features
pub mod Setup
pub mod Slots
pub mod Capture
pub mod Writer
pub mod Daemon
pub mod Devices
pub mod Startup
