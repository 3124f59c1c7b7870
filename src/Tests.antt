-- ===== src/Tests.antt =====
-- Worked instances of the theorems, at inputs that the firmware meets.
mod Wire
mod Descriptors
mod Detection
mod Storage
mod Listing
mod Requests
mod Memory
mod Session
mod Registers
mod Displays
mod Inputs
mod Menus
