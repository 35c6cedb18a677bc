-- ===== src/Desktop.antt =====
-- The control panel of p2pearl/gui.py: its settings and the command lines made of them, the payout
-- table, and the window's buttons, threads and events.
pub mod Settings
pub mod Arguments
pub mod Normal
pub mod Panel
pub mod Buttons
pub mod Pending
pub mod Floats
pub mod Payouts
pub mod Amounts
pub mod Pearld
mod Tests
