-- ===== src/Tests.antt =====
-- Runs of the model, and the theorems at concrete inputs.
mod Toy
mod Formats
mod Vaults
mod Passwords
mod Disks
mod Locks
mod Clipboards
mod Bodies
mod Repositories
mod Methods
mod Commands
mod Machines
mod Endings
