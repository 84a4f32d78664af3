-- ===== src/Tests.antt =====
-- Concrete states, runs of the programs on them, and the theorems at them.
mod Data
mod Scene
mod Rings
mod Sessions
mod Lines
mod Machines
mod Handlers
mod Witnesses
