-- ===== src/System.antt =====
-- The two programs on one set of rings: who owns each buffer, handler by handler.
pub mod Ledger
pub mod BusInv
pub mod Take
pub mod Work
pub mod Complete
pub mod Irq
pub mod Job
pub mod Served
pub mod Ended
pub mod Delivery
pub mod Session
pub mod Failed
pub mod Starved
pub mod Jammed
pub mod Line
pub mod Machine
pub mod Serve
pub mod Steps
pub mod Width
pub mod Start
pub mod Answer
