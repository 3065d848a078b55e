-- ===== src/Tests.antt =====
-- The theorems at concrete inputs.
mod Setting
mod Transfers
mod Operations
mod Groups
mod Locks
mod Process
mod Refused
mod Heap
mod Together
mod Caches
mod Waits
mod Counted
mod Delivery
mod Messages
mod Epochs
mod Fenced
mod Adds
mod Reduced
