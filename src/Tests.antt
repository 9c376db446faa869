-- ===== src/Tests.antt =====
-- Concrete queues, heaps and runs: tests of the definitions, and instances of the theorems.
mod Data
mod Operations
mod Queues
mod Reads
mod Codes
mod Drivers
mod Contexts
mod Deliveries
mod Pulls
mod Lines
mod Descriptors
mod Pauses
mod Rounds
mod Maps
