-- ===== src/Examples.antt =====
-- Concrete runs of the theorems: a small queue, a call site and buffers on which they apply.
mod Queue
mod Data
mod Runs
mod Calls
mod Threads
mod Delivered
mod Prefixes
mod Expansions
mod Archived
mod Ring
mod Callers
mod Jobs
mod Dropped
