-- ===== src/Tests.antt =====
-- The theorems at concrete inputs, and runs of the modelled code.
mod Queues
mod Linked
mod Rings
mod Runs
mod Trees
mod Pipelines
mod Routes
mod Scenarios
