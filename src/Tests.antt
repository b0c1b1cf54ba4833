-- ===== src/Tests.antt =====
-- Runs of the model at concrete inputs.
mod History
mod Files
mod Pruned
mod SideTables
mod Limits
mod Sizes
mod Registry
