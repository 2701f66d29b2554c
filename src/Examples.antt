-- ===== src/Examples.antt =====
-- Concrete instances of the interfaces (an API server kept in memory, selectors over match labels)
-- and the runs of the theorems on them.
mod Memory
mod Cluster
mod Runs
mod Values
mod Reconciling
mod Settling
mod Starting
mod Copying
