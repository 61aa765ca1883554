-- ===== src/Tests.antt =====
-- Runs on concrete inputs, and the theorems applied to them.
mod Data
mod Scores
mod Jobs
mod Nodes
mod Policies
mod Risks
mod Heaps
mod Graphs
mod Queries
mod Disk
mod Edges
