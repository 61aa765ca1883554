-- ===== src/Node.antt =====
-- policy/executor/internal: the nodes of the graph that turns query results into scores.
pub mod Result
pub mod Datapoint
pub mod ExecutionQuery
pub mod Finisher
pub mod WaitGroup
pub mod ReportingJob
pub mod ReportingQuery
pub mod Collectors
