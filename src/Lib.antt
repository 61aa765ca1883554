-- ===== src/Lib.antt =====
-- A verification library for cnspec, the policy engine: from the results of queries to the
-- scores of checks, policies and assets.
--
-- Queries run and report datapoints. A graph of nodes (policy/executor/internal) passes results
-- and scores on: execution query nodes queue a query when its properties are known, datapoint
-- nodes keep the best result, reporting jobs gather scores and combine them by a score
-- calculator (policy/score_calculator.go), collectors hand out what reached them, and the
-- finisher tells when all data has come in. The executor (graph.go) goes over the nodes in
-- rounds, by priority. A score is then rated (policy/rating.go). Jobs of scans wait in a queue
-- on disk (policy/scan/pdque).
--
-- Common: names of the libraries, uint32 arithmetic (`u32`, `sub32`), Go's maps of keys (Keys)
--   and of values (Dict), integers (Integers), sums, and folds whose order does not matter.
-- Score, Score/Rating: policy/score.go and policy/rating.go; `completion` is `Score.Completion`,
--   `rating` is `Score.Rating`. Score/Severity has their properties.
-- Impact: policy/explorer_impact.go; `add_base` is `Impact.AddBase`. Impact/Base has its laws.
--   Impact/Codec is the JSON of scoring systems and impact values.
-- Calculator: policy/score_calculator.go. Calculator/Average, Weighted, Worst, Banded and
--   Decayed are the five types, with `init`, `add` and `calculate` for their methods; the fields
--   and statements that they share stand in Calculator/Tally. `Calculator` is the interface, and
--   `new_score_calculator`, `add_specd_score` and `add_data_score` are the functions of the
--   file. Order, Summary, Load, Completion, Totals, Value, Mean, Bands, Failing and Banding hold
--   what is proved.
-- Node: policy/executor/internal/nodes.go and waitgroup.go. Node/Result decides when a result
--   replaces another; Node/Datapoint, Node/ExecutionQuery, Node/Finisher, Node/ReportingQuery,
--   Node/ReportingJob and Node/Collectors are the node types, each with `consume` and
--   `recalculate` as functions on a state; Node/WaitGroup is the wait group, where a method that
--   panics returns `none`.
-- Graph: policy/executor/internal/graph.go and queue.go. `NodeData` is the interface of the
--   nodes, `Heap` that of Go's heap; `visit`, `drain` and `deliver` are the loops of a round of
--   `Execute`, and Graph/Execute has the rounds and the messages between them. Graph/Nodes puts
--   the node types behind the interface. Graph/Builder has the priorities that `Build` of
--   builder.go assigns, and Graph/Edges the lists of targets that `addEdge` keeps. Drain, Rule,
--   Level, Sending, Once and Settled hold what is proved of a round.
-- Risk: policy/risk_factor.go. Risk/Factor has the types, `DetectScope` and the comparison of
--   risk factors; Risk/Merge has `mergeSorted` and `minF`; Risk/Adjust has the two functions
--   `AdjustRiskScore`, `ScoredRiskFactors.Add` and `Migrate`. Risk/Compare says what a three-way
--   comparison must satisfy; Merge/Rounds, Merge/Sorting, Applied, Recorded and Joined hold what
--   is proved.
-- JobQueue: policy/scan/pdque/queue.go. The directory is a list of files, and `Disk` says which
--   calls of the operating system fail; `enqueue`, `dequeue`, `dequeue_block` and `close` are
--   the methods. Files, Enqueuing, Dequeuing, Held, Fifo and Bounded hold what is proved.
-- Resolve: policy/resolved_policy_builder.go, which turns the policies that apply to an asset
--   into the reporting jobs of the graph above. Resolve has the messages that it reads and the
--   state of `resolvedPolicyBuilder`; Resolve/Edges is `addEdge` and `addNode`, Resolve/Groups
--   the tests of groups, actions and filters (with policy/explorer_filters.go), Resolve/Types
--   `collectQueryTypes`, Resolve/Overrides and Resolve/PolicyOverrides
--   `gatherGlobalInfoFromFramework` and `gatherGlobalInfoFromPolicy`, the latter on a store of
--   impacts, whose results are inputs of the others, Resolve/Queries `addQuery`, Resolve/Risks
--   `addRiskFactor`, Resolve/Policies `addPolicy` and Resolve/Frameworks `addFramework` and
--   `addControl`. Resolve/Walk is the walk from the nodes that cannot be pruned, Resolve/Jobs
--   what each node builds, and Resolve/Jobs/Connect how the jobs are connected, with
--   `CollectorJob.Validate` of policy/collectorjob.go. The modules below these hold what is
--   proved.
-- Tests: runs on concrete inputs, and the theorems applied to them.
--
-- Integers are natural numbers with the wrap-around of uint32 written out. The merge of risk
-- factors runs as many rounds as there are elements, each of which takes one. A round of the
-- executor runs on fuel, and Execute/Ends says how much is enough: the queue shrinks, or items
-- with a lower cost replace one. Assigning priorities runs on fuel above the length of every
-- path. Adding queries and policies runs on fuel above a rank that falls from a query to its
-- variants and from a policy to those that it refers to, and the walk over their graph on fuel
-- above the number of its nodes. The search for a free file name runs on fuel above the
-- timestamps in use. All other loops go over lists. Go's maps are association lists, whose order
-- stands for the order in which Go happens to range over them. `none` stands for nil, an error
-- or a panic, as the comment at each definition says.
--
-- Parameters: float64 with its operations (Calculator/Float), the casting and conversion of
-- results in the mql library (Node/Datapoint, Node/ExecutionQuery), `strconv.Itoa`, float32 with
-- `cmp.Compare` and `strings.Compare` (Risk/Factor), `container/heap` with what it documents
-- (Graph), `encoding/json` (Impact/Codec), `encoding/gob` (JobQueue), `==` and `<` on node ids
-- (Graph/Edges), the compilation of queries and the checksums (Resolve/Jobs), the clock
-- (`is_past` in Resolve), and the reading, sorting and joining of values, strings and errors
-- (Node/ReportingQuery).
--
-- Not modelled: logging and progress output, locks (each method is one step), the execution
-- manager, the nodes that `Build` makes, opening a queue on disk, the checksums and the JSON of
-- risk factors, the properties of queries, the data queries of risk factors in the resolved
-- policy, reading bundles, storage, reporters and commands.
pub mod Risk
pub mod Resolve
pub mod Common
pub mod Score
pub mod Impact
pub mod Calculator
pub mod Node
pub mod Graph
pub mod JobQueue
pub mod Tests
