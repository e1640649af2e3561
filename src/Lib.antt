-- ===== src/Lib.antt =====
-- A model of the core of chum, a program that plans tasks and dispatches them to agents, part by part.
--
-- - internal/graph/task.go and dag.go: the task graph in its two SQL tables. Graph/Task holds the record
--   of a task and the tests on its status and type; Graph/Db the tables and every SQL statement as a
--   function on them; Graph/Value the dynamically typed values of an update and the errors; Graph/Dag
--   CreateTask, GetTask, ListTasks, GetReadyNodes, GetDependents, AddEdge and RemoveEdge; Graph/Update
--   UpdateTask, CloseTask and AutoUnblockDependents. Graph/Cycle is about the recursive query of the cycle
--   check, Graph/Invariant about validity of the tables, Graph/Ready about the way to the status ready.
-- - internal/graph/graph.go and cross.go: Graph/DepGraph and Graph/Cross model the graph in memory, the
--   dependencies between projects, and the two filters that choose the tasks to dispatch.
-- - internal/portfolio/portfolio.go: Portfolio and Portfolio/Gather model the backlogs of all projects. They
--   call the listing of the task graph and the filters.
-- - internal/store/dispatches.go, on the table provider_usage: Dispatch/Usage has the interface that the
--   limiter uses, in which every call may fail, and the table that implements it, where what fails is a
--   parameter. The limiter relies on a failed insertion leaving no row, which holds but for LastInsertId.
-- - internal/dispatch/ratelimit.go: Dispatch/RateLimit, over that interface.
-- - internal/temporal/agent_cli.go: Agents models the failure tracker and EscalationChain.
-- - internal/temporal/failure_classifier.go: Failure models every function.
-- - internal/temporal/workflow.go: Workflow models ChumAgentWorkflow, the types of its requests and of the
--   answers of its activities standing in internal/temporal/types.go, sentinel_activities.go and
--   ubs_activities.go. Workflow/Round is one pass of its loop, stage by stage; Workflow/Run the loop and the
--   way in and out of it; Workflow/Gate the waits of awaitResumeGate. The answers of the activities and the
--   signals that each wait receives are parameters, and each call of an activity or child workflow and each
--   wait is an entry of a list. It uses the classifier of failures.
-- - internal/temporal/workflow_dispatcher.go: Dispatcher models how ScanCandidatesActivity chooses among the
--   ready tasks; Dispatcher/Gather how it lists and promotes them over the task graph, with the filter of
--   the graph in memory; Dispatcher/Candidates both together; Dispatcher/Tick what DispatcherWorkflow starts for
--   the chosen ones, the agent workflow or another; Dispatcher/Ids the ids of workflows.
-- - internal/store/claims.go, plan_gate.go, stages.go and safety.go, over the tables of
--   schema_scheduling.go: Store/Claims, Store/PlanGate, Store/Stages and Store/Safety model every function.
--   Store/Planning models the snapshots and the blacklist of planning_control.go.
--   Store/Table has upserts, updates, deletions and lookups by a key, and Store/Rows what they do to a table.
--
-- Base and Text hold what these parts share: integers, lists, results, sort.Slice, strings as lists of
-- bytes, maps with string keys as association lists. Function names are those of the code in snake case; a
-- method of the store or of a graph takes it as an argument, and one that changes it returns it. A Go error
-- is a value of Result, and a statement that fails leaves the tables as they were.
--
-- Bounds. CreateTask draws at most the 10 ids of the code. The recursive query of the cycle check is
-- given as many rounds as there are edges and one more. Numbers printed in decimal are given as much fuel
-- as the number is large. The loop of attempts of the workflow is given as many rounds as its tier has
-- retries and eight more: a pass that is free uses up one of the seven reasons of the failure classifier.
-- Counts of rows have no bound; sums of estimates wrap around at 64 bits.
--
-- Not modelled: failures of the SQL engine, but for a taken primary key of a task and the statements on
-- provider_usage; nil receivers; the creation of tables; letters and blanks outside ASCII; the encoding
-- of labels as JSON, which are held decoded, with `decode` as the parameter for json.Unmarshal; the
-- metadata of safety blocks, with encoding/json as a parameter; the home directory and filepath.Join,
-- which are parameters. Rows that a statement returns without ORDER BY, or that it leaves equal, come in
-- the order of the table, entries of a map in the order of the list, and elements that sort.Slice may
-- leave in any order in that of the input. The random ids of tasks are drawn by a parameter. Of the agent
-- workflow tokens, durations and the texts of its messages;
-- of the scan for candidates the ceilings on tokens, prompts, the escalation tiers and the listing of
-- open workflows; of planning control the scores; percentages and scores are floating point. Timeouts are
-- those that a Duration can hold. The other packages are input and output, run over the Temporal SDK, or
-- are left out.
pub mod Base
pub mod Text
pub mod Graph
pub mod Portfolio
pub mod Dispatch
pub mod Agents
pub mod Failure
pub mod Dispatcher
pub mod Workflow
pub mod Store
pub mod Tests
