-- ===== src/Lib.antt =====
-- Flotilla runs containers on Kubernetes clusters. A client asks the API for a run of a task
-- definition or of a template; the run is saved in PostgreSQL and put into a queue; workers take it
-- from there, launch its job on a cluster, follow the job, and queue the run again when it is to be
-- retried.
--
-- The parts, and the files that model them:
--  * Common: the names that all modules share; Go's strings, slices, int64 arithmetic, errors
--    (exceptions/errors.go) and panics.
--  * Utils: utils/utils.go: MergeMaps, and the JSON values that its maps hold (StringSliceContains is in
--    Common). Utils.DeepEqual is the comparison of such values that services/template.go asks of Go.
--  * State: state/models.go, state/pg_state_manager.go and state/pg_queries.go. State.Types and
--    State.EventTypes have the types, State.Constants the package's variables, State.RunUpdate `(*Run).UpdateWith` (its child Status the lifecycle of the
--    status, Fields the other fields), State.Validity the validation and the other partial updates,
--    State.TaskTable GetRun, UpdateRun and CreateRun on the table `task` as a list of rows,
--    State.DefinitionTable and State.WorkerTable the tables of definitions and workers, and State.Queries
--    the texts of the queries for lists.
--  * Adapter: execution/adapter/eks_adapter.go. Adapter.Resources is adaptiveResources and what it
--    calls, Adapter.Requirements constructResourceRequirements, Adapter.Environ envOverrides,
--    Adapter.Affinity constructAffinity, Adapter.JobSpec AdaptFlotillaDefinitionAndRunToJob, and
--    Adapter.Jobs AdaptJobToFlotillaRun.
--  * World: what the services and the workers share: the tables, and the messages sent so far.
--  * Queue: queue/sqs_manager.go. The client of SQS is a parameter, a state with its calls; Queue.Delivery
--    says what is relied on of it.
--  * Engine: execution/engine/eks_engine.go, on the answers of the Kubernetes API; Engine.Eks.Polling is
--    Enqueue and PollRuns, on the queue.
--  * Worker: worker/submit_worker.go, worker/retry_worker.go, worker/status_worker.go, worker/events_worker.go,
--    worker/cloudtrail_worker.go, worker/worker_manager.go and NewWorker of worker/worker.go.
--    Worker.Submit.Once joins the submit worker and the EKS engine.
--  * Clients: clients/httpclient/client.go: one exchange, and the retries. Clients.S3Logs and
--    Clients.CloudWatchLogs are the two clients of clients/logs, and Services.Logs is services/logs.go.
--  * Flotilla: flotilla/endpoints.go: Flotilla.Launches has the endpoints that create runs, Flotilla.Lists the
--    requests for lists, Flotilla.Reads those that read a run and its logs, Flotilla.ByName the runs of a template by
--    its name, and Flotilla.Entities the endpoints of definitions, workers and templates, and those that
--    stop a run or set its status.
--  * Services: services/definition.go is Services.Definitions, services/worker.go Services.Workers,
--    services/template.go Services.Templates, on a store of templates that is an interface with laws, and
--    services/execution.go Services.Execution. Services.Execution.Requests and Construct make a run of a request,
--    Enqueue saves and queues it, UpdateStatus and ExitReason set its end by hand, Terminate stops it.
--    Services.System puts the service and the workers together as a step relation: any of them may take
--    a step on the world at any time, with any failure, and so may any other call of UpdateRun.
--  * Examples: concrete runs, worlds and requests, on which the theorems and the definitions are used.
--
-- How the code corresponds to the definitions:
--  * A definition has the name of its function in snake case. A pointer is an `Option`; where the code
--    compares two pointers, the result of the comparison is modelled: as the kind of reference in
--    Services.Execution.Requests, as an input in Worker.Status.
--  * A nil dereference or a slice out of range is `panics`, an error is a value, and what a database, the
--    cluster or the queue may refuse is an argument, so that a theorem about all arguments is about all
--    failures. Times are numbers of nanoseconds. int64 and int32 wrap where the code multiplies or
--    converts. A ratio of the database that the code compares with a threshold is the Boolean that the
--    comparison gives.
--  * A function that ranges over a map works on an association list, whose order is that in which Go
--    happens to range. Columns of JSON are taken to be read as they were written. A UUID is ASCII.
--  * Every loop is over a list, or counts down the retries of a request or the lines of a page, and recurs on it;
--    a loop that the code never leaves gives none. The digits of a
--    number are made in as many rounds as it says, which Common.Decimal shows to be enough.
--
-- Not modelled: log lines, metrics, configuration and start; the endpoints that only pass on what a service
-- returns; the clients of AWS, Datadog and Redis; the EMR engine; the table of templates;
-- the queries on the history of runs and what lists return, whose answers are arguments.
pub mod Common
pub mod Utils
pub mod State
pub mod Adapter
pub mod Clients
pub mod Flotilla
pub mod World
pub mod Engine
pub mod Queue
pub mod Worker
pub mod Services
pub mod Examples
