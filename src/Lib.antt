-- ===== src/Lib.antt =====
-- A verification library for the EDR/SIEM programs of this repository: the detector (src/detection_engine.py with
-- src/privacy.py and src/signature_db.py), the readers of captures and inspection records (src/pcap_flow.py and
-- src/l7_inspector.py), the agent's delivery of events (src/agent_shipper.py), and the service's task queue, analysis jobs
-- and stored runs (src/task_queue.py, src/service_tasks.py, src/service_analysis_jobs.py, src/celery_tasks.py,
-- src/service_store.py and src/service_store_rows.py).
--
-- The agent posts batches of events and spools what it cannot deliver. The service records each batch as a task (a local
-- worker) or as an analysis job (a Celery worker), and a worker runs the analysis: events are sanitized, validated, sorted,
-- matched against the rules, grouped into beacons, correlated into incidents, and turned into risk rows. The result is
-- saved as a run with its rows in one transaction.
--
-- Base holds the shared lists, texts, sorting and tests on numbers; Json the Python values of JSON, with dictionaries in
-- insertion order; Python exceptions as values, hash keys, and Runtime, the library functions that the detector only calls.
-- Agent models src/agent_shipper.py: `ship_events` passes the queue directory and the calls so far as an explicit state; the
-- HTTP client is a parameter that may answer, raise an exception that `_send` catches, or raise another; json and the calls of
-- the file system are parameters that may raise (`Platform`), and a call that raises leaves the directory as it was. Agent/Delivery,
-- Agent/Settlement, Agent/Reading and Agent/Forwarding hold its theorems.
-- Service models the tables and transactions. Service/Tasks is src/service_tasks.py, Service/Worker is `TaskWorker` and the
-- loop of `_drain_queue`, Service/Runner is `LocalTaskRunner` with its threads as a step relation, Service/Jobs is
-- src/service_analysis_jobs.py, and Service/Jobs/Celery is `CeleryTaskQueue` with src/celery_tasks.py. The analysis that a
-- worker runs, the broker, and the database's choice of the oldest pending row are parameters with named promises.
-- Detection models src/detection_engine.py: Privacy, Validate, Signatures, Alerts, Rules (Network and Content), Detect (the
-- dispatch), Timeline (the sorts), Beaconing, Incidents, Risk, Views and Analyze (`analyze_events`). An exception is a value
-- that ends the analysis, as in the source.
-- Service/Runs is src/service_store_rows.py with `save_run_result`: the rows of a result and the tables that keep them. A
-- statement that breaks a key raises and rolls all back. A foreign key is checked when its row is written. Service/Runs/Job
-- is `run_default_analysis_job` of src/service_worker.py, which fills the workers' interface.
-- Pcap models src/pcap_flow.py over lists of bytes: Frames parses one frame, Pcap itself the records of a file, Http the
-- plaintext requests, Flows the table of flows and the events. A read out of range is an exception.
-- Inspector is `events_from_l7_records` of src/l7_inspector.py, with `urlparse` and the arithmetic of `datetime` as parameters.
-- Access is `require_api_token` of src/api_context.py and the policy of src/collector_policy.py, with the URL parser, the header
-- lookup and `compare_digest` as parameters. Detection/Siem is the destination tables of src/siem_analyzer.py; two counters
-- that the source keeps under the same keys are there one table.
-- Predictor models the scores of src/ai_predictor.py, Response the plan of src/response_engine.py.
-- Tests holds concrete runs, with a database that sorts its pending rows.
--
-- Loops over lists are structural recursions. `drain_queue` takes fuel, one unit for each round; one more than the number
-- of pending tasks is enough when no task is added meanwhile. The loop over the records of a capture has a round for each
-- byte of the file, and each round reads at least sixteen bytes. Numbers are unbounded, as in Python; a time is its
-- instant in microseconds.
--
-- Not modelled: sockets, files and threads of the collectors (src/mac_agent.py, src/local_collector.py), the HTTP routes
-- (src/api_app.py and src/api_routes), the query findings, the timeline and the endpoint nodes of src/siem_analyzer.py, the
-- table of predictions of src/ai_predictor.py, reports, and migrations. The `LocalTaskRunner` theorems count threads and
-- rows and do not look into the tasks.
pub mod Base
pub mod Json
pub mod Agent
pub mod Service
pub mod Python
pub mod Pcap
pub mod Access
pub mod Detection
pub mod Inspector
pub mod Predictor
pub mod Response
mod Tests
