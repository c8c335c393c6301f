-- ===== src/Lib.antt =====
-- AIOps Distributed Log: logs go from a generator over Fluentd and Kafka to a Spark streaming job,
-- which marks anomalies and writes them to Delta Lake, PostgreSQL and a Kafka topic of alerts, from
-- where a FastAPI gateway stores them and sends them to its WebSocket clients. This library models
-- the Python code of that system, module by module, and proves what each part does.
--
-- Which file models what (paths from the repository's root):
--   Prelude      Python's tests, lists, ints and exceptions (`Result`), over the native naturals.
--   Floats       Python's floats as an interface with the laws of rounding that the code relies on;
--                Floats/Fixed is an instance in whole numbers.
--   Postgres     psycopg2 and PostgreSQL's transactions as an interface over the contents of the
--                database: a statement is what it does to them, one that raises aborts its
--                transaction, and an aborted transaction stores nothing. Postgres/Caught: the loop that
--                catches what a statement raises. Postgres/Scripted is an instance.
--   Tables       GROUP BY, of SQL and of data frames, as lists of rows by key; and the rows of the
--                tables of docker/postgres/init.sql that the Python code reads and writes.
--   Stream       src/processing/stream_processor.py. Enrich: `read_kafka_stream`. Train:
--                `train_model`. Alerts, Health, Metrics: the three writers to PostgreSQL; Health and
--                Metrics share Transactions; Health/View sees the table of health up to its order.
--                Process: `BatchProcessor` with its six sinks; Process/Stages has the frame
--                `processed` and the writers to Delta Lake, Kafka and `batch_metrics`. Job: `main`.
--   Api          src/api/main.py. Connections: `ConnectionManager`; Connections/Tasks has the steps
--                of the event loop's tasks as a relation; Connections/Endpoint is
--                `websocket_live_alerts`. Alerts: `AlertEvent` and one message of
--                `kafka_consumer_loop`, Alerts/Loop the loop around it. Queries: the four endpoints
--                that read PostgreSQL. Service: `lifespan` and `health_check`. Demo: the script of the
--                demo page.
--   Flow         where programs meet: what `_publish_alerts` writes, as the gateway (Carried) and the demo
--                page (OnPage) read it; the two writers of the table of alerts (Twice); the rows for Delta
--                Lake against the table that init_lakehouse.py creates (Lake); the rows of `batch_metrics`
--                as the endpoint of the trends sums them, after one batch and after the whole job (Trends);
--                the table of health after the whole job, as its endpoint answers it (Health);
--                and the two endpoints next to each other (Agreement).
--   Training     src/ml/train_model.py; Training/Main has its `main`.
--   Chaos        chaos/. Host: the machine that commands run on. Text: Python's text methods on the
--                output of commands. Polling: the loop `while time.time() < deadline`. Fluentd,
--                Kafka, Delta, Latency: the four scenarios. Fluentd/Offsets: the output of GetOffsetShell.
--                Delta/Snippet: the script that reads the table. Runner: chaos_runner.py;
--                Suite: the runner with the four scenarios. Config: chaos_config.py.
--   Scripts      scripts/ and docker/log-generator/: HealthCheck, Topics, Audit, Lakehouse, Replay,
--                GenerateLogs, Submit; AlertImport: insert_alerts.py.
--
-- How the parts meet: the streaming job's `publish_alerts` appends to the topic whose messages the
-- gateway handles one by one; both insert into `anomaly_alerts_pg` by `Tables.Rows.insert_alert`, from
-- which `Api.Queries.Recent` selects; `batch_metrics` and `component_health` are written by Stream and
-- read by `Api.Queries.Summary`. Training shares `Stream.Train.choose_cluster` with the job.
--
-- How the code is read:
--   * A data frame or a table is the list of its rows, a query its relational meaning over the list.
--     Groups come in the order of their first rows, on which the two writers that
--     group do not depend (Tables/Order), and of equals in a sort the first is taken; where
--     the server sorts, the order is a parameter.
--   * Labels are naturals, and 0 or 1 where a theorem says so. Times and dates are numbers. Averages
--     of labels are compared as fractions.
--   * An exception is a value. A write over Spark that raises may leave any rows behind.
--   * Outcomes of the surroundings (clocks, uuids, failures, clients) are arguments.
--   * A character of the demo page is one UTF-16 unit. Its sockets and timers are counted; what the
--     browser may do next is a step relation.
--   * Between two awaits a task of the gateway runs alone; the consumer awaits each broadcast, so that
--     at most one is under way, and a cancellation of it arrives between two messages.
--   * A scenario's loop runs on fuel. A round that does not end a loop sleeps for at least a second,
--     so one round more than there are seconds to wait is enough: 46, 61 and 31 rounds for the
--     scenarios, and one more than its argument for the topics. The theorems on the ends of the
--     programs say so. `process_all` and `consumer_loop` run over lists of batches and sessions, and
--     `replay` over a number of passes, since the loops themselves have no end.
--
-- Parameters, with what is asked of them: pydantic and `json.loads` (`IsValidation`), the formats
-- of times and numbers on the way to the gateway (`IsWire`), `JSON.parse` of the browser
-- (`Browser`), Spark ML (`IsMl`: a model keeps the rows of a frame), PostgreSQL (`IsPsycopg`) and
-- its ORDER BY (`IsOrder`: it keeps the rows), floats (`IsFloats`), GetOffsetShell (`IsBroker`: a
-- line for each partition), spark-submit (`IsSpark`: it prints what the script prints), the host's
-- clock (`IsHost`: it does not run backwards, and a sleep takes its time; `IsPrompt`: what takes
-- how long, for the theorems on deadlines), Spark's parsers, `str.upper`, the admin client of
-- Kafka, kafka-python and websockets on the host, Delta Lake. Each has an instance in the tests.
--
-- Not modelled: /metrics of the gateway, HTML inside the demo page, the set-up of Spark sessions and
-- pipelines, log output, patch_dashboards.py, and the deployment.
pub mod Prelude
pub mod Floats
pub mod Flow
pub mod Postgres
pub mod Scripts
pub mod Tables
pub mod Training
pub mod Api
pub mod Chaos
pub mod Stream
