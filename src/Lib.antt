-- ===== src/Lib.antt =====
-- Token-Board meters the usage of model upstreams and of agent products, and bills recurring
-- charges for them. This library models the recurring billing of its Python part.
--
-- The parts and how they interact. A worker polls the usage endpoint of each upstream key and stores
-- one snapshot per key (app/services/key_usage.py). The snapshots and the configuration rows
-- give the recurring billing units (app/services/billing_units.py). A billing run resolves the
-- current period of each unit, writes one charge row for it, fills in the exchange rate where one
-- is stored and freezes the row (app/db/proxy/billing.py, app/services/fx.py). All dates go through
-- app/core/time.py.
--
-- The files.
--   Base         tests on numbers, lists, and `Result`, a Python call that may raise.
--   Time         app/core/time.py: `billing_period`, `next_billing_period`; Stamps has
--                `parse_runtime_timestamp`, `format_utc` and `parse_external_timestamp`.
--   Usage        app/services/key_usage.py: `parse_usage_body` and its helpers; Poll has
--                `advance_monthly_period`, `_failure`, `_query_usage` and the polls of one key.
--   Units        app/services/billing_units.py: `parse_observed_period`, `parse_subscription_state`,
--                the verdicts; Resolve has `BillingUnitResolver.proxy_units` and `agent_units`, and
--                Cancel has `_cancellation_end` of app/db/proxy/common.py.
--   Billing      app/db/proxy/billing.py: Resolve has `resolve_unit_period`, Rates has
--                `_rate_from_table`, `_normalized_charge` and `FxRateResolver.resolve`, Stream has
--                `_materialize_period_stream`, and Run has the two runs (Run/Events
--                with their export), `_finalize_period_stream`,
--                `_attach_agent_charge_owner`, `proxy_billing_ready` and
--                `agent_billing_ready`.
--   Export       app/db/proxy/billing_export.py: `_insert_event` and its comparisons; Rows has the
--                event of each row and `ensure_billing_export_events_conn`.
--   Replay       app/services/codex_replay.py: the prefix searches and `replay_skip_counts`; Index
--                has `_session_index` over decoded, normalized records.
--   Import       app/services/agent_usage: the events of ir.py and common.py, one insertion of
--                app/db/proxy/routing.py; Scan has `_import_software` of importer.py.
--   Merge        app/services/codex_segments.py: `merge_codex_records`; Topological has the graph and
--                its merge, Files the reading of the copies.
--   Workers      app/services/runtime_tasks.py: `AgentUsageImportWorker`, as the steps of its thread and
--                the calls of others; Served, Halt and Cadence are about its runs.
--   Pricing      app/db/proxy/pricing.py: `reorder_pricing_order` (Assign and Reorder are about it);
--                Tiers has `_validate_length_tiers`, Timeouts has `update_timeout_config`.
--   Deletion     app/db/proxy/deletion.py: `purge_client_keys`, `purge_route_sets`,
--                `purge_proxy_account`, and `purge_credential`, on the foreign keys of the tables.
--   Recovery     app/db/schema_upgrade/engine_core.py: `backup_files` and
--                `recover_incomplete_manifests`.
--   Tests        the theorems at concrete inputs.
--
-- How code becomes definitions. A moment is a number of microseconds since 0001-01-01T00:00:00Z,
-- a date is a number of days and a month a number of months since then; Python has the years 1 to
-- 9999, and a date outside them is an exception. A text that is only compared (a uuid, a name, a
-- masked key) is a number. A timestamp column holds the moment that its text names. A float is a
-- value of a type `F` with a product, a zero and a one; only that a float equals itself is
-- assumed, for the comparison of export events, since SQLite stores a NaN as NULL. A JSON
-- document is the record of the fields that the code reads. A table is the list of its rows in
-- the order of the query that reads it, and an UPDATE or INSERT is a function on that list. An
-- exception is a value of `Result`. The clock and the answers of upstreams are arguments.
--
-- Fuel. `search_month` looks for the month of a day from the January of a year that is not later;
-- `month_of_lem` shows that its fuel is enough. `bill_chain` walks along the anchor calendar with one
-- round for each month of the calendar; two rounds are enough, since the runs begin with the current
-- period. `take_ready` of the transcript merge has one round more than there are nodes,
-- and `catch_up` of a worker's deadline one round more than the seconds that the deadline is late.
--
-- Not modelled: the C++ proxy, the HTTP routes, the front end, SQLite itself, the network, and
-- the services of app/services and app/db that are not named above (the adapters of agent usage,
-- synchronization, the rest of the schema upgrades, reports, and the creation and cancellation of
-- accounts). The columns that a billing run snapshots for export are not in the ledger: what the
-- export selects of them, and of the joined tables, is an argument of the run (`Joins`).
pub mod Base
pub mod Time
pub mod Usage
pub mod Units
pub mod Billing
pub mod Export
pub mod Replay
pub mod Import
pub mod Merge
pub mod Workers
pub mod Pricing
pub mod Deletion
pub mod Recovery
pub mod Tests
