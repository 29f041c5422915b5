-- ===== src/Lib.antt =====
-- Aruba Network Agent: a model of its core, with the theorems that make it correct.
--
-- The agent watches network switches. aruba_agent/state.py keeps the registry of switches and the
-- results of the tasks, and saves it as one JSON file. aruba_agent/monitors/switch_poller.py runs
-- one monitor for each switch: a poll probes the switch, counts failures, flips it between UP and
-- DOWN in the registry and raises alerts. aruba_agent/alert_batcher.py collects the alerts of a time
-- window into one email. aruba_agent/thresholds.py, run by aruba_agent/tasks/threshold_eval.py,
-- raises and clears alerts on measured values. aruba_agent/local_auth.py keeps the users of the web
-- interface and aruba_agent/api_tokens.py its tokens; aruba_agent/web/app.py signs users in over
-- both. aruba_agent/scheduler.py starts the tasks, and aruba_agent/trap_receiver.py stores and mails
-- SNMP traps that aruba_agent/traps.py classifies. aruba_agent/snmp.py walks the tables of a device,
-- from which aruba_agent/interfaces.py computes the load of its ports and aruba_agent/fdb.py the
-- addresses learned on them; aruba_agent/drivers/detector.py tells its vendor.
-- aruba_agent/manual_hosts.py keeps the hosts that operators add.
--
-- Files:
--
-- - State/Data.antt: the dataclasses of state.py and the JSON payload. State/Snapshot.antt: `_load`,
--   `_save` and store/json_store.py. State/Ops.antt: the methods of `AgentState`, under their names.
--   State/Calls.antt: the calls of the other components, the write that a page makes past the methods,
--   and a run of them. The proofs are in Kept, Effect, WellFormed, Restart, Durable, Mute and Lookup.
-- - Poller/Data.antt: `SwitchMonitor` and what the network answers. Poller/Probe.antt: `_poll_snmp`,
--   `_poll_rest`, `_poll_icmp`, `_ssh_reachable`, `_poll_reachability`. Poller/Alerts.antt:
--   `_maybe_send_alert`. Poller/Poll.antt: `_poll` and the two lazy resolvers. Poller/PoolOps.antt:
--   `SwitchMonitorManager`. The proofs are in Ladder, Dedup, Keeps, Health, Transitions and Pool.
-- - Batcher.antt: `AlertBatcher`, with the proofs in Delivery and Timers.
-- - Thresholds/Engine.antt: `ThresholdEvaluator` over a type of numbers with comparisons.
--   Thresholds/Runner.antt: `ThresholdEvalTask`. The proofs are in Alternation, Sustained and Runner.
-- - LocalAuth/Data.antt, Users.antt, Keys.antt: the methods of `LocalAuthStore`, over scrypt as an
--   argument. LocalAuth/Calls.antt: a run of them. The proofs are in Sound, Served, Staffed and
--   SignIn.
-- - ApiTokens.antt: the methods of `ApiTokenStore` in aruba_agent/api_tokens.py. The proofs are in
--   Scopes and Revoked.
-- - Scheduler.antt: `Scheduler` in aruba_agent/scheduler.py, with the proofs in
--   Scheduler/Daily.antt.
-- - Traps/Classify.antt: aruba_agent/traps.py. Traps/Handler.antt: the handler of
--   aruba_agent/trap_receiver.py. The proofs are in Spaced and Rate.
-- - Web/Throttle.antt: `_LoginRateLimiter` in aruba_agent/web/app.py. Web/Login.antt and
--   Web/Account.antt: the routes that sign a user in and out, over the backends of Web/Data.antt, and
--   the check of a passkey in aruba_agent/passkeys.py. Web/Guards.antt: the two decorators.
--   Web/Visits.antt: requests with cookies, and a run of them. Metrics.antt: the counters of
--   aruba_agent/metrics.py. The proofs are in Evidence, Earned, Locked, Counted, Scoped and Guesses.
-- - Snmp/Pages.antt: `SnmpAgent.bulk_walk` in aruba_agent/snmp.py, over what a device answers. The
--   proofs are in Ends, Page, Column and Complete.
-- - Interfaces/Util.antt: `compute_util` in aruba_agent/interfaces.py, over an interface of floats.
--   Interfaces/Poll.antt: `InterfacePollTask` in aruba_agent/tasks/interface_poll.py. The proofs are
--   in Percent, Bounds and Restart.
-- - Fdb/Mac.antt and Fdb/Table.antt: aruba_agent/fdb.py. Fdb/Search.antt: `search` in
--   aruba_agent/tasks/l2_discovery.py. The proofs are in Spelling, Places, Counts, Rows and Edge.
-- - ManualHosts.antt: `ManualHostsStore` in aruba_agent/manual_hosts.py, with the proof in Modes.
-- - Detector.antt: `VendorDetector` in aruba_agent/drivers/detector.py, with the proof in Cached.
-- - Prelude.antt: shared types, Boolean tests, lists, dictionaries in insertion order, texts.
--
-- Conventions. A method that changes an object takes it and returns the new one, with its result
-- beside it; a lock makes each method one step. A time is a number of microseconds in the registry,
-- in the poller and within a day of the scheduler, and of seconds elsewhere, and `datetime.now()` is
-- an argument. A Python dictionary is a list of pairs in insertion order, where an update keeps the
-- place of a key. What third-party packages, devices and the file system answer is an argument.
-- Loops are structural recursion, but for the pages of `bulk_walk`, whose fuel is one more than
-- `max_rows`: each page but the last reads a row. A monitor's thread is a sequence of polls; runs of
-- different monitors meet only in the registry, whose methods are atomic.
--
-- Not modelled: the views and settings pages of the web application, the SNMP and driver sessions,
-- the Mongo store, encryption and email themselves, which are input and output around the modelled
-- parts; log lines; the regular expressions that read a version from a description.
pub mod Prelude
pub mod State
pub mod Poller
pub mod Batcher
pub mod ApiTokens
pub mod Detector
pub mod Fdb
pub mod Interfaces
pub mod LocalAuth
pub mod ManualHosts
pub mod Metrics
pub mod Scheduler
pub mod Snmp
pub mod Thresholds
pub mod Traps
pub mod Web
