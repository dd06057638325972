-- ===== src/Lib.antt =====
-- The safety core of the ROS 2 agent workflow: what stands between an agent and a moving robot.
--
-- The parts and how they interact. A task starts only through the safety gateway, a state machine
-- with one lock, an audit history, and a heartbeat deadline that a watchdog thread supervises. A
-- hardware robot is armed by a single-use challenge that a local operator creates. Commands to the
-- robot run on the one worker thread of a sequencer, which an emergency stop latches. The runtime
-- logs each transition of the gateway in an audit log with a schema.
--
-- - Common: names of the libraries, Boolean tests, lists, results, Python values, text.
-- - Profile: agent_ros/profiles/models.py and agent_ros/discovery/models.py, the records;
--   Profile/Mapping has `RobotProfile.from_mapping`.
-- - Safety: agent_ros/safety/state.py and agent_ros/safety/outcome.py.
-- - Challenge: agent_ros/safety/challenge.py; `create_operator_challenge`,
--   `consume_operator_challenge` and `_valid_record` under their names.
-- - Gateway: agent_ros/safety/gateway.py. `discover`, `validate`, `start_task` and `_require`,
--   `_transition`, `_check_limit` under their names; Gateway/Methods has the methods that take the
--   lock more than once, with `_fault` as `fault` and `_latch_estop_attempt` as `estop_attempt` with
--   `estop_commit`; Gateway/Burst has `_stop_repeatedly`; Gateway/Watchdog has
--   agent_ros/safety/supervisor.py; Gateway/Actions has the interleavings of threads.
-- - Sequencer: agent_ros/safety/sequencer.py. `submit` and `latch_and_quiesce` end where they wait;
--   `_run` is `take`, `settle` and `release`; Sequencer/Actions has the interleavings.
-- - Audit: agent_ros/runtime/audit.py. `validate_record` and the checks that it calls; Audit/Schema
--   has the transition tables, Audit/Event `_record` and `_encode`, Audit/Writer `append`,
--   Audit/History `validate_audit_history`, Audit/Worker `_AuditAppendWorker` with `_run` as `get`,
--   `begin_append`, `finish_append` and `leave`.
-- - Runtime: agent_ros/runtime/controller.py, how transitions come into the audit log.
--   Runtime/Ledger has `_register_transition` as `register_transition`; `_drain_pending_transitions`
--   as `take_item`, `write_item` (with `_append_audit`), `pop_item` and `release_drain`; and
--   `_infer_gateway_fault`. Runtime/Ledger/Actions has the interleavings of threads with the gateway.
--   `Storage` is what becomes of a record that is appended: stored, lost, stored although the append
--   is reported as failed, or torn, where `_rollback` fails.
--   Runtime/Budget has `_hospital_budget_error`. Runtime/Evidence has agent_ros/runtime/evidence.py:
--   `get`, `_read` and `write_json`.
--   Runtime/Errors has agent_ros/runtime/errors.py. Runtime/Flows has the controller's requests over
--   its gateway and ledger: Flows/Append has `_append_transition`, `_append_latest_gateway_fault` and
--   `_latch_adapter_fault`; Flows/Requests `_ensure_available`, `validate_profile` and `arm_robot`;
--   Flows/Tasks `run_task` and `cancel_task`; Flows/Stops `emergency_stop`, `_physical_estop`,
--   `task_status` and `observe`; Flows/Monitor `_poll_running` with `_finish_succeeded_task`;
--   Flows/Terminal agent_ros/runtime/terminal_evidence.py; Flows/Close `stop_runtime`. Other threads
--   take turns before each access to the gateway.
-- - Mission: examples/hospital_delivery/src/smartcar_bringup/smartcar_bringup/controller_core.py, the
--   controller of the hospital mission. `start`, `cancel`, `estop`, `reset` and `_fail` under their
--   names; Mission/Loop has the waypoint loop of `update`, Mission/Steering the rest of it,
--   Mission/Geometry what they compute, Mission/Route `load_route`, Mission/Status
--   `status`, and Mission/Steps the calls in any order.
--
-- How it is modelled. Stateful code passes its state on; code that raises returns the error. Each
-- definition ends where the code releases a lock, and a list of such actions is an interleaving of
-- threads, with nothing assumed of their order. Clock readings, times, velocities and limits are
-- fixed-point numbers, in nanoseconds for time. What the stop callback, SHA-256, the random token,
-- the boot identifier and the file system answer are arguments. A file path is known by its name. A
-- failing `assert` is an error of its own. Checks of the type of an argument whose type is fixed
-- here are left out.
--
-- The mission works on an argument that has the operations of Python floats; operands on which they
-- raise, such as a slow-down distance of zero, are left out, and so are the fields of its
-- configuration that the class does not read.
--
-- Fuel and bounds. The waypoint loop of a mission has one round of fuel more than its route has
-- waypoints: each of its rounds but the last passes one. No other function runs on fuel: the loops of
-- `_write_all` are recursion over the answers of the system. The gateway's history holds 256
-- transitions, the sequencer's queue 16 receipts, that of the append worker 256 and a terminal
-- marker, a stop burst 3 calls.
--
-- Not modelled. ROS clients, processes, the adapters, the discovery of a robot, the loop of the
-- monitor around its poll, profile files, the MCP server, and scripts: calls of other systems, or
-- glue over the parts above. An integer of a persisted record that no float can hold is left out of
-- the audit schema.
pub mod Common
pub mod Profile
pub mod Safety
pub mod Challenge
pub mod Gateway
pub mod Sequencer
pub mod Audit
pub mod Mission
pub mod Runtime
