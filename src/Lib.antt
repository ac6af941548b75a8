-- ===== src/Lib.antt =====
-- Verification of the NemoClaw lab's services (Python, under `services/` and `libs/`).
--
-- The lab shows an agent that finds a hardware fault, asks a human for approval and remediates. The
-- Orchestrator picks a scenario and injects its fault into the Simulator; the agent reads the
-- Simulator through the MCP Tools service and reports the fault to the Gateway; a human approves or
-- denies on the Gateway's dashboard; on approval the Gateway registers the fault event and mints a
-- token in MCP Tools, and its executor calls `remediation.execute` there with that token, which
-- clears the fault in the Simulator.
--
-- Which file models what:
-- - Models: `libs/common/models.py`; Packs and Packs/Loader: `libs/common/pack_loader.py`, on a
--   folder whose files are read and validated.
-- - McpTools/TokenStore, FaultRegistry, Remediation: `services/mcp_tools/token_store.py`,
--   `fault_registry.py` and `tools/remediation.py`. `remediation_execute` is `validate` up to its
--   `await` and `finish` after it, so that McpTools/Server/Interleaving can run several at once.
-- - McpTools/Server: the internal endpoints of `services/mcp_tools/main.py` and the tool
--   `remediation.execute` of `server.py`. McpTools/Adapters and its Redfish: `adapters/generic.py`
--   and `adapters/redfish.py`, whose HTTP client is a parameter.
--   McpTools/KbIndex: `kb_index.py`, with the embedding library as a parameter. McpTools/Propose:
--   `remediation_propose` of `tools/remediation.py`, where a path arrives being a parameter, and
--   McpTools/Notify: `tools/notify.py`, both over the Gateway's routes.
-- - Gateway/Sse and Gateway/Store: the broker and the store of `services/gateway/store.py`.
--   Gateway/RedisStore: `redis_store.py`, over the commands of a Redis server (`Redis`) and the texts
--   on the wire (`Wire`); RedisStore/Ops lists the operations that both stores share.
-- - Gateway/Executor: `services/gateway/executor.py`. Gateway/Runbook, Faults, Decision and
--   Presenter: the routes of `services/gateway/router.py`; Decision also holds the calls to MCP
--   Tools, and Presenter those to the Orchestrator, so that a reset spans the three services.
--   Gateway/Terminal: `services/gateway/terminal.py`, whose HTTP client is a parameter.
-- - Simulator/Engine, Control and Generic: `services/simulator/engine.py`, `control.py` and
--   `surfaces/generic.py`. Simulator/Redfish and its Power: `surfaces/redfish.py`, each document as
--   a value of `Json`.
-- - Orchestrator/Rotation, Highlight, Router and Queries: `services/orchestrator/rotation.py`, `router.py`
--   and `simulator_client.py`, whose client drives the modelled simulator.
-- - Terminal/Process: what `services/terminal/console.py` uses of its host, as a parameter (`Host`).
--   Terminal/Console: its menu, command lines and checks; Console/Actions: `run_target`, `run_reset`,
--   `reset_main_session` and `check_configured`; Console/Loop: `main`, one operator line at a time.
--   Terminal/Daemon, its Status and its Serve: `services/terminal/main.py`.
-- - Base: shared names, Python's `dict`, `str` and exceptions. Tests: concrete runs.
--
-- A method is a function that takes the state last and returns the new state beside its result; an
-- exception is a value. Random tokens, ids and clocks are arguments. Every loop of the services is
-- over a list; only the digits of a number in a text (Base/Text, `decimal`) are written on fuel,
-- one more than the number. A coroutine runs without interruption, except in
-- McpTools/Server/Interleaving. What an HTTP call meets is part of an environment (`Delivery`).
--
-- Not modelled: the pydantic validators and JSON forms, the pub/sub broker over Redis, the embedding
-- library, the event stream's HTTP side, the health page, the WebSocket proxy of the gateway, the
-- bytes of a terminal session, the user interface and the deployment scripts. Reading a pack's
-- files, JSON and regular expressions are parameters where a definition needs them.
pub mod Base
pub mod Models
pub mod Packs
pub mod McpTools
pub mod Simulator
pub mod Orchestrator
pub mod Gateway
pub mod Terminal
pub mod Tests
