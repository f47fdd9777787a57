-- ===== src/Lib.antt =====
-- A model of the control plane of ControlCenter, with the theorems that make it correct.
--
-- ControlCenter runs a small fleet of nodes. Agents on the nodes report telemetry over a socket
-- and run jobs; the server keeps the desired state, reconciles it with what the nodes report,
-- watches for alerts and heat, and routes requests for models to the deployments that serve them.
--
-- Parts, their files here and the code they model:
-- The Protocol part: the messages of shared/src/protocol.ts.
-- The Jobs part: the class JobsManager of server/src/jobs/jobsManager.ts. Record has a job and
-- what changes it, Manager the state and one function for each method and callback; `step` is one
-- event and `run` a history of them. Lifecycle is the abstract life of jobs, which Refinement
-- shows each event to follow; Soundness and Endings draw what holds of every history;
-- SingleFlight is about two jobs of one kind; Operations has the single methods.
-- The Alerts part: server/src/stores/alertsStore.ts in Store (tables are lists of rows, each SQL
-- statement is written out), server/src/alerts/rules.ts in Rules, server/src/alerts/engine.ts in
-- Engine. Cases lists what an evaluation does to the store, from which Evolution and OneOpen
-- follow; Timing is about when an alert is raised, Clearing about when one is closed.
-- The Power part: server/src/power/thermal.ts in Thermal, profiles.ts in Profiles, schedules.ts
-- in Schedules and clockStore.ts in ClockStore.
-- The Gateway part: server/src/gateway/servedModels.ts in ServedModels, with `healthFromState` of
-- server/src/gateway/gateway.ts, server/src/gateway/onDemand.ts in OnDemand, the rest of
-- gateway.ts in Proxy (Chain is the failover, Warmup the wait for a started model, Requests which
-- requests are let in, Outcomes the whole request), clients.ts in Clients and recorder.ts in
-- Recorder; server/src/stores/tracesStore.ts in Traces.
-- The Reconciler part: server/src/reconciler.ts.
-- The DesiredState part: server/src/desiredState.ts.
-- The Agent part: agent/src/reconcile.ts in Reconcile, agent/src/daemon.ts in Daemon.
-- The Hub part: server/src/agentHub.ts, whose events `step` and `run` follow, and
-- server/src/liveState.ts in LiveState, fed by what the hub hands on; Requests has the hub's
-- `request`. Handshake, Soundness and Endings are its laws.
-- The Chat part: server/src/chat/sse.ts in Sse, server/src/chat/store.ts in Store.
-- The Semver part: shared/src/semver.ts and the versions of shared/src/version.ts.
-- The Serving part: server/src/serving/deployments.ts in State (`joinServeState`, with its
-- identity check in Reports and Verdict) and Deployments (the store),
-- server/src/serving/multiNode.ts in MultiNode, whose Cluster says which nodes an address names.
-- Prelude, Dict and Numbers have what the parts share. A JavaScript map or object is a list of
-- entries in the order of insertion; a text whose length counts is a list of code units; times
-- and counts are natural numbers, and `a - b >= c` is written `b + c <= a`; other numbers are a
-- parameter.
--
-- The parts meet as in the code: the manager takes and sends frames of Protocol, the engine calls
-- the alerts store, the reconciler sends configurations of Protocol, which DesiredState makes
-- from the profiles of Power and Agent applies, OnDemand calls the store of Serving, the hub asks
-- Semver for the floor and feeds LiveState, the proxy routes by ServedModels, and the recorder
-- reads frames as Sse does.
--
-- Parameters: the clock, the ids that the code generates, whether a socket is connected and takes
-- a frame, JSON.stringify, what `Number` makes of digits, what the thermal hooks do, Intl,
-- toISOString, the order of Array.prototype.sort, the built-in text operations of
-- `joinServeState`, the supervisor that OnDemand calls, the agent's clock applier and its
-- processes, JSON.parse, the hash and the secrets of keys, and what upstreams answer. The
-- histories of Jobs assume that the id generator repeats no id in use (`AreFresh`). Loops are
-- recursions on lists, but for three with fuel: printing a number, where one round more than the
-- number is enough, the loop over the lines of a buffer, with one round more than its characters,
-- and the polls of the warm-up, with one round more than the milliseconds of its timeout.
--
-- Not modelled: the files and the database behind the stores, HTTP, sockets and ssh as such, the
-- web application, and the parts of the server and the agent that the sources above do not name.
pub mod Prelude
pub mod Hub
pub mod Chat
pub mod Semver
pub mod DesiredState
pub mod Dict
pub mod Protocol
pub mod Jobs
pub mod Numbers
pub mod Agent
pub mod Alerts
pub mod Power
pub mod Gateway
pub mod Reconciler
pub mod Serving
