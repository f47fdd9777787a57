-- ===== src/Reconciler/Tests.antt =====
-- The reconciler's theorems at a concrete node. The printing of a configuration is the identifier
-- of its clock profile.
use dgx_control_center.Prelude.{String, ◌≡◌, refl, true, none, some, [], ◌∷◌, arith, Option}
use dgx_control_center.Protocol.{NodeRuntimeConfig, standalone, metrics}
use dgx_control_center.Reconciler.{
  NodeFacts, ReconcileInputs, Reconciler, consistent, state_of, tick_node, observe_message,
  interval_of,
}
use dgx_control_center.Reconciler.Laws.{converges}

abbrev profile_of : Option String → String
profile_of none = "full"
profile_of (some p) = p

abbrev text_of : NodeRuntimeConfig → String
text_of c = profile_of c.clock_profile_id

abbrev eco : NodeRuntimeConfig
eco = record {
  intervals = ("gpu", 2000) ∷ [];
  llm_ports = [];
  role = standalone;
  clock_profile_id = some "eco";
  clock_caps = none;
}

abbrev n1 : NodeFacts
n1 = record { id = "n1"; connected = true; desired = eco; intervals = none }

abbrev empty : Reconciler
empty = record { runtime = []; sent = []; changes = [] }

abbrev inputs : ReconcileInputs
inputs = record {
  connected = true;
  ever_connected = true;
  last_metrics_ts = some 50;
  interval_ms = 2000;
  now = 60;
  desired_config = eco;
  last_sent_config = some eco;
  applying_since = none;
  stale_multiplier = 3;
}

converges_example :
    state_of "n1" (
      tick_node text_of 3 30 n1
        (observe_message 20 "n1" (metrics 1 19 []) (tick_node text_of 3 10 n1 empty)))
    ≡ consistent
converges_example =
    converges text_of 3 10 20 30 n1 1 19 [] empty refl (unfold interval_of in omega arith)
