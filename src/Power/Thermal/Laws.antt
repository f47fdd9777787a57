-- ===== src/Power/Thermal/Laws.antt =====
-- server/src/power/thermal.ts: the hysteresis of the thermal guard and its events.

use mathlib.Core.List.{append-nil}
use dgx_control_center.Prelude.{
  String, ℕ, ◌≡◌, refl, inl, inr, Option, none, some, List, [], ◌∷◌, ◌++◌, arith, eq_iff,
  String-cases, Option-cases, if◌then◌else◌, ◌===◌, map,
}
use dgx_control_center.Dict.{get, get-put, get-put_self, get-put_ne}
use dgx_control_center.Numbers.{Numbers}
use dgx_control_center.Power.Thermal.{
  ThermalState, nominal, derated, EventKind, derate, recover, HookCall, on_derate, on_recover,
  NodeThermal, node_or_fresh, ThermalGuardConfig, ThermalEvent, ThermalSample, Guard, judge, emit,
  observe, observe_all, tick, state_for,
}

-- The diagram: derate leads from nominal to derated, recover back, and nothing else is a step.
abbrev pub follow : ThermalState → List EventKind → Option ThermalState
follow s [] = some s
follow nominal (derate ∷ ks) = follow derated ks
follow derated (recover ∷ ks) = follow nominal ks
follow _ (_ ∷ ks) = none

follow-append :
    (s : ThermalState) (ks : List EventKind) {t : ThermalState} (ls : List EventKind)
    → follow s ks ≡ some t
    → follow s (ks ++ ls) ≡ follow t ls
follow-append s [] ls e = ground arith
follow-append nominal (derate ∷ ks) ls e = follow-append derated ks ls e
follow-append derated (recover ∷ ks) ls e = follow-append nominal ks ls e
follow-append s (k ∷ ks) ls e = cc

module _ (N : Numbers) where
  open N use {Num}

  -- The kinds of a node's events, in order.
  abbrev pub kinds_of : String → List (ThermalEvent N) → List EventKind
  kinds_of id [] = []
  kinds_of id (e ∷ es) =
      let rest = kinds_of id es in if e.spark_id === id then e.kind ∷ rest else rest

  kinds_of-append :
      (id : String) (es fs : List (ThermalEvent N))
      → kinds_of id (es ++ fs) ≡ kinds_of id es ++ kinds_of id fs
  kinds_of-append id [] fs = refl
  kinds_of-append id (e ∷ es) fs = ground (arith, kinds_of-append id es fs)

  abbrev kind_list : Option EventKind → List EventKind
  kind_list none = []
  kind_list (some k) = k ∷ []

  judge-follow :
      (cfg : ThermalGuardConfig N) (now : ℕ) (temp : Num) (node : NodeThermal)
      → follow node.state (kind_list (judge N cfg now temp node).1)
        ≡ some (judge N cfg now temp node).0.state
  unfolding judge
  judge-follow cfg now temp node = ground arith

  -- Where the events of this tick have led a node from its state before the tick.
  abbrev pub Led : String → ThermalState → Guard N → Type 0
  Led id s g = follow s (kinds_of id g.emitted) ≡ some (state_for N id g)

  emit-kinds :
      (id : String) (max_events now : ℕ) (s : ThermalSample N) (kind : Option EventKind)
      (g : Guard N)
      → kinds_of id (emit N max_events now s kind g).emitted
        ≡ kinds_of id g.emitted ++ (if s.spark_id === id then kind_list kind else [])
  unfolding emit
  emit-kinds id max_events now s none g = ground (arith, append-nil {0} (kinds_of id g.emitted))
  emit-kinds id max_events now s (some k) g =
      kinds_of-append id g.emitted
        (record { ts = now; spark_id = s.spark_id; kind = k; temp_c = s.gpu_temp_c } ∷ [])

  emit-nodes :
      (max_events now : ℕ) (s : ThermalSample N) (kind : Option EventKind) (g : Guard N)
      → (emit N max_events now s kind g).nodes ≡ g.nodes
  unfolding emit
  emit-nodes max_events now s none g = refl
  emit-nodes max_events now s (some k) g = refl

  -- The hook that is due at an event: `onDerate` or `onRecover`, for the node of the event.
  abbrev pub due : ThermalEvent N → HookCall
  due e = elim e.kind [ derate ↦ on_derate e.spark_id | recover ↦ on_recover e.spark_id ]

  map-due_append : (es fs : List (ThermalEvent N)) → map due (es ++ fs) ≡ map due es ++ map due fs
  map-due_append [] fs = refl
  map-due_append (e ∷ es) fs = ground (arith, map-due_append es fs)

  emit-hooked :
      (max_events now : ℕ) (s : ThermalSample N) (kind : Option EventKind) (g : Guard N)
      → g.hooked ≡ map due g.emitted
      → (emit N max_events now s kind g).hooked ≡ map due (emit N max_events now s kind g).emitted
  unfolding emit
  emit-hooked max_events now s none g h = h
  emit-hooked max_events now s (some derate) g h = ground (
    arith,
    h,
    map-due_append g.emitted
        (record { ts = now; spark_id = s.spark_id; kind = derate; temp_c = s.gpu_temp_c } ∷ []),
  )
  emit-hooked max_events now s (some recover) g h = ground (
    arith,
    h,
    map-due_append g.emitted
        (record { ts = now; spark_id = s.spark_id; kind = recover; temp_c = s.gpu_temp_c } ∷ []),
  )

  observe_all-hooked :
      (cfg : ThermalGuardConfig N) (max_events now : ℕ) (samples : List (ThermalSample N))
      (g : Guard N)
      → g.hooked ≡ map due g.emitted
      → (observe_all N cfg max_events now samples g).hooked
        ≡ map due (observe_all N cfg max_events now samples g).emitted
  unfolding observe_all observe
  observe_all-hooked cfg max_events now [] g h = h
  observe_all-hooked cfg max_events now (s ∷ samples) g h =
      let node = node_or_fresh (get s.spark_id g.nodes) in
      let one : (observe N cfg max_events now s g).hooked
          ≡ map due (observe N cfg max_events now s g).emitted =
        elim (Option-cases s.gpu_temp_c) [
          | inl absent ↦ ground (arith, absent, h)
          | inr (temp, warm) ↦
              ground (arith, warm, emit-hooked max_events now s (judge N cfg now temp node).1 g h)
        ] in
      observe_all-hooked cfg max_events now samples (observe N cfg max_events now s g) one

  module _ (id : String) (s0 : ThermalState) (cfg : ThermalGuardConfig N) (max_events now : ℕ) where
    observe-Led_warm :
        (s : ThermalSample N) (temp : Num) (g : Guard N)
        → s.gpu_temp_c ≡ some temp
        → Led id s0 g
        → Led id s0 (observe N cfg max_events now s g)
    unfolding observe state_for
    observe-Led_warm s temp g warm led =
        let node = node_or_fresh (get s.spark_id g.nodes) in
        let kind = (judge N cfg now temp node).1 in
        let kinds = emit-kinds id max_events now s kind g in
        let nodes = emit-nodes max_events now s kind g in
        elim (String-cases s.spark_id id) [
          | inl same ↦ ground (
            arith,
            kinds,
            nodes,
            eq_iff s.spark_id id,
            get-put_self s.spark_id (judge N cfg now temp node).0 g.nodes,
            follow-append s0 (kinds_of id g.emitted) (kind_list kind) led,
            judge-follow cfg now temp node,
          )
          | inr (differ, other) ↦ ground (
            arith,
            kinds,
            nodes,
            append-nil {0} (kinds_of id g.emitted),
            get-put_ne s.spark_id id (judge N cfg now temp node).0 g.nodes differ,
          )
        ]

    observe-Led :
        (s : ThermalSample N) (g : Guard N)
        → Led id s0 g
        → Led id s0 (observe N cfg max_events now s g)
    unfolding observe state_for
    observe-Led s g led = elim (Option-cases s.gpu_temp_c) [
      | inr (temp, warm) ↦ observe-Led_warm s temp g warm led
      | inl absent ↦
          let node = node_or_fresh (get s.spark_id g.nodes) in
          ground (arith, led, get-put s.spark_id id node g.nodes, eq_iff s.spark_id id)
    ]

    observe_all-Led :
        (samples : List (ThermalSample N)) (g : Guard N)
        → Led id s0 g
        → Led id s0 (observe_all N cfg max_events now samples g)
    unfolding observe_all
    observe_all-Led [] g led = led
    observe_all-Led (s ∷ samples) g led =
        observe_all-Led samples (observe N cfg max_events now s g) (observe-Led s g led)

  -- On a tick the events of a node lead from its state before the tick to its state after it, by
  -- derate from nominal and by recover from derated, so an event is emitted exactly on each
  -- transition; and the hooks called on the tick are, in order, `onDerate` for the node of each
  -- derate event and `onRecover` for the node of each recover event, and no others.
  pub tick-follow :
      (id : String) (cfg : ThermalGuardConfig N) (max_events now : ℕ)
      (samples : List (ThermalSample N)) (g : Guard N)
      → let g' = tick N cfg max_events now samples g in
        (follow (state_for N id g) (kinds_of id g'.emitted) ≡ some (state_for N id g'))
        × (g'.hooked ≡ map due g'.emitted)
  unfolding tick
  tick-follow id cfg max_events now samples g =
      let start : Guard N = record g { emitted = []; hooked = [] } in
      (
        observe_all-Led id (state_for N id g) cfg max_events now samples start
            (unfold state_for in refl),
        observe_all-hooked cfg max_events now samples start refl,
      )
