-- ===== src/Graph/Engine/Assess.antt =====
-- packages/graph_engine/engine.py, `GraphEngine.assess`: the guard, and the assessment.
use aegis_ai_risk_manager.Common.{
  ℕ, String, List, [], ◌∷◌, map, max, Option, none, some, Result, ok, ◌>>=◌, ◌>>◌, value_error,
  reject_if, any_of, leb,
}
use aegis_ai_risk_manager.Common.Float.{Float}
use aegis_ai_risk_manager.Graph.Registry.{graph_version}
use aegis_ai_risk_manager.Graph.Domain.{GraphTransaction, GraphAssessment}
use aegis_ai_risk_manager.Graph.State.{Edge, TemporalEdge, GraphState}
use aegis_ai_risk_manager.Graph.State.Components.{fingerprint}
use aegis_ai_risk_manager.Graph.Engine.{Measures, measure}
use aegis_ai_risk_manager.Graph.Engine.Signals.{metrics_of, signals_of, is_candidate}

abbrev pub later : ℕ → Option ℕ → Option ℕ
later n none = some n
later n (some m) = some (max n m)

-- `max((...), default=None)`
unfoldable pub last_source_time : List (Edge × TemporalEdge) → Option ℕ
last_source_time [] = none
last_source_time ((key, metadata) ∷ edges) =
    later (max metadata.first_seen_at metadata.last_seen_at) (last_source_time edges)

module _ {F : Type 0} ⦃f : Float F⦄ (hash : String → String) (utc_now : ℕ) where
  unfoldable pub assessment_from : GraphTransaction → Measures F → GraphAssessment F
  unfolding metrics_of signals_of is_candidate fingerprint last_source_time
  assessment_from current m = record {
    graph_version = graph_version;
    transaction_public_id = current.transaction_public_id;
    metrics = metrics_of m;
    signals = signals_of current m;
    structural_score = m.score;
    touched_component_fingerprints = map (fingerprint hash) m.components;
    candidate_cluster = is_candidate m;
    computed_at = utc_now;
    max_source_event_time = last_source_time m.edges;
  }

  unfoldable pub assess : GraphTransaction → GraphState → Result (GraphAssessment F)
  unfolding measure assessment_from any_of
  assess current state = do
    reject_if
        (any_of (λ (t : GraphTransaction). leb current.event_time t.event_time) state.transactions)
        (value_error "graph state contains a current or future transaction")
    measures ← measure current state
    ok (assessment_from current measures)
