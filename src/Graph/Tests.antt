-- ===== src/Graph/Tests.antt =====
-- A small graph, and the graph theorems at it.
use aegis_ai_risk_manager.Common.{
  ℕ, ◌≡◌, refl, ◌⊎◌, true, false, String, List, [], ◌∷◌, map, ok, raise, value_error, sum_of,
}
use aegis_ai_risk_manager.Common.Dict.{lookup}
use aegis_ai_risk_manager.Common.Value.{Value}
use aegis_ai_risk_manager.Common.Sets.{contains}
use aegis_ai_risk_manager.Common.Float.Millionths.{millionths}
use aegis_ai_risk_manager.Enums.{customer, device}
use aegis_ai_risk_manager.Graph.Registry.{graph_metric_names}
use aegis_ai_risk_manager.Graph.Domain.{
  GraphAssessment, GraphTransaction, ref, ref_eq, relationships,
}
use aegis_ai_risk_manager.Graph.State.{graph_of, adjacent, has_edge, edge_key, edge_eq}
use aegis_ai_risk_manager.Graph.State.Edges.{graph_of-linked}
use aegis_ai_risk_manager.Graph.State.Counts.{times_seen, mentions, graph_of-times_seen}
use aegis_ai_risk_manager.Graph.Engine.{measure, measures_with}
use aegis_ai_risk_manager.Graph.Engine.Guard.{assess_past}
use aegis_ai_risk_manager.Graph.Engine.Assess.{assess, assessment_from}
use aegis_ai_risk_manager.Common.{◌<◌, some}
use aegis_ai_risk_manager.Graph.Engine.Past.{assess-max_source_event_time}
use aegis_ai_risk_manager.Graph.Engine.Laws.{
  only_past, assessed_with, assessment, assess-metric_names, assess-IsExplained, IsExplained,
}

abbrev payment : String → String → String → ℕ → GraphTransaction
payment name who card time = record {
  transaction_public_id = name;
  customer_id = who;
  instrument_id = card;
  device_id = "phone";
  ip_id = "net";
  address_id = "home";
  amount_paise = 50000;
  event_time = time;
}

-- Three customers share one device within ten minutes.
abbrev shared : List GraphTransaction
shared =
    payment "t3" "carol" "card_c" 3000000
    ∷ payment "t1" "alice" "card_a" 1000000
    ∷ payment "t2" "bob" "card_b" 2000000
    ∷ payment "t4" "alice" "card_a" 4000000
    ∷ []

abbrev now : GraphTransaction
now = payment "t5" "dave" "card_d" 5000000

abbrev sha : String → String
sha s = s

alice_twice :
    times_seen (edge_key (ref device "phone") (ref customer "alice")) (graph_of shared) ≡ 2
unfolding lookup graph_of
alice_twice = refl

graph_of-linked_example :
    contains (adjacent (ref device "phone") (graph_of shared)) (ref customer "alice")
    ≡ has_edge (ref device "phone") (ref customer "alice") (graph_of shared)
graph_of-linked_example = (graph_of-linked shared (ref device "phone") (ref customer "alice")).0

graph_of-times_seen_example :
    times_seen (edge_key (ref device "phone") (ref customer "alice")) (graph_of shared)
    ≡ sum_of
        (λ (t : GraphTransaction).
          mentions (edge_key (ref device "phone") (ref customer "alice")) (relationships t))
        shared
graph_of-times_seen_example =
    graph_of-times_seen (edge_key (ref device "phone") (ref customer "alice")) shared

assess_past_example :
    ((only_past now shared ≡ true)
      × ((a : GraphAssessment ℕ) × (assessment ℕ sha 9 now (graph_of shared) ≡ ok a)))
    ⊎ ((only_past now shared ≡ false)
        × (assessment ℕ sha 9 now (graph_of shared)
            ≡ raise (value_error "graph state contains a current or future transaction")))
assess_past_example = assess_past ℕ sha 9 now shared

abbrev expected : GraphAssessment ℕ
expected = assessed_with ℕ sha 9 now (graph_of shared) 6

made : assessment ℕ sha 9 now (graph_of shared) ≡ ok expected
unfolding assess measure graph_of
made = refl

assess-metric_names_example :
    map (λ (entry : String × Value ℕ). entry.0) expected.metrics ≡ graph_metric_names
assess-metric_names_example = assess-metric_names ℕ sha 9 now (graph_of shared) made

assess-IsExplained_example : IsExplained expected
assess-IsExplained_example = assess-IsExplained ℕ sha 9 now (graph_of shared) made

is_a_candidate : expected.candidate_cluster ≡ true
unfolding assessment_from measures_with graph_of
is_a_candidate = refl

latest : expected.max_source_event_time ≡ some 4000000
unfolding assessment_from measures_with graph_of
latest = refl

assess-max_source_event_time_example : 4000000 < 5000000
assess-max_source_event_time_example = assess-max_source_event_time ℕ sha 9 now shared made latest
