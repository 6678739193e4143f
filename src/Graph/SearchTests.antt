-- ===== src/Graph/SearchTests.antt =====
-- The component search at a graph with two components.
use aegis_ai_risk_manager.Common.{◌≡◌, ◌↔◌, refl, true, List, [], ◌∷◌}
use aegis_ai_risk_manager.Common.Sets.{contains}
use aegis_ai_risk_manager.Enums.{customer}
use aegis_ai_risk_manager.Graph.Domain.{GraphTransaction, ref, ref_eq}
use aegis_ai_risk_manager.Graph.State.{graph_of, has_node}
use aegis_ai_risk_manager.Graph.State.Components.{component, all_components}
use aegis_ai_risk_manager.Graph.State.Reach.{Reach}
use aegis_ai_risk_manager.Graph.State.Partition.{graph_of-component, component-same}
use aegis_ai_risk_manager.Graph.State.Split.{IsSplit, all_components-IsSplit}

-- Alice and Bob share a phone; Erin pays from elsewhere.
abbrev two_groups : List GraphTransaction
two_groups =
    record {
      transaction_public_id = "t1";
      customer_id = "alice";
      instrument_id = "card_a";
      device_id = "phone";
      ip_id = "net";
      address_id = "home";
      amount_paise = 50000;
      event_time = 1;
    }
    ∷ record {
      transaction_public_id = "t2";
      customer_id = "erin";
      instrument_id = "card_e";
      device_id = "tablet";
      ip_id = "cafe";
      address_id = "flat";
      amount_paise = 70000;
      event_time = 2;
    }
    ∷ record {
      transaction_public_id = "t3";
      customer_id = "bob";
      instrument_id = "card_b";
      device_id = "phone";
      ip_id = "office";
      address_id = "house";
      amount_paise = 60000;
      event_time = 3;
    }
    ∷ []

bob_with_alice :
    contains (component (graph_of two_groups) (ref customer "alice")) (ref customer "bob") ≡ true
unfolding component graph_of contains
bob_with_alice = refl

graph_of-component_example :
    (contains (component (graph_of two_groups) (ref customer "alice")) (ref customer "bob") ≡ true)
    ↔ ((has_node (ref customer "alice") (graph_of two_groups) ≡ true)
        × Reach (graph_of two_groups) (ref customer "alice") (ref customer "bob"))
graph_of-component_example =
    graph_of-component two_groups (ref customer "alice") (ref customer "bob")

component-same_example :
    component (graph_of two_groups) (ref customer "bob")
    ≡ component (graph_of two_groups) (ref customer "alice")
component-same_example =
    component-same two_groups (ref customer "alice") (ref customer "bob") bob_with_alice

erin_alone :
    all_components (graph_of two_groups)
    ≡ component (graph_of two_groups) (ref customer "erin")
      ∷ component (graph_of two_groups) (ref customer "alice")
      ∷ []
unfolding all_components component graph_of
erin_alone = refl

all_components-IsSplit_example :
    IsSplit
      (graph_of two_groups)
      (λ a. has_node a (graph_of two_groups))
      (all_components (graph_of two_groups))
all_components-IsSplit_example = all_components-IsSplit two_groups
