-- ===== src/Graph/Registry.antt =====
-- packages/graph_engine/registry.py: the 25 metrics of graph-v1 and its signal codes.
use aegis_ai_risk_manager.Common.{String, List, [], ◌∷◌, ◌++◌, map, Option, none, some}

abbrev pub graph_version : String
graph_version = "graph-v1"

pub data GraphMetricFamily : Type 0 where
  local_entity component novelty connectivity temporal_structure : GraphMetricFamily

pub data ValueType : Type 0 where
  int_type float_type bool_type : ValueType

pub record GraphMetricSpec : Type 0 where
  pub name : String
  pub family : GraphMetricFamily
  pub value_type : ValueType
  pub description : String
  pub window : Option String

abbrev spec : String → GraphMetricFamily → ValueType → String → Option String → GraphMetricSpec
spec name family value_type description window = record {
  name = name;
  family = family;
  value_type = value_type;
  description = description;
  window = window;
}

-- The LOCAL_ENTITY entries.
abbrev local_entity_metrics : List GraphMetricSpec
local_entity_metrics =
    spec "device_customer_degree" local_entity int_type
      "Historical customers adjacent to current device." none
    ∷ spec "device_instrument_degree" local_entity int_type
        "Historical instruments adjacent to current device." none
    ∷ spec "ip_customer_degree" local_entity int_type "Historical customers adjacent to current IP."
        none
    ∷ spec "ip_device_degree" local_entity int_type
        "Historical devices two hops from current IP through customers." none
    ∷ spec "address_customer_degree" local_entity int_type
        "Historical customers adjacent to current address." none
    ∷ spec "instrument_device_degree" local_entity int_type
        "Historical devices adjacent to current instrument." none
    ∷ spec "instrument_customer_degree" local_entity int_type
        "Historical customers adjacent to current instrument." none
    ∷ []

-- The COMPONENT entries.
abbrev component_metrics : List GraphMetricSpec
component_metrics =
    spec "component_node_count" component int_type
      "Nodes in historical components touched by current entities." none
    ∷ spec "component_edge_count" component int_type "Edges in touched historical components." none
    ∷ spec "component_customer_count" component int_type "Customer nodes in touched components."
        none
    ∷ spec "component_device_count" component int_type "Device nodes in touched components." none
    ∷ spec "component_instrument_count" component int_type "Instrument nodes in touched components."
        none
    ∷ spec "component_ip_count" component int_type "IP nodes in touched components." none
    ∷ spec "component_address_count" component int_type "Address nodes in touched components." none
    ∷ spec "component_multipartite_density" component float_type
        "Observed edges divided by capacity across allowed type pairs." none
    ∷ []

-- The NOVELTY entries.
abbrev novelty_metrics : List GraphMetricSpec
novelty_metrics =
    spec "new_customer_device_edge" novelty bool_type
      "Current customer-device relation is historically unseen." none
    ∷ spec "new_customer_instrument_edge" novelty bool_type
        "Current customer-instrument relation is historically unseen." none
    ∷ spec "new_customer_ip_edge" novelty bool_type
        "Current customer-IP relation is historically unseen." none
    ∷ spec "new_customer_address_edge" novelty bool_type
        "Current customer-address relation is historically unseen." none
    ∷ spec "new_instrument_device_edge" novelty bool_type
        "Current instrument-device relation is historically unseen." none
    ∷ spec "preexisting_component_count" novelty int_type
        "Distinct historical components touched by current entities." none
    ∷ spec "components_bridged_by_transaction" novelty int_type
        "Historical components the current relations would bridge." none
    ∷ []

-- The CONNECTIVITY entries.
abbrev connectivity_metrics : List GraphMetricSpec
connectivity_metrics =
    spec "customer_two_hop_customer_count_via_device_or_ip" connectivity int_type
      "Other customers reachable in two hops through current device or IP." none
    ∷ []

-- The TEMPORAL_STRUCTURE entries.
abbrev temporal_structure_metrics : List GraphMetricSpec
temporal_structure_metrics =
    spec "component_new_edges_10m" temporal_structure int_type
      "Touched-component edges first observed recently." (some "10m")
    ∷ spec "device_new_identities_10m" temporal_structure int_type
        "Customer or instrument identities newly linked to current device." (some "10m")
    ∷ []

-- The table, in the order of the source.
unfoldable pub graph_metrics : List GraphMetricSpec
graph_metrics =
    local_entity_metrics ++ component_metrics ++ novelty_metrics ++ connectivity_metrics
    ++ temporal_structure_metrics

unfoldable pub graph_metric_names : List String
unfolding graph_metrics
graph_metric_names = map (λ (s : GraphMetricSpec). s.name) graph_metrics

-- The codes of `SIGNAL_DEFINITIONS`.
abbrev pub signal_codes : List String
signal_codes =
    "DEVICE_MULTI_CUSTOMER_CONCENTRATION" ∷ "DEVICE_MULTI_INSTRUMENT_CONCENTRATION"
    ∷ "RAPID_RELATIONSHIP_EXPANSION" ∷ "MULTI_COMPONENT_BRIDGE" ∷ "DENSE_MULTI_ENTITY_STRUCTURE"
    ∷ []
