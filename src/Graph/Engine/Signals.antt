-- ===== src/Graph/Engine/Signals.antt =====
-- packages/graph_engine/engine.py, `GraphEngine.assess`: the metrics, signals and candidate flag
-- that the measures give.
use aegis_ai_risk_manager.Common.{
  ℕ, zero, suc, ◌-◌, Bool, false, ◌&&◌, ◌||◌, List, [], ◌∷◌, ◌++◌, length, max, ltb, leb,
  if◌then◌else◌,
}
use aegis_ai_risk_manager.Common.Value.{text, int, number, flag, Mapping}
use aegis_ai_risk_manager.Common.Float.{Float, of_int, float_min, float_max}
use aegis_ai_risk_manager.Graph.Domain.{GraphTransaction, GraphSignal, device_of}
use aegis_ai_risk_manager.Graph.Engine.{Measures}

-- `new_edges[i]`, of the five.
abbrev pub nth_flag : ℕ → List Bool → Bool
nth_flag n [] = false
nth_flag zero (b ∷ bs) = b
nth_flag (suc n) (b ∷ bs) = nth_flag n bs

-- `if test: signals.append(signal)`
abbrev pub signal_if : {F : Type 0} → Bool → GraphSignal F → List (GraphSignal F)
signal_if test signal = if test then signal ∷ [] else []

module _ {F : Type 0} ⦃f : Float F⦄ where
  unfoldable pub metrics_of : Measures F → Mapping F
  metrics_of m =
      ("device_customer_degree", int m.device_customers)
      ∷ ("device_instrument_degree", int m.device_instruments)
      ∷ ("ip_customer_degree", int m.ip_customers)
      ∷ ("ip_device_degree", int m.ip_devices)
      ∷ ("address_customer_degree", int m.address_customers)
      ∷ ("instrument_device_degree", int m.instrument_devices)
      ∷ ("instrument_customer_degree", int m.instrument_customers)
      ∷ ("component_node_count", int (length m.members))
      ∷ ("component_edge_count", int (length m.edges))
      ∷ ("component_customer_count", int m.customer_count)
      ∷ ("component_device_count", int m.device_count)
      ∷ ("component_instrument_count", int m.instrument_count)
      ∷ ("component_ip_count", int m.ip_count)
      ∷ ("component_address_count", int m.address_count)
      ∷ ("component_multipartite_density", number m.density)
      ∷ ("new_customer_device_edge", flag (nth_flag 0 m.new_edges))
      ∷ ("new_customer_instrument_edge", flag (nth_flag 1 m.new_edges))
      ∷ ("new_customer_ip_edge", flag (nth_flag 2 m.new_edges))
      ∷ ("new_customer_address_edge", flag (nth_flag 3 m.new_edges))
      ∷ ("new_instrument_device_edge", flag (nth_flag 4 m.new_edges))
      ∷ ("preexisting_component_count", int (length m.components))
      ∷ ("components_bridged_by_transaction", int (length m.components - 1))
      ∷ ("customer_two_hop_customer_count_via_device_or_ip", int m.two_hop_customers)
      ∷ ("component_new_edges_10m", int m.recent_edges)
      ∷ ("device_new_identities_10m", int m.device_new_identities)
      ∷ []

  abbrev pub raises_customers : Measures F → Bool
  raises_customers m = leb 3 m.device_customers

  abbrev pub raises_instruments : Measures F → Bool
  raises_instruments m = leb 4 m.device_instruments

  abbrev pub raises_expansion : Measures F → Bool
  raises_expansion m = leb 6 m.recent_edges || leb 4 m.device_new_identities

  abbrev pub raises_bridge : Measures F → Bool
  raises_bridge m = ltb 1 (length m.components)

  abbrev pub raises_density : Measures F → Bool
  raises_density m =
      leb 3 m.customer_count && leb 3 m.instrument_count && f.le (f.ratio 15 100) m.density

  unfoldable pub signals_of : GraphTransaction → Measures F → List (GraphSignal F)
  signals_of current m =
      signal_if (raises_customers m) (record {
        code = "DEVICE_MULTI_CUSTOMER_CONCENTRATION";
        strength = float_min (of_int 1) (f.ratio m.device_customers 6);
        observed_value = of_int m.device_customers;
        threshold = of_int 3;
        evidence = ("device_id", text (device_of current).public_id) ∷ [];
      })
      ++ (signal_if (raises_instruments m) (record {
        code = "DEVICE_MULTI_INSTRUMENT_CONCENTRATION";
        strength = float_min (of_int 1) (f.ratio m.device_instruments 8);
        observed_value = of_int m.device_instruments;
        threshold = of_int 4;
        evidence = ("device_id", text (device_of current).public_id) ∷ [];
      })
          ++ (signal_if (raises_expansion m) (record {
            code = "RAPID_RELATIONSHIP_EXPANSION";
            strength =
                float_min (of_int 1)
                  (float_max (f.ratio m.recent_edges 10) (f.ratio m.device_new_identities 6));
            observed_value = of_int (max m.recent_edges m.device_new_identities);
            threshold = of_int 6;
            evidence = ("window", text "10m") ∷ [];
          })
              ++ (signal_if (raises_bridge m) (record {
                code = "MULTI_COMPONENT_BRIDGE";
                strength = float_min (of_int 1) (f.ratio (length m.components - 1) 3);
                observed_value = of_int (length m.components - 1);
                threshold = of_int 1;
                evidence = ("preexisting_components", int (length m.components)) ∷ [];
              })
                  ++ (signal_if (raises_density m) (record {
                    code = "DENSE_MULTI_ENTITY_STRUCTURE";
                    strength = float_min (of_int 1) (f.div m.density (f.ratio 4 10));
                    observed_value = m.density;
                    threshold = f.ratio 15 100;
                    evidence =
                        ("customers", int m.customer_count)
                        ∷ ("instruments", int m.instrument_count)
                        ∷ [];
                  })
                      ++ []))))

  unfoldable pub is_candidate : Measures F → Bool
  is_candidate m =
      leb 3 m.customer_count
      && (leb 3 m.instrument_count
          && (leb 3 m.device_customers
              && (leb 3 m.device_instruments
                  && ((leb 5 m.recent_edges || leb 12 (length m.edges))
                      && f.le (f.ratio 45 100) m.score))))
