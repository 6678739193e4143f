-- ===== src/Graph/Engine/Laws.antt =====
-- What an assessment of a transaction against the graph promises.
use aegis_ai_risk_manager.Common.{
  ℕ, ◌≡◌, refl, ◌∙◌, Bool, true, false, ◌&&◌, ◌||◌, String, List, [], ◌∷◌, ◌++◌, map, not, Result,
  ok, arith, string_eq, ◌==◌, any_of, all_of, length, ◌-◌, leb, ltb, subst, ap, Option, none, some,
  ok-injective, >>=-eq-ok, reject_if-eq_ok,
}
use aegis_ai_risk_manager.Common.Sets.{contains}
use aegis_ai_risk_manager.Common.Value.{Value, text, int, number, flag}
use aegis_ai_risk_manager.Common.Dict.{lookup}
use aegis_ai_risk_manager.Common.Float.{Float}
use aegis_ai_risk_manager.Graph.Registry.{graph_metric_names, signal_codes}
use aegis_ai_risk_manager.Graph.Domain.{device_of, GraphTransaction, GraphAssessment, GraphSignal}
use aegis_ai_risk_manager.Graph.State.{GraphState}
use aegis_ai_risk_manager.Graph.Engine.{
  Measures, measure, measures_with, count_recent, device_identities,
}
use aegis_ai_risk_manager.Graph.Engine.Signals.{
  metrics_of, signals_of, is_candidate, signal_if, raises_customers, raises_instruments,
  raises_expansion, raises_bridge, raises_density,
}
use aegis_ai_risk_manager.Graph.Engine.Assess.{assess, assessment_from}

abbrev pub codes_raised : {F : Type 0} → List (GraphSignal F) → List String
codes_raised = map (λ s. s.code)

-- Whether all observed transactions are earlier than the current one.
abbrev pub only_past : GraphTransaction → List GraphTransaction → Bool
only_past current = all_of (λ (t : GraphTransaction). ltb t.event_time current.event_time)

pub only_past-not_any :
    (current : GraphTransaction) (ts : List GraphTransaction)
    → only_past current ts
      ≡ not (any_of (λ (t : GraphTransaction). leb current.event_time t.event_time) ts)
unfolding any_of all_of
only_past-not_any current [] = refl
only_past-not_any current (t ∷ ts) = ground (arith, only_past-not_any current ts)

contains-signal_if :
    {F : Type 0} (b : Bool) (s : GraphSignal F) (rest : List (GraphSignal F)) (c : String)
    → contains (codes_raised (signal_if b s ++ rest)) c
      ≡ ((b && (s.code == c)) || contains (codes_raised rest) c)
unfolding contains
contains-signal_if true s rest c = refl
contains-signal_if false s rest c = refl

all_of-signal_if :
    {F : Type 0} (known : String → Bool) (b : Bool) (s : GraphSignal F)
    (rest : List (GraphSignal F))
    → known s.code ≡ true
    → all_of known (codes_raised (signal_if b s ++ rest)) ≡ all_of known (codes_raised rest)
unfolding all_of
all_of-signal_if known true s rest h = rw h refl
all_of-signal_if known false s rest h = refl

-- The codes of five optional signals.
module _ {F : Type 0} (a b c d e : Bool) (p q r s t : GraphSignal F) where
  abbrev five : List (GraphSignal F)
  five =
      signal_if a p
      ++ (signal_if b q ++ (signal_if c r ++ (signal_if d s ++ (signal_if e t ++ []))))

  contains-five :
      (code : String)
      → contains (codes_raised five) code ≡ (
          (a && (p.code == code))
          || ((b && (q.code == code))
              || ((c && (r.code == code))
                  || ((d && (s.code == code)) || ((e && (t.code == code)) || false)))))
  unfolding contains
  contains-five code =
      let last = signal_if e t ++ [] in
      let fourth = signal_if d s ++ last in
      let third = signal_if c r ++ fourth in
      let second = signal_if b q ++ third in
      rw
        (
          contains-signal_if a p second code,
          contains-signal_if b q third code,
          contains-signal_if c r fourth code,
          contains-signal_if d s last code,
          contains-signal_if e t [] code,
        )
        refl

  module _ (hp : p.code ≡ "DEVICE_MULTI_CUSTOMER_CONCENTRATION")
      (hq : q.code ≡ "DEVICE_MULTI_INSTRUMENT_CONCENTRATION")
      (hr : r.code ≡ "RAPID_RELATIONSHIP_EXPANSION") (hs : s.code ≡ "MULTI_COMPONENT_BRIDGE")
      (ht : t.code ≡ "DENSE_MULTI_ENTITY_STRUCTURE") where
    known_codes : all_of (contains signal_codes) (codes_raised five) ≡ true
    unfolding all_of contains
    known_codes =
        let known = contains signal_codes in
        let last = signal_if e t ++ [] in
        let fourth = signal_if d s ++ last in
        let third = signal_if c r ++ fourth in
        let second = signal_if b q ++ third in
        all_of-signal_if known a p second (rw hp refl)
        ∙ (all_of-signal_if known b q third (rw hq refl)
            ∙ (all_of-signal_if known c r fourth (rw hr refl)
                ∙ (all_of-signal_if known d s last (rw hs refl)
                    ∙ all_of-signal_if known e t [] (rw ht refl))))

    five_codes :
        (contains (codes_raised five) "DEVICE_MULTI_CUSTOMER_CONCENTRATION" ≡ a)
        × (contains (codes_raised five) "DEVICE_MULTI_INSTRUMENT_CONCENTRATION" ≡ b)
        × (contains (codes_raised five) "RAPID_RELATIONSHIP_EXPANSION" ≡ c)
        × (contains (codes_raised five) "MULTI_COMPONENT_BRIDGE" ≡ d)
        × (contains (codes_raised five) "DENSE_MULTI_ENTITY_STRUCTURE" ≡ e)
        × (all_of (contains signal_codes) (codes_raised five) ≡ true)
    five_codes = (
      contains-five "DEVICE_MULTI_CUSTOMER_CONCENTRATION" ∙ rw (hp, hq, hr, hs, ht) (ground arith),
      contains-five "DEVICE_MULTI_INSTRUMENT_CONCENTRATION"
          ∙ rw (hp, hq, hr, hs, ht) (ground arith),
      contains-five "RAPID_RELATIONSHIP_EXPANSION" ∙ rw (hp, hq, hr, hs, ht) (ground arith),
      contains-five "MULTI_COMPONENT_BRIDGE" ∙ rw (hp, hq, hr, hs, ht) (ground arith),
      contains-five "DENSE_MULTI_ENTITY_STRUCTURE" ∙ rw (hp, hq, hr, hs, ht) (ground arith),
      known_codes,
    )

bridge-metric : (n : ℕ) → ltb 1 n ≡ leb 1 (n - 1)
bridge-metric n = ground arith

is_candidate-raises :
    {F : Type 0} ⦃f : Float F⦄ (m : Measures F)
    → is_candidate m ≡ (
        raises_customers m
        && leb 3 m.customer_count
        && leb 3 m.instrument_count
        && leb 3 m.device_instruments
        && (leb 5 m.recent_edges || leb 12 (length m.edges))
        && f.le (f.ratio 45 100) m.score)
unfolding is_candidate
is_candidate-raises m = ground arith

-- `metrics[name]` of a count and of a float.
abbrev as_count : {F : Type 0} → Option (Value F) → ℕ
as_count none = 0
as_count (some (text s)) = 0
as_count (some (int n)) = n
as_count (some (number x)) = 0
as_count (some (flag b)) = 0

abbrev pub count_metric : {F : Type 0} → GraphAssessment F → String → ℕ
count_metric a name = as_count (lookup name a.metrics)

abbrev as_number : {F : Type 0} ⦃f : Float F⦄ → Option (Value F) → F
as_number ⦃f⦄ none = f.ratio 0 1
as_number ⦃f⦄ (some (text s)) = f.ratio 0 1
as_number ⦃f⦄ (some (int n)) = f.ratio n 1
as_number ⦃f⦄ (some (number x)) = x
as_number ⦃f⦄ (some (flag b)) = f.ratio 0 1

abbrev pub number_metric : {F : Type 0} ⦃f : Float F⦄ → GraphAssessment F → String → F
number_metric a name = as_number (lookup name a.metrics)

abbrev pub has_signal : {F : Type 0} → GraphAssessment F → String → Bool
has_signal a = contains (codes_raised a.signals)

-- How the metrics of an assessment explain its signals and its candidate flag.
abbrev pub IsExplained : {F : Type 0} ⦃f : Float F⦄ → GraphAssessment F → Type 0
IsExplained ⦃f⦄ a =
    (has_signal a "DEVICE_MULTI_CUSTOMER_CONCENTRATION"
      ≡ leb 3 (count_metric a "device_customer_degree"))
    × (has_signal a "DEVICE_MULTI_INSTRUMENT_CONCENTRATION"
        ≡ leb 4 (count_metric a "device_instrument_degree"))
    × (has_signal a "RAPID_RELATIONSHIP_EXPANSION" ≡ (
        leb 6 (count_metric a "component_new_edges_10m")
        || leb 4 (count_metric a "device_new_identities_10m")))
    × (has_signal a "MULTI_COMPONENT_BRIDGE"
        ≡ leb 1 (count_metric a "components_bridged_by_transaction"))
    × (has_signal a "DENSE_MULTI_ENTITY_STRUCTURE" ≡ (
        leb 3 (count_metric a "component_customer_count")
        && leb 3 (count_metric a "component_instrument_count")
        && f.le (f.ratio 15 100) (number_metric a "component_multipartite_density")))
    × (all_of (contains signal_codes) (codes_raised a.signals) ≡ true)
    × (a.candidate_cluster ≡ (
        has_signal a "DEVICE_MULTI_CUSTOMER_CONCENTRATION"
        && leb 3 (count_metric a "component_customer_count")
        && leb 3 (count_metric a "component_instrument_count")
        && leb 3 (count_metric a "device_instrument_degree")
        && (leb 5 (count_metric a "component_new_edges_10m")
            || leb 12 (count_metric a "component_edge_count"))
        && f.le (f.ratio 45 100) a.structural_score))

module _ (F : Type 0) ⦃f : Float F⦄ (hash : String → String) (utc_now : ℕ)
    (current : GraphTransaction) (state : GraphState) where
  abbrev pub assessment : Result (GraphAssessment F)
  assessment = assess hash utc_now current state

  abbrev pub assessed_with : ℕ → GraphAssessment F
  assessed_with n = assessment_from hash utc_now current (measures_with n current state)

  pub assess-eq_ok : {a : GraphAssessment F} → assessment ≡ ok a → (n : ℕ) × (assessed_with n ≡ a)
  unfolding assess measure
  assess-eq_ok {a} h =
      let (past, h1) = reject_if-eq_ok (any_of _ state.transactions) _ _ h in
      let (m, found, h2) = >>=-eq-ok (measure current state) _ h1 in
      let (n, counted, h3) =
        >>=-eq-ok
          (count_recent current.event_time (device_of current) (device_identities current state)
            state)
          _ found in
      (n, ap (assessment_from hash utc_now current) (ok-injective h3) ∙ ok-injective h2)

  pub assess-only_past :
      {a : GraphAssessment F} → assessment ≡ ok a → only_past current state.transactions ≡ true
  unfolding assess
  assess-only_past {a} h = ground (arith, only_past-not_any current state.transactions)

  -- The metrics of an assessment are those of the registry, each once and in its order.
  pub assess-metric_names :
      {a : GraphAssessment F}
      → assessment ≡ ok a
      → map (λ (entry : String × Value F). entry.0) a.metrics ≡ graph_metric_names
  unfolding assessment_from metrics_of graph_metric_names
  assess-metric_names {a} h =
      subst
        (λ (a : GraphAssessment F).
          map (λ (entry : String × Value F). entry.0) a.metrics ≡ graph_metric_names)
        (assess-eq_ok h).1 refl

  -- The published metrics explain the signals of an assessment: each of the five signals is raised
  -- exactly when its metrics reach their thresholds, no other code is raised, and the candidate flag
  -- is set exactly when the device has the customer concentration, the component has three
  -- customers and three instruments, the device three instruments, the component five new edges or
  -- twelve edges, and the score is at least 0.45.
  pub assess-IsExplained : {a : GraphAssessment F} → assessment ≡ ok a → IsExplained a
  unfolding assessment_from signals_of metrics_of is_candidate lookup
  assess-IsExplained {a} h =
      let (n, made) = assess-eq_ok h in
      let m : Measures F = measures_with n current state in
      let codes =
        five_codes (raises_customers m) (raises_instruments m) (raises_expansion m)
          (raises_bridge m) (raises_density m) _ _ _ _ _ refl refl refl refl refl in
      subst IsExplained made (
        codes.0,
        codes.1,
        codes.2,
        codes.3 ∙ bridge-metric (length m.components),
        codes.4,
        codes.5,
        rw codes.0 (is_candidate-raises m),
      )
