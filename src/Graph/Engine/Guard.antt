-- ===== src/Graph/Engine/Guard.antt =====
-- packages/graph_engine/engine.py, `GraphEngine.assess` on a graph that was built from
-- transactions: no edge is missing, so that only its guard can raise.
use aegis_ai_risk_manager.Common.{
  ℕ, ◌≡◌, refl, sym, ap, ◌∙◌, ◌⊎◌, inl, inr, true, false, Bool-cases, ◌&&◌, String, List, [], ◌∷◌,
  ◌++◌, ◌+◌, ok, raise, value_error, arith, all_of, any_of, ltb, leb, ◌==◌, if◌then◌else◌,
}
use aegis_ai_risk_manager.Common.Dict.{lookup_of_has_key}
use aegis_ai_risk_manager.Common.Members.{◌∈◌, contains_of_∈}
use aegis_ai_risk_manager.Common.Members.Select.{select-∈, append-∈}
use aegis_ai_risk_manager.Common.Sets.{contains, unique_from}
use aegis_ai_risk_manager.Common.Sort.{sort_by, sort_insert}
use aegis_ai_risk_manager.Common.Float.{Float}
use aegis_ai_risk_manager.Enums.{GraphEntityType, entity_type_eq, customer, payment_instrument}
use aegis_ai_risk_manager.Graph.Domain.{
  GraphEntityRef, ref_eq, GraphTransaction, GraphAssessment, device_of, entities, relationships,
}
use aegis_ai_risk_manager.Graph.State.{
  GraphState, TemporalEdge, edge_eq, edge_key, adjacent, neighbors, has_edge, no_graph,
  observe_entities, observe, observe_many, graph_of,
}
use aegis_ai_risk_manager.Graph.State.Edges.{graph_of-linked}
use aegis_ai_risk_manager.Graph.Engine.{
  edge_at, or_missing, count_recent, device_identities, measure, in_last_ten_minutes,
}
use aegis_ai_risk_manager.Graph.Engine.Assess.{assess}
use aegis_ai_risk_manager.Graph.Engine.Laws.{
  only_past, only_past-not_any, assessment, assessed_with,
}
use aegis_ai_risk_manager.Graph.Engine.Past.{
  observe_entities-rest, observe_relationships-rest, only_past-append,
}

-- A member of the de-duplicated list is a member of the list.
unique_from-∈ :
    (x : GraphEntityRef) (seen xs : List GraphEntityRef) → x ∈ unique_from seen xs → x ∈ xs
unfolding unique_from
unique_from-∈ x seen [] m = m
unique_from-∈ x seen (y ∷ xs) m = elim (Bool-cases (contains seen y)) [
  | inl old ↦ inr (unique_from-∈ x seen xs (rw old at m))
  | inr new ↦ elim (rw new at m) [ inl e ↦ inl e | inr n ↦ inr (unique_from-∈ x (y ∷ seen) xs n) ]
]

neighbors-has_edge :
    (ts : List GraphTransaction) (a b : GraphEntityRef) (t : GraphEntityType)
    → b ∈ neighbors a t (graph_of ts)
    → has_edge a b (graph_of ts) ≡ true
unfolding neighbors
neighbors-has_edge ts a b t m =
    let (near, _) =
      select-∈ (λ (r : GraphEntityRef). r.entity_type == t) b (adjacent a (graph_of ts)) m in
    sym (graph_of-linked ts a b).0 ∙ contains_of_∈ b (adjacent a (graph_of ts)) near

identities-have_edges :
    (current : GraphTransaction) (ts : List GraphTransaction) (r : GraphEntityRef)
    → r ∈ device_identities current (graph_of ts)
    → has_edge (device_of current) r (graph_of ts) ≡ true
unfolding device_identities
identities-have_edges current ts r m =
    let d = device_of current in
    let state = graph_of ts in
    elim (append-∈ r (neighbors d customer state) (neighbors d payment_instrument state)
      (unique_from-∈ r [] (neighbors d customer state ++ neighbors d payment_instrument state) m)) [
        | inl n ↦ neighbors-has_edge ts d r customer n
        | inr n ↦ neighbors-has_edge ts d r payment_instrument n
      ]

edge_at-returns :
    (a b : GraphEntityRef) (s : GraphState)
    → has_edge a b s ≡ true
    → (v : TemporalEdge) × (edge_at a b s ≡ ok v)
unfolding has_edge edge_at
edge_at-returns a b s h =
    let (v, found) = lookup_of_has_key (edge_key a b) s.edges h in (v, ap or_missing found)

count_recent-returns :
    (time : ℕ) (a : GraphEntityRef) (rs : List GraphEntityRef) (s : GraphState)
    → ((r : GraphEntityRef) → r ∈ rs → has_edge a r s ≡ true)
    → (n : ℕ) × (count_recent time a rs s ≡ ok n)
unfolding count_recent
count_recent-returns time a [] s h = (0, refl)
count_recent-returns time a (r ∷ rs) s h =
    let (v, found) = edge_at-returns a r s (h r (inl refl)) in
    let (n, counted) = count_recent-returns time a rs s (λ r m. h r (inr m)) in
    (if in_last_ten_minutes time v then 1 + n else n, rw (found, counted) refl)

-- The guard reads the same of the graph's transactions and of those it was built from.
module _ (current : GraphTransaction) where
  observe-only_past :
      (t : GraphTransaction) (s : GraphState)
      → only_past current (observe t s).transactions
        ≡ (only_past current s.transactions && ltb t.event_time current.event_time)
  unfolding observe
  observe-only_past t s =
      let seen = observe_entities t.event_time (entities t) s in
      ap (λ ts. only_past current (ts ++ (t ∷ [])))
        (observe_relationships-rest t.event_time (relationships t) seen
          ∙ (observe_entities-rest t.event_time (entities t) s).1)
      ∙ only_past-append current s.transactions t

  observe_many-only_past :
      (ts : List GraphTransaction) (s : GraphState)
      → only_past current (observe_many ts s).transactions
        ≡ (only_past current s.transactions && only_past current ts)
  unfolding observe_many all_of
  observe_many-only_past [] s = ground arith
  observe_many-only_past (t ∷ ts) s =
      ground (arith, observe_many-only_past ts (observe t s), observe-only_past t s)

  sort_insert-only_past :
      (t : GraphTransaction) (ts : List GraphTransaction)
      → only_past current
          (sort_insert (λ (a b : GraphTransaction). ltb a.event_time b.event_time) t ts)
        ≡ (ltb t.event_time current.event_time && only_past current ts)
  unfolding sort_insert all_of
  sort_insert-only_past t [] = refl
  sort_insert-only_past t (u ∷ ts) = ground (arith, sort_insert-only_past t ts)

  sort_by-only_past :
      (ts : List GraphTransaction)
      → only_past current (sort_by (λ (a b : GraphTransaction). ltb a.event_time b.event_time) ts)
        ≡ only_past current ts
  unfolding sort_by all_of
  sort_by-only_past [] = refl
  sort_by-only_past (t ∷ ts) =
      let less = λ (a b : GraphTransaction). ltb a.event_time b.event_time in
      ground (arith, sort_insert-only_past t (sort_by less ts), sort_by-only_past ts)

  graph_of-only_past :
      (ts : List GraphTransaction)
      → only_past current (graph_of ts).transactions ≡ only_past current ts
  unfolding graph_of all_of
  graph_of-only_past ts =
      observe_many-only_past
        (sort_by (λ (a b : GraphTransaction). ltb a.event_time b.event_time) ts) no_graph
      ∙ sort_by-only_past ts

module _ (F : Type 0) ⦃f : Float F⦄ (hash : String → String) (utc_now : ℕ)
    (current : GraphTransaction) (state : GraphState) where
  assess-returns :
      (n : ℕ)
      → only_past current state.transactions ≡ true
      → count_recent current.event_time (device_of current) (device_identities current state) state
        ≡ ok n
      → assessment F hash utc_now current state ≡ ok (assessed_with F hash utc_now current state n)
  unfolding assess measure
  assess-returns n past counted =
      let free : any_of (λ (t : GraphTransaction). leb current.event_time t.event_time)
            state.transactions
          ≡ false =
        ground (arith, only_past-not_any current state.transactions) in
      rw (free, counted) refl

  assess-raises :
      only_past current state.transactions ≡ false
      → assessment F hash utc_now current state
        ≡ raise (value_error "graph state contains a current or future transaction")
  unfolding assess
  assess-raises not_past =
      let caught : any_of (λ (t : GraphTransaction). leb current.event_time t.event_time)
            state.transactions
          ≡ true =
        ground (arith, only_past-not_any current state.transactions) in
      rw caught refl

-- Against a graph built from transactions, an assessment returns when every one of them is earlier
-- than the assessed transaction, no edge being missing; otherwise the guard raises.
pub assess_past :
    (F : Type 0) ⦃f : Float F⦄ (hash : String → String) (utc_now : ℕ) (current : GraphTransaction)
    (ts : List GraphTransaction)
    → ((only_past current ts ≡ true)
        × ((a : GraphAssessment F) × (assessment F hash utc_now current (graph_of ts) ≡ ok a)))
      ⊎ ((only_past current ts ≡ false)
          × (assessment F hash utc_now current (graph_of ts)
              ≡ raise (value_error "graph state contains a current or future transaction")))
assess_past F hash utc_now current ts =
    let state = graph_of ts in
    let same = graph_of-only_past current ts in
    let (n, counted) =
      count_recent-returns current.event_time (device_of current) (device_identities current state)
        state (identities-have_edges current ts) in
    elim (Bool-cases (only_past current ts)) [
      | inl past ↦ inl (
        past,
        (
          assessed_with F hash utc_now current state n,
          assess-returns F hash utc_now current state n (same ∙ past) counted,
        ),
      )
      | inr late ↦ inr (late, assess-raises F hash utc_now current state (same ∙ late))
    ]
