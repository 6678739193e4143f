-- ===== src/Graph/State/Counts.antt =====
-- How often the graph saw an edge.
use aegis_ai_risk_manager.Common.{
  ℕ, ◌+◌, ◌≡◌, refl, sym, inl, inr, Bool, Bool-cases, Option-cases, List, [], ◌∷◌, Option, none,
  some, arith, ◌==◌, count_of, sum_of, ltb, if◌then◌else◌,
}
use aegis_ai_risk_manager.Common.Dict.{lookup, insert, lookup-insert}
use aegis_ai_risk_manager.Common.Sort.{sort_insert, sort_by}
use aegis_ai_risk_manager.Graph.Domain.{GraphEntityRef, GraphTransaction, entities, relationships}
use aegis_ai_risk_manager.Graph.State.{
  Edge, TemporalEdge, GraphState, no_graph, edge_eq, edge_key, add_neighbor, new_edge, seen_again,
  observe_entity, observe_entities, record_edge, observe_relationship, observe_relationships,
  observe, observe_many, graph_of,
}

sum_of-sort_insert :
    {A : Type 0} (lt : A → A → Bool) (g : A → ℕ) (a : A) (xs : List A)
    → sum_of g (sort_insert lt a xs) ≡ g a + sum_of g xs
unfolding sum_of sort_insert
sum_of-sort_insert lt g a [] = refl
sum_of-sort_insert lt g a (x ∷ xs) = ground (arith, sum_of-sort_insert lt g a xs)

-- Sorting changes no sum.
pub sum_of-sort_by :
    {A : Type 0} (lt : A → A → Bool) (g : A → ℕ) (xs : List A)
    → sum_of g (sort_by lt xs) ≡ sum_of g xs
unfolding sum_of sort_by
sum_of-sort_by lt g [] = refl
sum_of-sort_by lt g (x ∷ xs) =
    omega (arith, sum_of-sort_insert lt g x (sort_by lt xs), sum_of-sort_by lt g xs)

abbrev pub times : Option TemporalEdge → ℕ
times none = 0
times (some metadata) = metadata.observation_count

times-insert :
    (k j : Edge) (d : List (Edge × TemporalEdge)) (v : TemporalEdge)
    → v.observation_count ≡ 1 + times (lookup k d)
    → times (lookup j (insert k v d)) ≡ (if k == j then 1 else 0) + times (lookup j d)
times-insert k j d v h = elim (Bool-cases (k == j)) [
  | inl same ↦ rw (lookup-insert k j v d, same, sym ((edge_eq.beq_iff k j).0 same)) h
  | inr other ↦ rw (lookup-insert k j v d, other) (omega arith)
]

module _ (k : Edge) where
  abbrev pub times_seen : GraphState → ℕ
  times_seen s = times (lookup k s.edges)

  -- The relationships of a transaction that are the edge.
  abbrev pub mentions : List Edge → ℕ
  mentions = count_of (λ (e : Edge). edge_key e.0 e.1 == k)

  times_seen-observe_entities :
      (time : ℕ) (refs : List GraphEntityRef) (s : GraphState)
      → times_seen (observe_entities time refs s) ≡ times_seen s
  unfolding observe_entities observe_entity
  times_seen-observe_entities time [] s = refl
  times_seen-observe_entities time (r ∷ refs) s =
      times_seen-observe_entities time refs (observe_entity time r s)

  times_seen-observe_relationship :
      (time : ℕ) (l r : GraphEntityRef) (s : GraphState)
      → times_seen (observe_relationship time (l, r) s)
        ≡ (if edge_key l r == k then 1 else 0) + times_seen s
  unfolding observe_relationship record_edge add_neighbor
  times_seen-observe_relationship time l r s = elim (Option-cases (lookup (edge_key l r) s.edges)) [
    | inl new ↦ rw new (times-insert (edge_key l r) k s.edges (new_edge time) (rw new refl))
    | inr (metadata, old) ↦
        rw old
          (times-insert (edge_key l r) k s.edges (seen_again time metadata) (rw old (omega arith)))
  ]

  times_seen-observe_relationships :
      (time : ℕ) (es : List Edge) (s : GraphState)
      → times_seen (observe_relationships time es s) ≡ mentions es + times_seen s
  unfolding observe_relationships count_of
  times_seen-observe_relationships time [] s = omega arith
  times_seen-observe_relationships time ((l, r) ∷ es) s = omega (
    arith,
    times_seen-observe_relationships time es (observe_relationship time (l, r) s),
    times_seen-observe_relationship time l r s,
  )

  times_seen-observe :
      (t : GraphTransaction) (s : GraphState)
      → times_seen (observe t s) ≡ mentions (relationships t) + times_seen s
  unfolding observe
  times_seen-observe t s = omega (
    arith,
    times_seen-observe_relationships t.event_time (relationships t)
        (observe_entities t.event_time (entities t) s),
    times_seen-observe_entities t.event_time (entities t) s,
  )

  times_seen-observe_many :
      (ts : List GraphTransaction) (s : GraphState)
      → times_seen (observe_many ts s)
        ≡ sum_of (λ (t : GraphTransaction). mentions (relationships t)) ts + times_seen s
  unfolding observe_many sum_of
  times_seen-observe_many [] s = omega arith
  times_seen-observe_many (t ∷ ts) s =
      omega (arith, times_seen-observe_many ts (observe t s), times_seen-observe t s)

  -- In a graph built from transactions, in any order, the observation count of an edge is the
  -- number of relationships of these transactions that are the edge.
  pub graph_of-times_seen :
      (ts : List GraphTransaction)
      → times_seen (graph_of ts) ≡ sum_of (λ (t : GraphTransaction). mentions (relationships t)) ts
  unfolding graph_of lookup
  graph_of-times_seen ts =
      let before = λ (a b : GraphTransaction). ltb a.event_time b.event_time in
      omega (
        arith,
        times_seen-observe_many (sort_by before ts) no_graph,
        sum_of-sort_by before (λ (t : GraphTransaction). mentions (relationships t)) ts,
      )
