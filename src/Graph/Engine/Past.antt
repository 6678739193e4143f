-- ===== src/Graph/Engine/Past.antt =====
-- An assessment reads nothing that happened at or after the current transaction.
use aegis_ai_risk_manager.Common.{
  ℕ, ◌≡◌, ◌<◌, refl, sym, ap, ◌∙◌, inl, inr, Bool, true, Bool-cases, Option-cases, ◌&&◌, String,
  List, [], ◌∷◌, ◌++◌, some, ok, arith, all_of, select, ltb, subst, Eq, ◌==◌,
}
use aegis_ai_risk_manager.Common.Dict.{lookup, insert, all_of-lookup}
use aegis_ai_risk_manager.Common.Sort.{sort_by}
use aegis_ai_risk_manager.Common.Float.{Float}
use aegis_ai_risk_manager.Graph.Domain.{
  GraphEntityRef, GraphTransaction, GraphAssessment, entities, relationships,
}
use aegis_ai_risk_manager.Graph.State.{
  Edge, TemporalEdge, GraphState, no_graph, edge_eq, edge_key, add_neighbor, new_edge, seen_again,
  observe_entity, observe_entities, record_edge, observe_relationship, observe_relationships,
  observe, observe_many, graph_of,
}
use aegis_ai_risk_manager.Graph.State.Components.{component_edges}
use aegis_ai_risk_manager.Graph.Engine.{measures_with}
use aegis_ai_risk_manager.Graph.Engine.Assess.{assessment_from, last_source_time}
use aegis_ai_risk_manager.Graph.Engine.Laws.{only_past, assessment, assess-only_past, assess-eq_ok}

all_of-insert :
    {K V : Type 0} ⦃e : Eq K⦄ (p : K × V → Bool) (k : K) (v : V) (d : List (K × V))
    → all_of p d ≡ true
    → ((j : K) → p (j, v) ≡ true)
    → all_of p (insert k v d) ≡ true
unfolding all_of insert
all_of-insert p k v [] h good = rw (good k) refl
all_of-insert p k v ((j, w) ∷ d) h good = elim (Bool-cases (j == k)) [
  | inl here ↦ rw (here, good j) (ground arith)
  | inr there ↦ let rest = all_of-insert p k v d in rw there (ground arith)
]

module _ (n : ℕ) where
  abbrev is_past : Edge × TemporalEdge → Bool
  is_past e = ltb e.1.first_seen_at n && ltb e.1.last_seen_at n

  past_insert :
      (k : Edge) (v : TemporalEdge) (d : List (Edge × TemporalEdge))
      → all_of is_past d ≡ true
      → is_past (k, v) ≡ true
      → all_of is_past (insert k v d) ≡ true
  past_insert k v d h p = all_of-insert is_past k v d h (λ j. p)

  past_select :
      (q : Edge × TemporalEdge → Bool) (d : List (Edge × TemporalEdge))
      → all_of is_past d ≡ true
      → all_of is_past (select q d) ≡ true
  unfolding all_of select
  past_select q [] h = h
  past_select q (e ∷ d) h = ground (arith, past_select q d)

  observe_relationship-past :
      (time : ℕ) (l r : GraphEntityRef) (s : GraphState)
      → ltb time n ≡ true
      → all_of is_past s.edges ≡ true
      → all_of is_past (observe_relationship time (l, r) s).edges ≡ true
  unfolding observe_relationship record_edge add_neighbor
  observe_relationship-past time l r s t h = elim (Option-cases (lookup (edge_key l r) s.edges)) [
    | inl new ↦ rw new (past_insert (edge_key l r) (new_edge time) s.edges h (ground arith))
    | inr (metadata, old) ↦
        let before = all_of-lookup is_past (edge_key l r) s.edges metadata h old in
        rw old (past_insert (edge_key l r) (seen_again time metadata) s.edges h (ground arith))
  ]

  observe_relationships-past :
      (time : ℕ) (es : List Edge) (s : GraphState)
      → ltb time n ≡ true
      → all_of is_past s.edges ≡ true
      → all_of is_past (observe_relationships time es s).edges ≡ true
  unfolding observe_relationships
  observe_relationships-past time [] s t h = h
  observe_relationships-past time ((l, r) ∷ es) s t h =
      observe_relationships-past time es (observe_relationship time (l, r) s) t
        (observe_relationship-past time l r s t h)

  -- The latest time of past edges is past.
  last_source_time-past :
      (d : List (Edge × TemporalEdge)) (t : ℕ)
      → all_of is_past d ≡ true
      → last_source_time d ≡ some t
      → t < n
  unfolding all_of last_source_time
  last_source_time-past [] t h e = cc
  last_source_time-past ((k, v) ∷ d) t h e = elim (Option-cases (last_source_time d)) [
    | inl last ↦ ground arith
    | inr (u, more) ↦ let rest = last_source_time-past d u (ground arith) more in ground arith
  ]

-- The loops of `observe` leave the other fields alone.
pub observe_entities-rest :
    (time : ℕ) (refs : List GraphEntityRef) (s : GraphState)
    → ((observe_entities time refs s).edges ≡ s.edges)
      × ((observe_entities time refs s).transactions ≡ s.transactions)
unfolding observe_entities observe_entity
observe_entities-rest time [] s = (refl, refl)
observe_entities-rest time (r ∷ refs) s = observe_entities-rest time refs (observe_entity time r s)

observe_relationship-rest :
    (time : ℕ) (l r : GraphEntityRef) (s : GraphState)
    → (observe_relationship time (l, r) s).transactions ≡ s.transactions
unfolding observe_relationship record_edge add_neighbor
observe_relationship-rest time l r s = elim (Option-cases (lookup (edge_key l r) s.edges)) [
  | inl new ↦ rw new refl
  | inr (metadata, old) ↦ rw old refl
]

pub observe_relationships-rest :
    (time : ℕ) (es : List Edge) (s : GraphState)
    → (observe_relationships time es s).transactions ≡ s.transactions
unfolding observe_relationships
observe_relationships-rest time [] s = refl
observe_relationships-rest time ((l, r) ∷ es) s =
    observe_relationships-rest time es (observe_relationship time (l, r) s)
    ∙ observe_relationship-rest time l r s

pub only_past-append :
    (current : GraphTransaction) (ts : List GraphTransaction) (t : GraphTransaction)
    → only_past current (ts ++ (t ∷ []))
      ≡ (only_past current ts && ltb t.event_time current.event_time)
unfolding all_of
only_past-append current [] t = ground arith
only_past-append current (u ∷ ts) t = ground (arith, only_past-append current ts t)

-- The edges are past whenever the transactions are.
module _ (current : GraphTransaction) where
  abbrev IsPast : GraphState → Type 0
  IsPast s =
      only_past current s.transactions ≡ true → all_of (is_past current.event_time) s.edges ≡ true

  observe-IsPast : (t : GraphTransaction) (s : GraphState) → IsPast s → IsPast (observe t s)
  unfolding observe
  observe-IsPast t s h past =
      let seen = observe_entities t.event_time (entities t) s in
      let linked = observe_relationships t.event_time (relationships t) seen in
      let same : linked.transactions ≡ s.transactions =
        observe_relationships-rest t.event_time (relationships t) seen
        ∙ (observe_entities-rest t.event_time (entities t) s).1 in
      let both =
        sym (only_past-append current s.transactions t)
        ∙ (ap (λ ts. only_past current (ts ++ (t ∷ []))) (sym same) ∙ past) in
      let before : only_past current s.transactions ≡ true = ground arith in
      let now : ltb t.event_time current.event_time ≡ true = ground arith in
      observe_relationships-past current.event_time t.event_time (relationships t) seen now (
        subst (λ es. all_of (is_past current.event_time) es ≡ true)
          (sym (observe_entities-rest t.event_time (entities t) s).0) (h before))

  observe_many-IsPast :
      (ts : List GraphTransaction) (s : GraphState) → IsPast s → IsPast (observe_many ts s)
  unfolding observe_many
  observe_many-IsPast [] s h = h
  observe_many-IsPast (t ∷ ts) s h = observe_many-IsPast ts (observe t s) (observe-IsPast t s h)

  graph_of-IsPast : (ts : List GraphTransaction) → IsPast (graph_of ts)
  unfolding graph_of all_of
  graph_of-IsPast ts =
      observe_many-IsPast (sort_by (λ (a b : GraphTransaction). ltb a.event_time b.event_time) ts)
        no_graph (λ h. refl)

-- The latest source time of an assessment against a graph built from transactions is earlier than
-- the assessed transaction.
pub assess-max_source_event_time :
    (F : Type 0) ⦃f : Float F⦄ (hash : String → String) (utc_now : ℕ) (current : GraphTransaction)
    (ts : List GraphTransaction) {a : GraphAssessment F} {t : ℕ}
    → assessment F hash utc_now current (graph_of ts) ≡ ok a
    → a.max_source_event_time ≡ some t
    → t < current.event_time
unfolding assessment_from measures_with component_edges
assess-max_source_event_time F hash utc_now current ts {a} {t} made e =
    let past = assess-only_past F hash utc_now current (graph_of ts) made in
    let edges = graph_of-IsPast current ts past in
    let source =
      ap (λ (a : GraphAssessment F). a.max_source_event_time)
        (assess-eq_ok F hash utc_now current (graph_of ts) made).1
      ∙ e in
    last_source_time-past current.event_time _ t
      (past_select current.event_time _ (graph_of ts).edges edges) source
