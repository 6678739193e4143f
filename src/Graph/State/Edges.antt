-- ===== src/Graph/State/Edges.antt =====
-- What the graph remembers: adjacency is exactly the edges, and each edge counts its observations.
use aegis_ai_risk_manager.Common.{
  ℕ, ◌≡◌, refl, sym, ap, ◌∙◌, inl, inr, Bool, true, Bool-cases, Option-cases, ◌&&◌, ◌||◌, List, [],
  ◌∷◌, none, some, arith, ◌==◌, if◌then◌else◌, ltb,
}
use aegis_ai_risk_manager.Common.Dict.{
  lookup, insert, has_key, lookup-insert, has_key-insert, lookup_of_no_key, has_key_of_lookup,
}
use aegis_ai_risk_manager.Common.Sets.{contains, set_insert_by}
use aegis_ai_risk_manager.Common.Sets.Laws.{contains-set_insert}
use aegis_ai_risk_manager.Common.Sort.{sort_by}
use aegis_ai_risk_manager.Enums.{entity_type_eq}
use aegis_ai_risk_manager.Graph.Domain.Order.{ref_lt_irrefl, ref_lt_trans, ref_lt_total, ref_ord}
use aegis_ai_risk_manager.Graph.Domain.{
  GraphEntityRef, ref_eq, ref_lt, GraphTransaction, entities, relationships,
}
use aegis_ai_risk_manager.Graph.State.{
  Edge, TemporalEdge, GraphState, no_graph, edge_eq, edge_key, set_default, adjacent, add_neighbor,
  observe_entity, observe_entities, record_edge, observe_relationship, observe_relationships,
  observe, observe_many, graph_of, has_edge, or_no_neighbors, new_edge, seen_again,
}

pub edge_key_comm : (a b : GraphEntityRef) → edge_key a b ≡ edge_key b a
unfolding edge_key
edge_key_comm a b = ground (arith, ref_lt_total a b, ref_lt_trans a b a, ref_lt_irrefl a)

-- An edge has one key, whichever end comes first.
edge_key-beq :
    (l r a b : GraphEntityRef)
    → (edge_key l r == edge_key a b) ≡ (((l == a) && (r == b)) || ((l == b) && (r == a)))
unfolding edge_key
edge_key-beq l r a b = ground (
  arith,
  ref_lt_total a b,
  ref_lt_total l r,
  ref_lt_trans a b a,
  ref_lt_irrefl a,
  ref_eq.beq_iff l a,
  ref_eq.beq_iff r b,
  ref_eq.beq_iff l b,
  ref_eq.beq_iff r a,
)

pub lookup_of_new_key :
    (a r : GraphEntityRef) (d : List (GraphEntityRef × List GraphEntityRef))
    → or_no_neighbors (lookup a (set_default r [] d)) ≡ or_no_neighbors (lookup a d)
unfolding set_default
lookup_of_new_key a r d =
    ground (arith, lookup-insert r a [] d, lookup_of_no_key r d, ref_eq.beq_iff r a)

key_twice :
    {V : Type 0} (k j : Edge) (d : List (Edge × V))
    → has_key k d ≡ true
    → has_key j d ≡ (if k == j then true else has_key j d)
key_twice k j d h = elim (Bool-cases (k == j)) [
  | inl same ↦ rw (same, sym ((edge_eq.beq_iff k j).0 same)) h
  | inr other ↦ rw other refl
]

either_end :
    (x y z : Bool) {c h : Bool}
    → c ≡ h
    → ((x && y) || (z || c)) ≡ (if z || (y && x) then true else h)
either_end x y z e = ground arith

module _ (a b : GraphEntityRef) where
  -- Neighbors are the other ends of edges.
  abbrev pub IsLinked : GraphState → Type 0
  IsLinked s = contains (adjacent a s) b ≡ has_edge a b s

  observe_entity-IsLinked :
      (time : ℕ) (r : GraphEntityRef) (s : GraphState)
      → IsLinked s
      → IsLinked (observe_entity time r s)
  unfolding observe_entity adjacent has_edge
  observe_entity-IsLinked time r s h = rw (lookup_of_new_key a r s.adjacency) h

  observe_entities-IsLinked :
      (time : ℕ) (refs : List GraphEntityRef) (s : GraphState)
      → IsLinked s
      → IsLinked (observe_entities time refs s)
  unfolding observe_entities
  observe_entities-IsLinked time [] s h = h
  observe_entities-IsLinked time (r ∷ refs) s h =
      observe_entities-IsLinked time refs (observe_entity time r s)
        (observe_entity-IsLinked time r s h)

  pub contains-add_neighbor :
      (l r : GraphEntityRef) (s : GraphState)
      → contains (adjacent a (add_neighbor l r s)) b
        ≡ (((l == a) && (r == b)) || contains (adjacent a s) b)
  unfolding add_neighbor adjacent
  contains-add_neighbor l r s =
      let sets = contains-set_insert r (adjacent l s) b in
      let found = lookup-insert l a (set_insert_by ref_lt r (adjacent l s)) s.adjacency in
      ground (arith, sets, found, ref_eq.beq_iff l a)

  first_seen-IsLinked :
      (time : ℕ) (l r : GraphEntityRef) (s : GraphState)
      → IsLinked s
      → IsLinked (record_edge time l r none s)
  unfolding record_edge has_edge add_neighbor
  first_seen-IsLinked time l r s h =
      let added = record s { edges = insert (edge_key l r) (new_edge time) s.edges } in
      let once = contains-add_neighbor l r added in
      let twice = contains-add_neighbor r l (add_neighbor l r added) in
      let keys = has_key-insert (edge_key l r) (edge_key a b) (new_edge time) s.edges in
      let same = edge_key-beq l r a b in
      twice
      ∙ (ap (λ t. ((r == a) && (l == b)) || t) once
          ∙ (rw same (either_end (r == a) (l == b) ((l == a) && (r == b)) h) ∙ sym keys))

  seen_again-IsLinked :
      (time : ℕ) (l r : GraphEntityRef) (metadata : TemporalEdge) (s : GraphState)
      → lookup (edge_key l r) s.edges ≡ some metadata
      → IsLinked s
      → IsLinked (record_edge time l r (some metadata) s)
  unfolding record_edge has_edge
  seen_again-IsLinked time l r metadata s old h =
      let keys = has_key-insert (edge_key l r) (edge_key a b) (seen_again time metadata) s.edges in
      let there = has_key_of_lookup (edge_key l r) s.edges metadata old in
      h ∙ (key_twice (edge_key l r) (edge_key a b) s.edges there ∙ sym keys)

  observe_relationship-IsLinked :
      (time : ℕ) (l r : GraphEntityRef) (s : GraphState)
      → IsLinked s
      → IsLinked (observe_relationship time (l, r) s)
  unfolding observe_relationship
  observe_relationship-IsLinked time l r s h = elim (Option-cases (lookup (edge_key l r) s.edges)) [
    | inl new ↦ rw new (first_seen-IsLinked time l r s h)
    | inr (metadata, old) ↦ rw old (seen_again-IsLinked time l r metadata s old h)
  ]

  observe_relationships-IsLinked :
      (time : ℕ) (es : List Edge) (s : GraphState)
      → IsLinked s
      → IsLinked (observe_relationships time es s)
  unfolding observe_relationships
  observe_relationships-IsLinked time [] s h = h
  observe_relationships-IsLinked time ((l, r) ∷ es) s h =
      observe_relationships-IsLinked time es (observe_relationship time (l, r) s)
        (observe_relationship-IsLinked time l r s h)

  observe-IsLinked : (t : GraphTransaction) (s : GraphState) → IsLinked s → IsLinked (observe t s)
  unfolding observe adjacent has_edge
  observe-IsLinked t s h =
      observe_relationships-IsLinked t.event_time (relationships t)
        (observe_entities t.event_time (entities t) s)
        (observe_entities-IsLinked t.event_time (entities t) s h)

  -- Observing transactions keeps the neighbors of every entity equal to the other ends of its
  -- edges.
  pub observe_many-IsLinked :
      (ts : List GraphTransaction) (s : GraphState) → IsLinked s → IsLinked (observe_many ts s)
  unfolding observe_many
  observe_many-IsLinked [] s h = h
  observe_many-IsLinked (t ∷ ts) s h =
      observe_many-IsLinked ts (observe t s) (observe-IsLinked t s h)

has_edge_comm : (a b : GraphEntityRef) (s : GraphState) → has_edge a b s ≡ has_edge b a s
unfolding has_edge
has_edge_comm a b s = ap (λ k. has_key k s.edges) (edge_key_comm a b)

empty : (a b : GraphEntityRef) → IsLinked a b no_graph
unfolding adjacent has_edge contains
empty a b = refl

-- In a graph built from transactions an entity is a neighbor of another exactly when the two have
-- an edge, and then each is a neighbor of the other.
pub graph_of-linked :
    (ts : List GraphTransaction) (a b : GraphEntityRef)
    → (contains (adjacent a (graph_of ts)) b ≡ has_edge a b (graph_of ts))
      × (contains (adjacent a (graph_of ts)) b ≡ contains (adjacent b (graph_of ts)) a)
unfolding graph_of
graph_of-linked ts a b =
    let sorted = sort_by (λ (a b : GraphTransaction). ltb a.event_time b.event_time) ts in
    let here = observe_many-IsLinked a b sorted no_graph (empty a b) in
    let there = observe_many-IsLinked b a sorted no_graph (empty b a) in
    (here, here ∙ (has_edge_comm a b (observe_many sorted no_graph) ∙ sym there))
