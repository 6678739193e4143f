-- ===== src/Graph/State/Nodes.antt =====
-- The nodes of the graph: both ends of an edge are observed, and neighbors are sorted sets.
use aegis_ai_risk_manager.Common.{
  ℕ, ◌≡◌, refl, ap, ◌∙◌, inl, inr, true, Bool-cases, ◌||◌, List, [], ◌∷◌, none, some, arith, ◌==◌,
  ltb, Option, All,
}
use aegis_ai_risk_manager.Common.Dict.{lookup, insert, has_key, lookup-insert, has_key-insert}
use aegis_ai_risk_manager.Common.Members.{All-map, ◌∈◌, contains_of_∈}
use aegis_ai_risk_manager.Common.Sets.{contains, set_insert_by}
use aegis_ai_risk_manager.Common.Sets.Laws.{IsSorted, set_insert-IsSorted}
use aegis_ai_risk_manager.Common.Sort.{sort_by}
use aegis_ai_risk_manager.Graph.Domain.{
  GraphEntityRef, ref_eq, ref_lt, GraphTransaction, entities, relationships, customer_of, device_of,
  instrument_of, ip_of, address_of,
}
use aegis_ai_risk_manager.Graph.Domain.Order.{ref_ord}
use aegis_ai_risk_manager.Graph.State.{
  Edge, TemporalEdge, GraphState, edge_eq, no_graph, edge_key, set_default, adjacent, add_neighbor,
  observe_entity, observe_entities, record_edge, new_edge, seen_again, observe_relationship,
  observe_relationships, observe, observe_many, graph_of, has_node,
}
use aegis_ai_risk_manager.Graph.State.Edges.{lookup_of_new_key, contains-add_neighbor}

has_key-set_default :
    {V : Type 0} (k j : GraphEntityRef) (v : V) (d : List (GraphEntityRef × V))
    → has_key j (set_default k v d) ≡ ((k == j) || has_key j d)
unfolding set_default
has_key-set_default k j v d = elim (Bool-cases (has_key k d)) [
  | inl old ↦ rw old (ground (arith, ref_eq.beq_iff k j))
  | inr new ↦ rw new (has_key-insert k j v d ∙ ground arith)
]

-- What observing entities adds to the nodes.
has_node-observe_entities :
    (time : ℕ) (refs : List GraphEntityRef) (s : GraphState) (a : GraphEntityRef)
    → has_node a (observe_entities time refs s) ≡ (contains refs a || has_node a s)
unfolding observe_entities observe_entity has_node contains
has_node-observe_entities time [] s a = refl
has_node-observe_entities time (r ∷ refs) s a =
    has_node-observe_entities time refs (observe_entity time r s) a
    ∙ (ap (λ t. contains refs a || t) (has_key-set_default r a time s.node_first_seen)
        ∙ ground arith)

-- The neighbors are nodes, and a sorted set.
pub record IsNoded (s : GraphState) : Type 0 where
  pub nodes : (a b : GraphEntityRef) → contains (adjacent a s) b ≡ true → has_node b s ≡ true
  pub sorted : (a : GraphEntityRef) → IsSorted (adjacent a s)

adjacent-observe_entity :
    (time : ℕ) (r : GraphEntityRef) (s : GraphState) (a : GraphEntityRef)
    → adjacent a (observe_entity time r s) ≡ adjacent a s
unfolding observe_entity adjacent
adjacent-observe_entity time r s a = lookup_of_new_key a r s.adjacency

adjacent-observe_entities :
    (time : ℕ) (refs : List GraphEntityRef) (s : GraphState) (a : GraphEntityRef)
    → adjacent a (observe_entities time refs s) ≡ adjacent a s
unfolding observe_entities
adjacent-observe_entities time [] s a = refl
adjacent-observe_entities time (r ∷ refs) s a =
    adjacent-observe_entities time refs (observe_entity time r s) a
    ∙ adjacent-observe_entity time r s a

observe_entities-IsNoded :
    (time : ℕ) (refs : List GraphEntityRef) (s : GraphState)
    → IsNoded s
    → IsNoded (observe_entities time refs s)
observe_entities-IsNoded time refs s h = record {
  nodes = λ a b m.
      let old = h.nodes a b (rw (adjacent-observe_entities time refs s a) at m) in
      has_node-observe_entities time refs s b ∙ rw old (ground arith);
  sorted = λ a. rw (adjacent-observe_entities time refs s a) (h.sorted a);
}

has_node-add_neighbor :
    (l r : GraphEntityRef) (s : GraphState) (b : GraphEntityRef)
    → has_node b (add_neighbor l r s) ≡ has_node b s
unfolding has_node add_neighbor
has_node-add_neighbor l r s b = refl

add_neighbor-IsSorted :
    (l r : GraphEntityRef) (s : GraphState)
    → IsNoded s
    → (a : GraphEntityRef) → IsSorted (adjacent a (add_neighbor l r s))
unfolding add_neighbor adjacent
add_neighbor-IsSorted l r s h a = elim (Bool-cases (l == a)) [
  | inl here ↦
      rw (lookup-insert l a (set_insert_by ref_lt r (adjacent l s)) s.adjacency, here)
        (set_insert-IsSorted r (adjacent l s) (h.sorted l))
  | inr there ↦
      rw (lookup-insert l a (set_insert_by ref_lt r (adjacent l s)) s.adjacency, there) (h.sorted a)
]

add_neighbor-IsNoded :
    (l r : GraphEntityRef) (s : GraphState)
    → has_node r s ≡ true
    → IsNoded s
    → IsNoded (add_neighbor l r s)
add_neighbor-IsNoded l r s known h = record {
  nodes = λ a b m.
      rw (has_node-add_neighbor l r s b) (
        ground (arith, contains-add_neighbor a b l r s, h.nodes a b, ref_eq.beq_iff r b, known, m));
  sorted = λ a. add_neighbor-IsSorted l r s h a;
}

same_nodes :
    (s : GraphState) (es : List (Edge × TemporalEdge)) (b : GraphEntityRef)
    → has_node b (record s { edges = es }) ≡ has_node b s
unfolding has_node
same_nodes s es b = refl

with_edges-IsNoded :
    (s : GraphState) (es : List (Edge × TemporalEdge))
    → IsNoded s
    → IsNoded (record s { edges = es })
unfolding has_node adjacent
with_edges-IsNoded s es h = record { nodes = h.nodes; sorted = h.sorted }

record_edge-IsNoded :
    (time : ℕ) (l r : GraphEntityRef) (o : Option TemporalEdge) (s : GraphState)
    → has_node l s ≡ true
    → has_node r s ≡ true
    → IsNoded s
    → IsNoded (record_edge time l r o s)
unfolding record_edge
record_edge-IsNoded time l r none s kl kr h =
    let added = record s { edges = insert (edge_key l r) (new_edge time) s.edges } in
    add_neighbor-IsNoded r l (add_neighbor l r added)
      (has_node-add_neighbor l r added l ∙ same_nodes s added.edges l ∙ kl)
      (add_neighbor-IsNoded l r added (same_nodes s added.edges r ∙ kr)
        (with_edges-IsNoded s added.edges h))
record_edge-IsNoded time l r (some metadata) s kl kr h =
    with_edges-IsNoded s (insert (edge_key l r) (seen_again time metadata) s.edges) h

has_node-record_edge :
    (time : ℕ) (l r : GraphEntityRef) (o : Option TemporalEdge) (s : GraphState)
    (b : GraphEntityRef)
    → has_node b (record_edge time l r o s) ≡ has_node b s
unfolding record_edge has_node add_neighbor
has_node-record_edge time l r none s b = refl
has_node-record_edge time l r (some metadata) s b = refl

abbrev AreNodes : List Edge → GraphState → Type 0
AreNodes es s = All (λ (e : Edge). (has_node e.0 s ≡ true) × (has_node e.1 s ≡ true)) es

observe_relationships-IsNoded :
    (time : ℕ) (es : List Edge) (s : GraphState)
    → AreNodes es s
    → IsNoded s
    → IsNoded (observe_relationships time es s)
unfolding observe_relationships observe_relationship
observe_relationships-IsNoded time [] s known h = h
observe_relationships-IsNoded time ((l, r) ∷ es) s ((kl, kr), known) h =
    let old = lookup (edge_key l r) s.edges in
    observe_relationships-IsNoded time es (record_edge time l r old s)
      (All-map (λ (e : Edge). (has_node e.0 s ≡ true) × (has_node e.1 s ≡ true))
        (λ (e : Edge).
          (has_node e.0 (record_edge time l r old s) ≡ true)
          × (has_node e.1 (record_edge time l r old s) ≡ true))
        es
        (λ e k. (
          has_node-record_edge time l r old s e.0 ∙ k.0,
          has_node-record_edge time l r old s e.1 ∙ k.1,
        ))
        known)
      (record_edge-IsNoded time l r old s kl kr h)

entity-has_node :
    (time : ℕ) (refs : List GraphEntityRef) (s : GraphState) (a : GraphEntityRef)
    → a ∈ refs
    → has_node a (observe_entities time refs s) ≡ true
entity-has_node time refs s a m =
    has_node-observe_entities time refs s a ∙ rw (contains_of_∈ a refs m) refl

-- The ends of the edges of a transaction are entities of it.
relationships-AreNodes :
    (t : GraphTransaction) (s : GraphState)
    → AreNodes (relationships t) (observe_entities t.event_time (entities t) s)
relationships-AreNodes t s =
    let known = entity-has_node t.event_time (entities t) s in
    let from = known (customer_of t) (inl refl) in
    let pays = known (instrument_of t) (inr (inl refl)) in
    let on = known (device_of t) (inr (inr (inl refl))) in
    let ip = known (ip_of t) (inr (inr (inr (inl refl)))) in
    let at_home = known (address_of t) (inr (inr (inr (inr (inl refl))))) in
    ((from, on), ((from, pays), ((from, ip), ((from, at_home), ((pays, on), tt)))))

observe-IsNoded : (t : GraphTransaction) (s : GraphState) → IsNoded s → IsNoded (observe t s)
unfolding observe has_node adjacent
observe-IsNoded t s h =
    let seen = observe_entities t.event_time (entities t) s in
    let done =
      observe_relationships-IsNoded t.event_time (relationships t) seen (relationships-AreNodes t s)
        (observe_entities-IsNoded t.event_time (entities t) s h) in
    record { nodes = done.nodes; sorted = done.sorted }

pub observe_many-IsNoded :
    (ts : List GraphTransaction) (s : GraphState) → IsNoded s → IsNoded (observe_many ts s)
unfolding observe_many
observe_many-IsNoded [] s h = h
observe_many-IsNoded (t ∷ ts) s h = observe_many-IsNoded ts (observe t s) (observe-IsNoded t s h)

no_graph-IsNoded : IsNoded no_graph
unfolding adjacent contains
no_graph-IsNoded = record { nodes = λ a b m. ground arith; sorted = λ a. tt }

-- In a graph built from transactions every neighbor is a node, and neighbors are sorted sets.
pub graph_of-IsNoded : (ts : List GraphTransaction) → IsNoded (graph_of ts)
unfolding graph_of
graph_of-IsNoded ts =
    observe_many-IsNoded (sort_by (λ (a b : GraphTransaction). ltb a.event_time b.event_time) ts)
      no_graph no_graph-IsNoded
