-- ===== src/Graph/State.antt =====
-- packages/graph_engine/state.py: the temporal graph in memory. A dict is an association list in
-- insertion order, a set of entities the sorted list of its members; `sorted` and `min` over sets
-- therefore compute, and the order in which the source walks a set does not matter to it.
pub mod Components
pub mod Edges
pub mod Nodes
pub mod Counts
pub mod Reach
pub mod Partition
pub mod Split
use aegis_ai_risk_manager.Common.{
  ℕ, ◌+◌, ◌≡◌, ◌↔◌, Bool, true, false, ◌&&◌, String, List, [], ◌∷◌, ◌++◌, Option, none, some, arith,
  Eq, ◌==◌, max, ltb, select, if◌then◌else◌,
}
use aegis_ai_risk_manager.Common.Dict.{lookup, insert, has_key}
use aegis_ai_risk_manager.Common.Sets.{set_insert_by}
use aegis_ai_risk_manager.Common.Sort.{sort_by}
use aegis_ai_risk_manager.Enums.{GraphEntityType, entity_type_eq}
use aegis_ai_risk_manager.Graph.Domain.{
  GraphEntityRef, ref_eq, ref_lt, GraphTransaction, entities, relationships,
}

pub record TemporalEdge : Type 0 where
  pub first_seen_at : ℕ
  pub last_seen_at : ℕ
  pub observation_count : ℕ

abbrev pub Edge : Type 0
Edge = GraphEntityRef × GraphEntityRef

pub edge_beq_iff : (a b : Edge) → (((a.0 == b.0) && (a.1 == b.1)) ≡ true) ↔ (a ≡ b)
edge_beq_iff a b = ground (arith, ref_eq.beq_iff a.0 b.0, ref_eq.beq_iff a.1 b.1)

instance abbrev pub edge_eq : Eq Edge
edge_eq = record { beq = λ a b. (a.0 == b.0) && (a.1 == b.1); beq_iff = edge_beq_iff }

unfoldable pub edge_key : GraphEntityRef → GraphEntityRef → Edge
unfolding ref_lt
edge_key left right = if ref_lt left right then (left, right) else (right, left)

-- `InMemoryGraphState`
pub record GraphState : Type 0 where
  pub adjacency : List (GraphEntityRef × List GraphEntityRef)
  pub edges : List (Edge × TemporalEdge)
  pub node_first_seen : List (GraphEntityRef × ℕ)
  pub transactions : List GraphTransaction

abbrev pub no_graph : GraphState
no_graph = record { adjacency = []; edges = []; node_first_seen = []; transactions = [] }

-- `d.setdefault(k, v)`
unfoldable pub set_default {ℓ κ} :
    {K : Type ℓ} {V : Type κ} ⦃e : Eq K⦄ → K → V → List (K × V) → List (K × V)
unfolding has_key insert
set_default k v d = if has_key k d then d else insert k v d

abbrev pub or_no_neighbors : Option (List GraphEntityRef) → List GraphEntityRef
or_no_neighbors none = []
or_no_neighbors (some xs) = xs

-- `adjacency.get(entity, set())`, and `adjacency[entity]` of the default dict.
unfoldable pub adjacent : GraphEntityRef → GraphState → List GraphEntityRef
unfolding lookup
adjacent entity s = or_no_neighbors (lookup entity s.adjacency)

-- `self.adjacency[left].add(right)`
unfoldable pub add_neighbor : GraphEntityRef → GraphEntityRef → GraphState → GraphState
unfolding adjacent insert set_insert_by ref_lt
add_neighbor left right s = record s {
  adjacency = insert left (set_insert_by ref_lt right (adjacent left s)) s.adjacency;
}

-- One round of the first loop of `observe`.
unfoldable pub observe_entity : ℕ → GraphEntityRef → GraphState → GraphState
unfolding set_default
observe_entity time entity s = record s {
  node_first_seen = set_default entity time s.node_first_seen;
  adjacency = set_default entity [] s.adjacency;
}

unfoldable pub observe_entities : ℕ → List GraphEntityRef → GraphState → GraphState
unfolding observe_entity
observe_entities time [] s = s
observe_entities time (r ∷ refs) s = observe_entities time refs (observe_entity time r s)

abbrev pub new_edge : ℕ → TemporalEdge
new_edge time = record { first_seen_at = time; last_seen_at = time; observation_count = 1 }

abbrev pub seen_again : ℕ → TemporalEdge → TemporalEdge
seen_again time metadata = record metadata {
  last_seen_at = max metadata.last_seen_at time;
  observation_count = metadata.observation_count + 1;
}

-- One round of the second loop.
unfoldable pub record_edge :
    ℕ → GraphEntityRef → GraphEntityRef → Option TemporalEdge → GraphState → GraphState
unfolding edge_key insert add_neighbor
record_edge time left right none s = add_neighbor right left (
    add_neighbor left right
      (record s { edges = insert (edge_key left right) (new_edge time) s.edges }))
record_edge time left right (some metadata) s = record s {
  edges = insert (edge_key left right) (seen_again time metadata) s.edges;
}

unfoldable pub observe_relationship : ℕ → Edge → GraphState → GraphState
unfolding record_edge lookup edge_key
observe_relationship time (left, right) s =
    record_edge time left right (lookup (edge_key left right) s.edges) s

unfoldable pub observe_relationships : ℕ → List Edge → GraphState → GraphState
unfolding observe_relationship
observe_relationships time [] s = s
observe_relationships time (e ∷ es) s =
    observe_relationships time es (observe_relationship time e s)

unfoldable pub observe : GraphTransaction → GraphState → GraphState
unfolding observe_entities observe_relationships
observe t s =
    let seen = observe_entities t.event_time (entities t) s in
    let linked = observe_relationships t.event_time (relationships t) seen in
    record linked { transactions = linked.transactions ++ (t ∷ []) }

unfoldable pub observe_many : List GraphTransaction → GraphState → GraphState
unfolding observe
observe_many [] s = s
observe_many (t ∷ ts) s = observe_many ts (observe t s)

-- `InMemoryGraphState(transactions)`
unfoldable pub graph_of : List GraphTransaction → GraphState
unfolding observe_many sort_by
graph_of ts =
    observe_many (sort_by (λ (a b : GraphTransaction). ltb a.event_time b.event_time) ts) no_graph

unfoldable pub has_node : GraphEntityRef → GraphState → Bool
unfolding has_key
has_node entity s = has_key entity s.node_first_seen

unfoldable pub has_edge : GraphEntityRef → GraphEntityRef → GraphState → Bool
unfolding edge_key has_key
has_edge left right s = has_key (edge_key left right) s.edges

-- `neighbors(entity, entity_type)`, with a type.
unfoldable pub neighbors : GraphEntityRef → GraphEntityType → GraphState → List GraphEntityRef
unfolding adjacent select
neighbors entity t s = select (λ (r : GraphEntityRef). r.entity_type == t) (adjacent entity s)
