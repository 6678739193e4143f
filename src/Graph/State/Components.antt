-- ===== src/Graph/State/Components.antt =====
-- packages/graph_engine/state.py: the connected components. The search takes one entity from its
-- queue in each round and queues an entity only when it is new, so that the number of entities
-- bounds the rounds; that number is its fuel. The hash of `fingerprint` is a parameter.
use aegis_ai_risk_manager.Common.{
  ℕ, zero, suc, ◌≡◌, ◌↔◌, Eq, ◌==◌, arith, Bool, true, false, not, ◌&&◌, ◌<>◌, String, List, [],
  ◌∷◌, ◌++◌, map, length, select, if◌then◌else◌,
}
use aegis_ai_risk_manager.Common.Sets.{
  contains, set_insert_by, sorted_set_by, from_keys, unique_from,
}
use aegis_ai_risk_manager.Common.TextOrder.{str_lt}
use aegis_ai_risk_manager.Common.Sort.{sort_by}
use aegis_ai_risk_manager.Graph.Domain.{
  GraphEntityRef, ref_eq, ref_lt, GraphTransaction, entities, canonical,
}
use aegis_ai_risk_manager.Graph.State.{Edge, TemporalEdge, GraphState, adjacent, has_node}

-- `for neighbor in self.adjacency[current] - seen`, on the queue and the seen entities.
abbrev pub unseen : List GraphEntityRef → List GraphEntityRef → List GraphEntityRef
unseen neighbors seen = select (λ r. not (contains seen r)) neighbors

unfoldable pub add_all : List GraphEntityRef → List GraphEntityRef → List GraphEntityRef
unfolding set_insert_by ref_lt
add_all [] seen = seen
add_all (r ∷ rs) seen = add_all rs (set_insert_by ref_lt r seen)

unfoldable pub search :
    ℕ → GraphState → List GraphEntityRef → List GraphEntityRef → List GraphEntityRef
unfolding adjacent add_all select contains
search fuel s [] seen = seen
search zero s (current ∷ queue) seen = seen
search (suc fuel) s (current ∷ queue) seen =
    let found = unseen (adjacent current s) seen in
    search fuel s (queue ++ found) (add_all found seen)

unfoldable pub component : GraphState → GraphEntityRef → List GraphEntityRef
unfolding has_node search
component s start =
    let reached = search (length s.node_first_seen) s (start ∷ []) (start ∷ []) in
    if has_node start s then reached else []

-- Sets of entities are equal when their sorted members are.
abbrev pub members_beq : List GraphEntityRef → List GraphEntityRef → Bool
members_beq [] [] = true
members_beq [] (y ∷ ys) = false
members_beq (x ∷ xs) [] = false
members_beq (x ∷ xs) (y ∷ ys) = (x == y) && members_beq xs ys

pub members_beq_iff : (xs ys : List GraphEntityRef) → (members_beq xs ys ≡ true) ↔ (xs ≡ ys)
members_beq_iff [] [] = ground arith
members_beq_iff [] (y ∷ ys) = ground arith
members_beq_iff (x ∷ xs) [] = ground arith
members_beq_iff (x ∷ xs) (y ∷ ys) = ground (arith, ref_eq.beq_iff x y, members_beq_iff xs ys)

instance abbrev pub members_eq : Eq (List GraphEntityRef)
members_eq = record { beq = members_beq; beq_iff = members_beq_iff }

-- `key=lambda value: sorted(value)[0]`
unfoldable pub first_lt : List GraphEntityRef → List GraphEntityRef → Bool
unfolding ref_lt
first_lt [] ys = false
first_lt (x ∷ xs) [] = false
first_lt (x ∷ xs) (y ∷ ys) = ref_lt x y

abbrev pub is_component : List GraphEntityRef → Bool
is_component [] = false
is_component (x ∷ xs) = true

unfoldable pub touched_components : GraphState → GraphTransaction → List (List GraphEntityRef)
unfolding component first_lt select unique_from sort_by
touched_components s t =
    sort_by first_lt (from_keys (select is_component (map (component s) (entities t))))

unfoldable pub component_edges : GraphState → List GraphEntityRef → List (Edge × TemporalEdge)
unfolding contains select
component_edges s members =
    select (λ (e : Edge × TemporalEdge). contains members e.0.0 && contains members e.0.1) s.edges

-- `all_components`: the smallest remaining entity starts the next component. Each round takes at
-- least that entity away, so the number of entities bounds the rounds.
unfoldable pub split_components : ℕ → GraphState → List GraphEntityRef → List (List GraphEntityRef)
unfolding component select contains
split_components fuel s [] = []
split_components zero s (r ∷ remaining) = []
split_components (suc fuel) s (r ∷ remaining) =
    let members = component s r in
    members ∷ split_components fuel s (select (λ x. not (contains members x)) (r ∷ remaining))

unfoldable pub all_components : GraphState → List (List GraphEntityRef)
unfolding split_components sorted_set_by ref_lt
all_components s =
    split_components (length s.node_first_seen) s
      (sorted_set_by ref_lt (map (λ (n : GraphEntityRef × ℕ). n.0) s.node_first_seen))

-- `"|".join(...)`
unfoldable pub join_bars : List String → String
join_bars [] = ""
join_bars (x ∷ []) = x
join_bars (x ∷ y ∷ xs) = x <> ("|" <> join_bars (y ∷ xs))

unfoldable pub fingerprint : (String → String) → List GraphEntityRef → String
unfolding join_bars sort_by
fingerprint hash members = hash (join_bars (sort_by str_lt (map canonical members)))
