-- ===== src/Graph/State/Partition.antt =====
-- packages/graph_engine/state.py: the components of a graph built from transactions are the classes
-- of its nodes, each found from any of its members, and `all_components` lists each class once.
use aegis_ai_risk_manager.Common.{
  ℕ, suc, ◌≤◌, ◌≡◌, refl, sym, ◌∙◌, ◌↔◌, inl, inr, true, Bool-cases, List, [], ◌∷◌, arith, length,
}
use aegis_ai_risk_manager.Common.Dict.{has_key}
use aegis_ai_risk_manager.Common.Sets.{contains, set_insert_by}
use aegis_ai_risk_manager.Common.Sets.Laws.{IsSorted-ext}
use aegis_ai_risk_manager.Graph.Domain.{GraphEntityRef, ref_eq, GraphTransaction}
use aegis_ai_risk_manager.Graph.Domain.Order.{ref_ord}
use aegis_ai_risk_manager.Graph.State.{GraphState, has_node, graph_of}
use aegis_ai_risk_manager.Graph.State.Edges.{graph_of-linked}
use aegis_ai_risk_manager.Graph.State.Nodes.{IsNoded, graph_of-IsNoded}
use aegis_ai_risk_manager.Graph.State.Components.{component}
use aegis_ai_risk_manager.Graph.State.Reach.{
  Reach, here, step, Inv, Inv-start, search_lem, complete, left, left-le, left-set_insert,
}

-- One round for each node is enough.
left-start :
    (d : List (GraphEntityRef × ℕ)) (start : GraphEntityRef)
    → has_key start d ≡ true
    → suc (left d (start ∷ [])) ≤ length d
unfolding set_insert_by contains
left-start d start h = omega (arith, left-le d [], left-set_insert d start [] h refl)

pub component-Inv :
    (s : GraphState) (start : GraphEntityRef)
    → IsNoded s
    → has_node start s ≡ true
    → Inv s start [] (component s start)
unfolding component has_node
component-Inv s start k node = rw node (
    search_lem s start (length s.node_first_seen) (start ∷ []) (start ∷ []) k
      (omega (arith, left-start s.node_first_seen start node)) (Inv-start s start))

pub start-has_node :
    (s : GraphState) (start a : GraphEntityRef)
    → contains (component s start) a ≡ true
    → has_node start s ≡ true
unfolding component contains
start-has_node s start a m = elim (Bool-cases (has_node start s)) [
  | inl node ↦ node
  | inr no_node ↦ ground (arith, no_node, m)
]

pub component-Reach :
    (s : GraphState) (start a : GraphEntityRef)
    → IsNoded s
    → (contains (component s start) a ≡ true) ↔ ((has_node start s ≡ true) × Reach s start a)
component-Reach s start a k = (
  λ m. let node = start-has_node s start a m in (node, (component-Inv s start k node).sound a m),
  λ (node, p). complete s start (component s start) a (component-Inv s start k node) p,
)

-- The component of an entity has exactly the entities that a walk along edges leads to, and an
-- entity that was never observed has none.
pub graph_of-component :
    (ts : List GraphTransaction) (start a : GraphEntityRef)
    → (contains (component (graph_of ts) start) a ≡ true)
      ↔ ((has_node start (graph_of ts) ≡ true) × Reach (graph_of ts) start a)
graph_of-component ts start a = component-Reach (graph_of ts) start a (graph_of-IsNoded ts)

Reach-trans : (s : GraphState) (a b c : GraphEntityRef) → Reach s b c → Reach s a b → Reach s a c
Reach-trans s a b c here p = p
Reach-trans s a b c (step {a = x} q n) p = step (Reach-trans s a b x q p) n

module _ (ts : List GraphTransaction) where
  Reach-sym : (a b : GraphEntityRef) → Reach (graph_of ts) a b → Reach (graph_of ts) b a
  Reach-sym a b here = here
  Reach-sym a b (step {a = x} p n) =
      Reach-trans (graph_of ts) b x a (Reach-sym a x p)
        (step here (sym (graph_of-linked ts x b).1 ∙ n))

  pub member-has_node :
      (a b : GraphEntityRef)
      → has_node a (graph_of ts) ≡ true
      → Reach (graph_of ts) a b
      → has_node b (graph_of ts) ≡ true
  member-has_node a b node here = node
  member-has_node a b node (step {a = x} p n) = (graph_of-IsNoded ts).nodes x b n

  same_members :
      (a b c : GraphEntityRef)
      → contains (component (graph_of ts) a) b ≡ true
      → contains (component (graph_of ts) b) c ≡ contains (component (graph_of ts) a) c
  same_members a b c m =
      let from_a = (graph_of-component ts a b).0 m in
      let node = member-has_node a b from_a.0 from_a.1 in
      ground (
        arith,
        (graph_of-component ts a c).0,
        (graph_of-component ts b c).0,
        λ (p : Reach (graph_of ts) a c).
            (graph_of-component ts b c).1
              (node, Reach-trans (graph_of ts) b a c p (Reach-sym a b from_a.1)),
        λ (p : Reach (graph_of ts) b c).
            (graph_of-component ts a c).1 (from_a.0, Reach-trans (graph_of ts) a b c p from_a.1),
      )

  -- The component of any member of a component is that component, as the same sorted list.
  pub component-same :
      (a b : GraphEntityRef)
      → contains (component (graph_of ts) a) b ≡ true
      → component (graph_of ts) b ≡ component (graph_of ts) a
  component-same a b m =
      let from_a = (graph_of-component ts a b).0 m in
      let node = member-has_node a b from_a.0 from_a.1 in
      let k = graph_of-IsNoded ts in
      IsSorted-ext (component (graph_of ts) b) (component (graph_of ts) a)
        (component-Inv (graph_of ts) b k node).sorted
        (component-Inv (graph_of ts) a k from_a.0).sorted (λ c. same_members a b c m)
