-- ===== src/Graph/State/Split.antt =====
-- packages/graph_engine/state.py: `all_components` splits the nodes into their components.
use mathlib.Core.Bool.{false≢true}
use mathlib.Core.Path.{fun_ext}
use aegis_ai_risk_manager.Common.Sets.Size.{length-sorted_set-le}
use aegis_ai_risk_manager.Common.{
  ℕ, zero, suc, ◌≤◌, ◌≡◌, refl, sym, ◌∙◌, inl, inr, Bool, true, false, Bool-cases, not, ◌&&◌, subst,
  List, [], ◌∷◌, arith, length, length-select-le, length-map, select, All, map,
}
use aegis_ai_risk_manager.Common.Dict.{has_key}
use aegis_ai_risk_manager.Common.Members.{◌∈◌, All-map}
use aegis_ai_risk_manager.Common.Sets.{contains, sorted_set_by}
use aegis_ai_risk_manager.Common.Sets.Laws.{contains-sorted_set}
use aegis_ai_risk_manager.Common.Sets.Filter.{contains-select}
use aegis_ai_risk_manager.Graph.Domain.{GraphEntityRef, ref_eq, ref_lt, GraphTransaction}
use aegis_ai_risk_manager.Graph.Domain.Order.{ref_ord}
use aegis_ai_risk_manager.Graph.State.{GraphState, has_node, graph_of}
use aegis_ai_risk_manager.Graph.State.Components.{component, split_components, all_components}
use aegis_ai_risk_manager.Graph.State.Nodes.{graph_of-IsNoded}
use aegis_ai_risk_manager.Graph.State.Partition.{
  component-Inv, component-same, graph_of-component, member-has_node,
}

abbrev pub AreApart : List GraphEntityRef → List GraphEntityRef → Type 0
AreApart xs ys = (a : GraphEntityRef) → contains xs a ≡ true → contains ys a ≡ false

abbrev pub AllApart : List (List GraphEntityRef) → Type 0
AllApart [] = Unit
AllApart (c ∷ cs) = All (AreApart c) cs × AllApart cs

abbrev pub IsMade : GraphState → (GraphEntityRef → Bool) → List GraphEntityRef → Type 0
IsMade s given c = (r : GraphEntityRef) × (given r ≡ true) × (c ≡ component s r)

-- Each of the sets is the component of one of the given entities, each of these entities has its
-- component among them, and no two of them share an entity.
pub record IsSplit (s : GraphState) (given : GraphEntityRef → Bool)
    (cs : List (List GraphEntityRef)) : Type 0 where
  pub made : All (IsMade s given) cs
  pub covers : (a : GraphEntityRef) → given a ≡ true → component s a ∈ cs
  pub apart : AllApart cs

module _ (ts : List GraphTransaction) where
  -- The given entities are nodes, and with an entity its whole component is given.
  record IsClosed (given : List GraphEntityRef) : Type 0 where
    nodes : (a : GraphEntityRef) → contains given a ≡ true → has_node a (graph_of ts) ≡ true
    whole :
        (a b : GraphEntityRef)
        → contains given a ≡ true
        → contains (component (graph_of ts) a) b ≡ true
        → contains given b ≡ true

  own_component :
      (a : GraphEntityRef)
      → has_node a (graph_of ts) ≡ true
      → contains (component (graph_of ts) a) a ≡ true
  own_component a node = (component-Inv (graph_of ts) a (graph_of-IsNoded ts) node).source

  module _ (r : GraphEntityRef) (remaining : List GraphEntityRef)
      (h : IsClosed (r ∷ remaining)) where
    abbrev others : List GraphEntityRef
    others = select (λ x. not (contains (component (graph_of ts) r) x)) (r ∷ remaining)

    contains-others :
        (a : GraphEntityRef)
        → contains others a
          ≡ (contains (r ∷ remaining) a && not (contains (component (graph_of ts) r) a))
    contains-others a =
        contains-select (λ x. not (contains (component (graph_of ts) r) x)) (r ∷ remaining) a

    first_given : contains (r ∷ remaining) r ≡ true
    unfolding contains
    first_given = rw ((ref_eq.beq_iff r r).1 refl) refl

    -- A member of the component of another entity that is left is left too.
    stays :
        (a b : GraphEntityRef)
        → contains others a ≡ true
        → contains (component (graph_of ts) a) b ≡ true
        → contains (component (graph_of ts) r) b ≡ false
    stays a b m n = elim (Bool-cases (contains (component (graph_of ts) r) b)) [
      | inl both ↦
          let same = sym (component-same ts r b both) ∙ component-same ts a b n in
          let given : contains (r ∷ remaining) a ≡ true = ground (arith, contains-others a) in
          let own = own_component a (h.nodes a given) in
          let in_first : contains (component (graph_of ts) r) a ≡ true = rw same own in
          ground (arith, contains-others a)
      | inr only ↦ only
    ]

    others-IsClosed : IsClosed others
    others-IsClosed = record {
      nodes = λ a m. h.nodes a (ground (arith, contains-others a));
      whole =
          λ a b m n. ground (arith, contains-others a, contains-others b, h.whole a b, stays a b);
    }

    -- The first entity is in its own component, so fewer entities are left.
    others-lt : length others ≤ length remaining
    unfolding select
    others-lt =
        rw (own_component r (h.nodes r first_given))
          (length-select-le (λ x. not (contains (component (graph_of ts) r) x)) remaining)

    apart_from_first :
        (c : List GraphEntityRef)
        → IsMade (graph_of ts) (contains others) c
        → AreApart (component (graph_of ts) r) c
    apart_from_first c (x, m, e) b n = elim (Bool-cases (contains (component (graph_of ts) x) b)) [
      | inl both ↦ absurd (false≢true (sym (stays x b m both) ∙ n))
      | inr only ↦ rw e only
    ]

    IsMade-others :
        (c : List GraphEntityRef)
        → IsMade (graph_of ts) (contains others) c
        → IsMade (graph_of ts) (contains (r ∷ remaining)) c
    IsMade-others c (x, m, e) = (x, ground (arith, contains-others x), e)

  split_components-IsSplit :
      (fuel : ℕ) (given : List GraphEntityRef)
      → length given ≤ fuel
      → IsClosed given
      → IsSplit (graph_of ts) (contains given) (split_components fuel (graph_of ts) given)
  unfolding split_components contains
  split_components-IsSplit fuel [] enough h = record {
    made = tt;
    covers = λ a m. ground arith;
    apart = tt;
  }
  split_components-IsSplit zero (r ∷ remaining) enough h = absurd (omega arith)
  split_components-IsSplit (suc fuel) (r ∷ remaining) enough h =
      let left = others r remaining h in
      let cs = split_components fuel (graph_of ts) left in
      let rest =
        split_components-IsSplit fuel left (omega (arith, others-lt r remaining h))
          (others-IsClosed r remaining h) in
      record {
        made = (
          (r, first_given r remaining h, refl),
          All-map (IsMade (graph_of ts) (contains left))
              (IsMade (graph_of ts) (contains (r ∷ remaining))) cs (IsMade-others r remaining h)
              rest.made,
        );
        covers = λ a m. elim (Bool-cases (contains (component (graph_of ts) r) a)) [
          | inl first ↦ inl (sym (component-same ts r a first))
          | inr later ↦ inr (rest.covers a (ground (arith, contains-others r remaining h a)))
        ];
        apart = (
          All-map (IsMade (graph_of ts) (contains left)) (AreApart (component (graph_of ts) r)) cs
              (apart_from_first r remaining h) rest.made,
          rest.apart,
        );
      }

contains-keys :
    (d : List (GraphEntityRef × ℕ)) (a : GraphEntityRef)
    → contains (map (λ (n : GraphEntityRef × ℕ). n.0) d) a ≡ has_key a d
unfolding contains has_key
contains-keys [] a = refl
contains-keys ((k, t) ∷ d) a = ground (arith, contains-keys d a)

-- The nodes, smallest first.
unfoldable pub node_set : GraphState → List GraphEntityRef
unfolding sorted_set_by ref_lt
node_set s = sorted_set_by ref_lt (map (λ (n : GraphEntityRef × ℕ). n.0) s.node_first_seen)

contains-node_set : (s : GraphState) (a : GraphEntityRef) → contains (node_set s) a ≡ has_node a s
unfolding node_set has_node
contains-node_set s a =
    contains-sorted_set (map (λ (n : GraphEntityRef × ℕ). n.0) s.node_first_seen) a
    ∙ contains-keys s.node_first_seen a

length-node_set : (s : GraphState) → length (node_set s) ≤ length s.node_first_seen
unfolding node_set
length-node_set s = omega (
  arith,
  length-sorted_set-le (map (λ (n : GraphEntityRef × ℕ). n.0) s.node_first_seen),
  length-map (λ (n : GraphEntityRef × ℕ). n.0) s.node_first_seen,
)

-- The sets that `all_components` lists are the components of the nodes: each is the component of a
-- node, each node has its component among them, and no two of them share an entity.
pub all_components-IsSplit :
    (ts : List GraphTransaction)
    → IsSplit (graph_of ts) (λ a. has_node a (graph_of ts)) (all_components (graph_of ts))
unfolding all_components node_set
all_components-IsSplit ts =
    let g = graph_of ts in
    let split =
      split_components-IsSplit ts (length g.node_first_seen) (node_set g) (length-node_set g)
        record {
          nodes = λ a m. sym (contains-node_set g a) ∙ m;
          whole = λ a b m n.
              let p = (graph_of-component ts a b).0 n in
              contains-node_set g b ∙ member-has_node ts a b p.0 p.1;
        } in
    subst (λ given. IsSplit g given (all_components g)) (fun_ext (contains-node_set g)) split
