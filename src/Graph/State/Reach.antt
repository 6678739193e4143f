-- ===== src/Graph/State/Reach.antt =====
-- packages/graph_engine/state.py: `component` finds what its start is connected to. The queue and
-- the entities that are not seen yet bound the rounds.
use aegis_ai_risk_manager.Common.{
  ℕ, zero, suc, ◌+◌, ◌≤◌, ◌≡◌, refl, inl, inr, true, false, Bool-cases, not, ◌||◌, ◌&&◌, subst,
  List, [], ◌∷◌, ◌++◌, arith, if◌then◌else◌, length, length-append,
}
use aegis_ai_risk_manager.Common.Dict.{has_key}
use aegis_ai_risk_manager.Common.Sets.{contains, set_insert_by}
use aegis_ai_risk_manager.Common.Sets.Laws.{
  IsSorted, contains-set_insert, set_insert-IsSorted, lt_of_contains,
}
use aegis_ai_risk_manager.Common.Sets.Filter.{contains-select, contains-append, select-IsSorted}
use aegis_ai_risk_manager.Graph.Domain.{GraphEntityRef, ref_eq, ref_lt}
use aegis_ai_risk_manager.Graph.Domain.Order.{ref_lt_irrefl, ref_ord}
use aegis_ai_risk_manager.Graph.State.{GraphState, adjacent, has_node}
use aegis_ai_risk_manager.Graph.State.Nodes.{IsNoded}
use aegis_ai_risk_manager.Graph.State.Components.{unseen, add_all, search}

-- The walks from an entity to its neighbors, and on to theirs.
pub data Reach (s : GraphState) (start : GraphEntityRef) : GraphEntityRef → Type 0 where
  here : Reach s start start
  step :
      {a b : GraphEntityRef} → Reach s start a → contains (adjacent a s) b ≡ true → Reach s start b

contains-add_all :
    (rs seen : List GraphEntityRef) (a : GraphEntityRef)
    → contains (add_all rs seen) a ≡ (contains rs a || contains seen a)
unfolding add_all contains
contains-add_all [] seen a = refl
contains-add_all (r ∷ rs) seen a =
    ground
      (arith, contains-add_all rs (set_insert_by ref_lt r seen) a, contains-set_insert r seen a)

add_all-IsSorted : (rs seen : List GraphEntityRef) → IsSorted seen → IsSorted (add_all rs seen)
unfolding add_all
add_all-IsSorted [] seen h = h
add_all-IsSorted (r ∷ rs) seen h =
    add_all-IsSorted rs (set_insert_by ref_lt r seen) (set_insert-IsSorted r seen h)

-- How many nodes are not seen yet.
unfoldable pub left : List (GraphEntityRef × ℕ) → List GraphEntityRef → ℕ
unfolding contains
left [] seen = 0
left ((k, t) ∷ d) seen = (if contains seen k then 0 else 1) + left d seen

pub left-le : (d : List (GraphEntityRef × ℕ)) (seen : List GraphEntityRef) → left d seen ≤ length d
unfolding left
left-le [] seen = omega arith
left-le ((k, t) ∷ d) seen = ground (arith, left-le d seen)

left_mono :
    (d : List (GraphEntityRef × ℕ)) (r : GraphEntityRef) (seen : List GraphEntityRef)
    → left d (set_insert_by ref_lt r seen) ≤ left d seen
unfolding left
left_mono [] r seen = omega arith
left_mono ((k, t) ∷ d) r seen = ground (arith, left_mono d r seen, contains-set_insert r seen k)

pub left-set_insert :
    (d : List (GraphEntityRef × ℕ)) (r : GraphEntityRef) (seen : List GraphEntityRef)
    → has_key r d ≡ true
    → contains seen r ≡ false
    → suc (left d (set_insert_by ref_lt r seen)) ≤ left d seen
unfolding left has_key
left-set_insert [] r seen known new = cc
left-set_insert ((k, t) ∷ d) r seen known new = ground (
  arith,
  left-set_insert d r seen,
  left_mono d r seen,
  contains-set_insert r seen k,
  ref_eq.beq_iff k r,
  ref_eq.beq_iff r k,
)

left-add_all :
    (d : List (GraphEntityRef × ℕ)) (rs seen : List GraphEntityRef)
    → IsSorted rs
    → ((a : GraphEntityRef) → contains rs a ≡ true → has_key a d ≡ true)
    → ((a : GraphEntityRef) → contains rs a ≡ true → contains seen a ≡ false)
    → length rs + left d (add_all rs seen) ≤ left d seen
unfolding add_all contains
left-add_all d [] seen s known new = omega arith
left-add_all d (r ∷ rs) seen (below, s) known new =
    let same = (ref_eq.beq_iff r r).1 refl in
    omega (
      arith,
      left-set_insert d r seen (known r (rw same refl)) (new r (rw same refl)),
      left-add_all d rs (set_insert_by ref_lt r seen) s (λ a m. known a (rw m (ground arith)))
          (λ a m. ground (
            arith,
            contains-set_insert r seen a,
            new a,
            m,
            ref_eq.beq_iff r a,
            lt_of_contains r a rs below,
            ref_lt_irrefl r,
          )),
    )

module _ (s : GraphState) (start : GraphEntityRef) where
  -- What holds before each round of the search.
  pub record Inv (queue seen : List GraphEntityRef) : Type 0 where
    pub sorted : IsSorted seen
    pub source : contains seen start ≡ true
    pub queued : (a : GraphEntityRef) → contains queue a ≡ true → contains seen a ≡ true
    pub sound : (a : GraphEntityRef) → contains seen a ≡ true → Reach s start a
    pub closed :
        (a b : GraphEntityRef)
        → contains seen a ≡ true
        → contains (adjacent a s) b ≡ true
        → (contains queue a || contains seen b) ≡ true

  pub Inv-start : Inv (start ∷ []) (start ∷ [])
  unfolding contains
  Inv-start = record {
    sorted = (tt, tt);
    source = ground (arith, ref_eq.beq_iff start start);
    queued = λ a m. m;
    sound = λ a m.
        let same : start ≡ a = ground (arith, ref_eq.beq_iff start a) in
        subst (Reach s start) same here;
    closed = λ a b m n. ground arith;
  }

  module _ (current : GraphEntityRef) (queue seen : List GraphEntityRef)
      (h : Inv (current ∷ queue) seen) where
    abbrev found : List GraphEntityRef
    found = unseen (adjacent current s) seen

    contains-found :
        (a : GraphEntityRef)
        → contains found a ≡ (contains (adjacent current s) a && not (contains seen a))
    contains-found a = contains-select (λ r. not (contains seen r)) (adjacent current s) a

    to_current : Reach s start current
    unfolding contains
    to_current = h.sound current (h.queued current (ground (arith, ref_eq.beq_iff current current)))

    Inv-round : Inv (queue ++ found) (add_all found seen)
    unfolding contains
    Inv-round = record {
      sorted = add_all-IsSorted found seen h.sorted;
      source = ground (arith, contains-add_all found seen start, h.source);
      queued = λ a m.
          ground (arith, contains-add_all found seen a, contains-append queue found a, h.queued a);
      sound = λ a m. elim (Bool-cases (contains seen a)) [
        | inl old ↦ h.sound a old
        | inr new ↦
            step to_current (ground (arith, contains-add_all found seen a, contains-found a))
      ];
      closed = λ a b m n. ground (
        arith,
        contains-add_all found seen a,
        contains-add_all found seen b,
        contains-append queue found a,
        contains-found b,
        h.closed a b,
        ref_eq.beq_iff current a,
      );
    }

    left-round :
        IsNoded s
        → length found + left s.node_first_seen (add_all found seen) ≤ left s.node_first_seen seen
    unfolding has_node
    left-round k =
        left-add_all s.node_first_seen found seen
          (select-IsSorted (λ r. not (contains seen r)) (adjacent current s) (k.sorted current))
          (λ a m. k.nodes current a (ground (arith, contains-found a)))
          (λ a m. ground (arith, contains-found a))

  -- With a round for each queued or unseen entity, the search ends with an empty queue.
  pub search_lem :
      (fuel : ℕ) (queue seen : List GraphEntityRef)
      → IsNoded s
      → length queue + left s.node_first_seen seen ≤ fuel
      → Inv queue seen
      → Inv [] (search fuel s queue seen)
  unfolding search
  search_lem fuel [] seen k enough h = h
  search_lem zero (current ∷ queue) seen k enough h = absurd (omega arith)
  search_lem (suc fuel) (current ∷ queue) seen k enough h =
      search_lem fuel (queue ++ found current queue seen h)
        (add_all (found current queue seen h) seen) k
        (omega (
          arith,
          length-append queue (found current queue seen h),
          left-round current queue seen h k,
        ))
        (Inv-round current queue seen h)

  pub complete :
      (seen : List GraphEntityRef) (a : GraphEntityRef)
      → Inv [] seen
      → Reach s start a
      → contains seen a ≡ true
  unfolding contains
  complete seen a h here = h.source
  complete seen b h (step {a} p n) = ground (arith, h.closed a b (complete seen a h p) n)
