-- ===== src/Features/Offline/Laws.antt =====
-- Replaying group by group gives what the provider of all transactions gives at once.
use aegis_ai_risk_manager.Common.{
  ◌≡◌, refl, ap, ◌∙◌, inl, inr, Bool-cases, List, [], ◌∷◌, ◌++◌, All, ◌==◌, nat_eq, arith,
}
use aegis_ai_risk_manager.Common.Ascending.{IsAscending, NotBefore}
use aegis_ai_risk_manager.Features.Domain.{FeatureTransaction}
use aegis_ai_risk_manager.Features.Engine.{Records, time_of}
use aegis_ai_risk_manager.Features.Offline.{join_group, groups_by_time}

abbrev pub flatten : List Records → Records
flatten [] = []
flatten (g ∷ gs) = g ++ flatten gs

flatten-join_group :
    (t : FeatureTransaction) (gs : List Records) → flatten (join_group t gs) ≡ t ∷ flatten gs
unfolding join_group
flatten-join_group t [] = refl
flatten-join_group t ([] ∷ gs) = refl
flatten-join_group t ((u ∷ g) ∷ gs) = ground arith

pub flatten-groups_by_time : (ts : Records) → flatten (groups_by_time ts) ≡ ts
unfolding groups_by_time
flatten-groups_by_time [] = refl
flatten-groups_by_time (t ∷ ts) =
    flatten-join_group t (groups_by_time ts) ∙ ap (◌∷◌ t) (flatten-groups_by_time ts)

-- No transaction of a group or of a later group is earlier than one of the group.
abbrev pub IsGrouped : List Records → Type 0
IsGrouped [] = Unit
IsGrouped (g ∷ gs) = All (λ t. NotBefore time_of (time_of t) (g ++ flatten gs)) g × IsGrouped gs

raise_group :
    (t u : FeatureTransaction) (xs rest : Records)
    → time_of t ≡ time_of u
    → All (λ y. NotBefore time_of (time_of y) (u ∷ rest)) xs
    → All (λ y. NotBefore time_of (time_of y) (t ∷ u ∷ rest)) xs
raise_group t u [] rest e k = tt
raise_group t u (y ∷ xs) rest e k =
    ((let first = k.0.0 in omega arith, k.0), raise_group t u xs rest e k.1)

join_group-IsGrouped :
    (t : FeatureTransaction) (gs : List Records)
    → NotBefore time_of (time_of t) (flatten gs)
    → IsGrouped gs
    → IsGrouped (join_group t gs)
unfolding join_group
join_group-IsGrouped t [] h k = (((omega arith, h), tt), k)
join_group-IsGrouped t ([] ∷ gs) h k = (((omega arith, h), tt), k.1)
join_group-IsGrouped t ((u ∷ g) ∷ gs) h k = elim (Bool-cases (time_of t == time_of u)) [
  | inl same ↦ rw same (
    ((omega arith, h), raise_group t u (u ∷ g) (g ++ flatten gs) (ground (arith, same)) k.0),
    k.1,
  )
  | inr other ↦ rw other (((omega arith, h), tt), k)
]

pub groups_by_time-IsGrouped :
    (ts : Records) → IsAscending time_of ts → IsGrouped (groups_by_time ts)
unfolding groups_by_time
groups_by_time-IsGrouped [] h = tt
groups_by_time-IsGrouped (t ∷ ts) h =
    join_group-IsGrouped t (groups_by_time ts) (rw (flatten-groups_by_time ts) h.0)
      (groups_by_time-IsGrouped ts h.1)
