-- ===== src/Common/Ascending/Bisect.antt =====
-- `bisect_left` on an ascending list, and the prefix that it cuts off.
use aegis_ai_risk_manager.Common.{
  ℕ, zero, suc, ◌+◌, ◌/◌, ◌≤◌, ◌<◌, ◌≡◌, refl, inl, inr, Bool, Bool-cases, List, [], ◌∷◌, arith,
  if◌then◌else◌, length, select, count_of, map, ltb,
}
use aegis_ai_risk_manager.Common.Sort.{take}
use aegis_ai_risk_manager.Common.Ascending.{
  NotBefore, NotBefore-weaken, IsAscending, before, none_before, take-before,
}

-- `xs[i]`, for an index in range.
unfoldable pub nth : List ℕ → ℕ → ℕ
nth [] i = 0
nth (x ∷ xs) zero = x
nth (x ∷ xs) (suc i) = nth xs i

-- The loop of `bisect_left(xs, n)` over `lo` and `hi`.
unfoldable pub bisect_loop : ℕ → List ℕ → ℕ → ℕ → ℕ → ℕ
unfolding nth
bisect_loop zero xs n lo hi = lo
bisect_loop (suc fuel) xs n lo hi =
    let mid = (lo + hi) / 2 in
    let right = ltb (nth xs mid) n in
    let rest = bisect_loop fuel xs n (if right then mid + 1 else lo) (if right then hi else mid) in
    if ltb lo hi then rest else lo

unfoldable pub bisect_left : List ℕ → ℕ → ℕ
unfolding bisect_loop
bisect_left xs n = bisect_loop (length xs) xs n 0 (length xs)

abbrev itself : ℕ → ℕ
itself n = n

nth-before :
    (n : ℕ) (xs : List ℕ) (i : ℕ)
    → IsAscending itself xs
    → i < length xs
    → ltb (nth xs i) n ≡ ltb i (count_of (before itself n) xs)
unfolding nth count_of
nth-before n [] i h inside = absurd (omega arith)
nth-before n (x ∷ xs) zero h inside =
    ground (arith, none_before itself n xs, NotBefore-weaken itself n x xs)
nth-before n (x ∷ xs) (suc i) h inside =
    ground (arith, nth-before n xs i, none_before itself n xs, NotBefore-weaken itself n x xs)

bisect_loop_lem :
    (fuel : ℕ) (xs : List ℕ) (n lo hi : ℕ)
    → IsAscending itself xs
    → lo ≤ count_of (before itself n) xs
    → count_of (before itself n) xs ≤ hi
    → hi ≤ length xs
    → hi ≤ lo + fuel
    → bisect_loop fuel xs n lo hi ≡ count_of (before itself n) xs
unfolding bisect_loop
bisect_loop_lem zero xs n lo hi h from to size enough = omega arith
bisect_loop_lem (suc fuel) xs n lo hi h from to size enough =
    let mid = (lo + hi) / 2 in
    elim (Bool-cases (ltb lo hi)) [
      | inl more ↦
          let inside : mid < hi = ground (arith, more) in
          let at_mid = nth-before n xs mid h (omega arith) in
          elim (Bool-cases (ltb (nth xs mid) n)) [
            | inl right ↦
                rw (more, right)
                  (bisect_loop_lem fuel xs n (mid + 1) hi h (ground arith) to size (omega arith))
            | inr left ↦
                rw (more, left)
                  (bisect_loop_lem fuel xs n lo mid h from (ground arith) (omega arith)
                    (omega arith))
          ]
      | inr done ↦ rw done (ground arith)
    ]

count_of-le : {A : Type 0} (p : A → Bool) (xs : List A) → count_of p xs ≤ length xs
unfolding count_of
count_of-le p [] = omega arith
count_of-le p (x ∷ xs) = ground (arith, count_of-le p xs)

-- On an ascending list the search returns the number of elements before the given one.
bisect_left_lem :
    (xs : List ℕ) (n : ℕ) → IsAscending itself xs → bisect_left xs n ≡ count_of (before itself n) xs
unfolding bisect_left
bisect_left_lem xs n h =
    bisect_loop_lem (length xs) xs n 0 (length xs) h (omega arith)
      (count_of-le (before itself n) xs) (omega arith) (omega arith)

module _ {A : Type 0} (key : A → ℕ) where
  NotBefore-map : (n : ℕ) (xs : List A) → NotBefore key n xs → NotBefore itself n (map key xs)
  NotBefore-map n [] b = tt
  NotBefore-map n (x ∷ xs) b = (b.0, NotBefore-map n xs b.1)

  IsAscending-map : (xs : List A) → IsAscending key xs → IsAscending itself (map key xs)
  IsAscending-map [] h = tt
  IsAscending-map (x ∷ xs) h = (NotBefore-map (key x) xs h.0, IsAscending-map xs h.1)

  count_of_keys :
      (n : ℕ) (xs : List A) → count_of (before itself n) (map key xs) ≡ count_of (before key n) xs
  unfolding count_of
  count_of_keys n [] = refl
  count_of_keys n (x ∷ xs) = ground (arith, count_of_keys n xs)

  -- `xs[: bisect_left([key(x) for x in xs], n)]`
  unfoldable pub cut : ℕ → List A → List A
  unfolding bisect_left
  cut n xs = take (bisect_left (map key xs) n) xs

  pub cut_lem : (n : ℕ) (xs : List A) → IsAscending key xs → cut n xs ≡ select (before key n) xs
  unfolding cut
  cut_lem n xs h =
      rw (bisect_left_lem (map key xs) n (IsAscending-map xs h), count_of_keys n xs)
        (take-before key n xs h)
