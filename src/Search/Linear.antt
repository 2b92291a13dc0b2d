-- ===== src/Search/Linear.antt =====
-- Binary search finds what a scan from the left finds, where the probe goes from `lt` over at most one
-- `eq` to `gt`.
use Prim.Native.Nat.{Ordering}
use Prim.Native.Nat.Ordering.{lt, eq, gt}
use btree_forest_arena.Prelude.{
  ℕ, zero, suc, ◌+◌, ◌-◌, ◌/◌, ◌≤◌, ◌<◌, ◌≡◌, refl, ◌⊎◌, inl, inr, Bool-cases, some, List, [], ◌∷◌,
  arith, length, get_elem?, get_elem?-some, ltb, ltb→lt, ltb→le, All, All-get_elem?, get_elem?-none,
  ◌==◌, ==→≡, ==→≢, ◌≢◌, ap,
}
use btree_forest_arena.Prelude.Order.{Ordering-cases}
use btree_forest_arena.Search.{Found, ok, err, search_loop, binary_search_by}

abbrev pub shift : Found → Found
shift (ok i) = ok (suc i)
shift (err i) = err (suc i)

module _ {A : Type 0} (f : A → Ordering) where
  -- The first element that is not below, and whether it is the one sought.
  abbrev pub scan : List A → Found
  scan [] = err 0
  scan (x ∷ xs) = elim (f x) [ lt ↦ shift (scan xs) | eq ↦ ok 0 | gt ↦ err 0 ]

  -- Behind an element that is not below, all are above.
  abbrev pub IsProbe : List A → Type 0
  IsProbe [] = Unit
  IsProbe (x ∷ xs) = ((f x ≡ lt) ⊎ All (λ y. f y ≡ gt) xs) × IsProbe xs

  before_lt :
      (xs : List A) (j m : ℕ) (a b : A)
      → IsProbe xs
      → j < m
      → get_elem? xs j ≡ some a
      → get_elem? xs m ≡ some b
      → (f b ≡ lt) ⊎ (f b ≡ eq)
      → f a ≡ lt
  before_lt [] j m a b h lt' ga gb o = cc
  before_lt (x ∷ xs) j zero a b h lt' ga gb o = absurd (omega arith)
  before_lt (x ∷ xs) zero (suc m) a b (inl below, h) lt' ga gb o = cc
  before_lt (x ∷ xs) zero (suc m) a b (inr above, h) lt' ga gb o =
      ground (arith, All-get_elem? (λ y. f y ≡ gt) xs m above gb)
  before_lt (x ∷ xs) (suc j) (suc m) a b (_, h) lt' ga gb o =
      before_lt xs j m a b h (omega arith) ga gb o

  after_gt :
      (xs : List A) (j m : ℕ) (a b : A)
      → IsProbe xs
      → j < m
      → get_elem? xs j ≡ some a
      → get_elem? xs m ≡ some b
      → (f a ≡ gt) ⊎ (f a ≡ eq)
      → f b ≡ gt
  after_gt [] j m a b h lt' ga gb o = cc
  after_gt (x ∷ xs) j zero a b h lt' ga gb o = absurd (omega arith)
  after_gt (x ∷ xs) zero (suc m) a b (inl below, h) lt' ga gb o = ground arith
  after_gt (x ∷ xs) zero (suc m) a b (inr above, h) lt' ga gb o =
      All-get_elem? (λ y. f y ≡ gt) xs m above gb
  after_gt (x ∷ xs) (suc j) (suc m) a b (_, h) lt' ga gb o =
      after_gt xs j m a b h (omega arith) ga gb o

  abbrev AllBelow : List A → ℕ → Type 0
  AllBelow xs i = (j : ℕ) (a : A) → j < i → get_elem? xs j ≡ some a → f a ≡ lt

  abbrev AllAbove : List A → ℕ → Type 0
  AllAbove xs i = (j : ℕ) (a : A) → i ≤ j → get_elem? xs j ≡ some a → f a ≡ gt

  scan_ok :
      (xs : List A) (i : ℕ) (b : A)
      → AllBelow xs i
      → get_elem? xs i ≡ some b
      → f b ≡ eq
      → scan xs ≡ ok i
  scan_ok [] i b below g e = cc
  scan_ok (x ∷ xs) zero b below g e = ground arith
  scan_ok (x ∷ xs) (suc i) b below g e =
      let first : f x ≡ lt = below 0 x (omega arith) refl in
      let rest = scan_ok xs i b (λ j a l. below (suc j) a (omega arith)) g e in ground arith

  scan_err : (xs : List A) (i : ℕ) → AllBelow xs i → AllAbove xs i → i ≤ length xs → scan xs ≡ err i
  scan_err [] zero below above le = refl
  scan_err [] (suc i) below above le = absurd (omega arith)
  scan_err (x ∷ xs) zero below above le =
      let first : f x ≡ gt = above 0 x (omega arith) refl in ground arith
  scan_err (x ∷ xs) (suc i) below above le =
      let first : f x ≡ lt = below 0 x (omega arith) refl in
      let rest =
        scan_err xs i (λ j a l. below (suc j) a (omega arith))
          (λ j a l. above (suc j) a (omega arith)) (omega arith) in
      ground arith

  below_through :
      (xs : List A) (m : ℕ) (a : A)
      → IsProbe xs
      → get_elem? xs m ≡ some a
      → f a ≡ lt
      → AllBelow xs (m + 1)
  below_through xs m a probe at low j b l g = elim (Bool-cases (j == m)) [
    | inl same ↦ let same' : j ≡ m = ==→≡ j m same in cc (ap (get_elem? xs) same')
    | inr other ↦
        let other' : j ≢ m = ==→≢ j m other in
        before_lt xs j m b a probe (omega arith) g at (inl low)
  ]

  above_from :
      (xs : List A) (m : ℕ) (a : A)
      → IsProbe xs
      → get_elem? xs m ≡ some a
      → f a ≡ gt
      → AllAbove xs m
  above_from xs m a probe at high j b l g = elim (Bool-cases (j == m)) [
    | inl same ↦ let same' : j ≡ m = ==→≡ j m same in cc (ap (get_elem? xs) same')
    | inr other ↦
        let other' : j ≢ m = ==→≢ j m other in
        after_gt xs m j a b probe (omega arith) at g (inl high)
  ]

  search_loop-eq-scan :
      (xs : List A) (fuel left right : ℕ)
      → IsProbe xs
      → AllBelow xs left
      → AllAbove xs right
      → left ≤ right
      → right ≤ length xs
      → right - left ≤ fuel
      → search_loop f xs fuel left right ≡ some (scan xs)
  unfolding search_loop
  search_loop-eq-scan xs zero left right probe below above le fits enough =
      let same : left ≡ right = omega arith in
      let done = scan_err xs left below (λ j a l. above j a (omega arith)) (omega arith) in
      ground arith
  search_loop-eq-scan xs (suc fuel) left right probe below above le fits enough =
      elim (Bool-cases (ltb left right)) [
        | inr ended ↦
            let ended' : right ≤ left = ltb→le left right ended in
            rw (ended, scan_err xs left below (λ j a l. above j a (omega arith)) (omega arith))
        | inl more ↦
            let more' : left < right = ltb→lt left right more in
            let mid = left + (right - left) / 2 in
            let (a, at) = get_elem?-some xs mid (omega arith) in
            rw (more, at)
              (elim (Ordering-cases (f a)) [
                | inl low ↦ rw low (
                    search_loop-eq-scan xs fuel (mid + 1) right probe
                      (below_through xs mid a probe at low) above (omega arith) fits (omega arith))
                | inr (inl same) ↦ rw (
                  same,
                  scan_ok xs mid a (λ j b l g. before_lt xs j mid b a probe l g at (inr same)) at
                      same,
                )
                | inr (inr high) ↦ rw high (
                    search_loop-eq-scan xs fuel left mid probe below
                      (above_from xs mid a probe at high) (omega arith) (omega arith) (omega arith))
              ])
      ]

  pub binary_search_by-eq-scan : (xs : List A) → IsProbe xs → binary_search_by f xs ≡ some (scan xs)
  unfolding binary_search_by
  binary_search_by-eq-scan xs probe =
      search_loop-eq-scan xs (length xs) 0 (length xs) probe (λ j a l. absurd (omega arith))
        (λ j a l g. absurd (past xs j a l g)) (omega arith) (omega arith) (omega arith)
    where
      past : (ys : List A) (j : ℕ) (a : A) → length ys ≤ j → get_elem? ys j ≡ some a → ⊥
      past ys j a le g = ground (arith, get_elem?-none ys j le)
