-- ===== src/Node/Edges/Halves.antt =====
-- The parts of a list into which an element was inserted, in lists and in slots.
use btree_forest_arena.Prelude.{
  ℕ, zero, suc, ◌-◌, ◌≤◌, ◌<◌, ◌≡◌, refl, ◌∙◌, sym, ap, subst, inl, inr, false, Bool-cases, none,
  some, List, [], ◌∷◌, arith, length, insert_at, take, drop, get_elem?, get_elem?-take, ltb,
  contains, ◌==◌, if◌then◌else◌,
}
use mathlib.Core.Option.{some-injective}
use btree_forest_arena.Slots.{Slots, copied}
use btree_forest_arena.Slots.Holds.{Holds, copy_behind-Holds, write-eq-some}
use btree_forest_arena.Node.Edges.Renumber.{Distinct}
use btree_forest_arena.Node.Edges.Insert.{contains-drop}

module _ {A : Type 0} where
  pub take-insert_at :
      (i : ℕ) (v : A) (xs : List A) → i ≤ length xs → take i (insert_at i v xs) ≡ take i xs
  take-insert_at zero v xs le = refl
  take-insert_at (suc i) v [] le = absurd (omega arith)
  take-insert_at (suc i) v (x ∷ xs) le = ap (λ ys. x ∷ ys) (take-insert_at i v xs (omega arith))

  pub drop-insert_at :
      (i : ℕ) (v : A) (xs : List A) → i ≤ length xs → drop i (insert_at i v xs) ≡ v ∷ drop i xs
  drop-insert_at zero v xs le = refl
  drop-insert_at (suc i) v [] le = absurd (omega arith)
  drop-insert_at (suc i) v (x ∷ xs) le = drop-insert_at i v xs (omega arith)

  pub drop_past-insert_at :
      (i : ℕ) (v : A) (xs : List A) → i ≤ length xs → drop (suc i) (insert_at i v xs) ≡ drop i xs
  drop_past-insert_at zero v xs le = refl
  drop_past-insert_at (suc i) v [] le = absurd (omega arith)
  drop_past-insert_at (suc i) v (x ∷ xs) le = drop_past-insert_at i v xs (omega arith)

  pub get-insert_at :
      (i : ℕ) (v : A) (xs : List A) → i ≤ length xs → get_elem? (insert_at i v xs) i ≡ some v
  get-insert_at zero v xs le = refl
  get-insert_at (suc i) v [] le = absurd (omega arith)
  get-insert_at (suc i) v (x ∷ xs) le = get-insert_at i v xs (omega arith)

  -- The upper part of `f`, copied behind a first slot.
  pub behind-Holds :
      (f g : Slots A) (xs : List A) (m l : ℕ) (v : A)
      → Holds f xs
      → length xs ≡ l
      → Holds (λ j. if j == 0 then some v else copied g 1 f m (l - m) j) (v ∷ drop m xs)
  behind-Holds f g xs m l v h size =
      let (g', wrote, holds) = copy_behind-Holds 1 f g xs m v h (omega arith) in
      let F : Slots A = λ j. if j == 0 then some v else copied g 1 f m (length xs - m) j in
      let same : g' ≡ F =
        some-injective g' F
          (sym wrote ∙ write-eq-some 1 (copied g 1 f m (length xs - m)) 0 v (omega arith)) in
      subst (λ c. Holds (λ j. if j == 0 then some v else copied g 1 f m (c - m) j) (v ∷ drop m xs))
        size (subst (λ y. Holds y (v ∷ drop m xs)) same holds)

  pub get-take :
      (n : ℕ) (xs : List A) (i : ℕ) {x : A}
      → get_elem? (take n xs) i ≡ some x
      → (i < n) × (get_elem? xs i ≡ some x)
  get-take n xs i {x} at =
      let split : (if ltb i n then get_elem? xs i else none) ≡ some x =
        sym (get_elem?-take n xs i) ∙ at in
      elim (Bool-cases (ltb i n)) [
        | inl less ↦ (ground (arith, less), ground (arith, less, split))
        | inr more ↦ absurd (ground (arith, more, split))
      ]

pub Distinct-apart :
    (n : ℕ) (qs : List ℕ) (i : ℕ) {q : ℕ}
    → Distinct qs
    → get_elem? qs i ≡ some q
    → i < n
    → contains (drop n qs) q ≡ false
Distinct-apart zero qs i d at lt = absurd (omega (arith, lt))
Distinct-apart (suc n) [] i d at lt = refl
Distinct-apart (suc n) (x ∷ qs) zero {q} d at lt =
    let same : x ≡ q = cc in
    subst (λ y. contains (drop n qs) y ≡ false) same (contains-drop n qs x d.0)
Distinct-apart (suc n) (x ∷ qs) (suc i) d at lt = Distinct-apart n qs i d.1 at (omega (arith, lt))
