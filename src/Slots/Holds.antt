-- ===== src/Slots/Holds.antt =====
-- An array whose first slots are initialised, as the list of what they hold.
use btree_forest_arena.Prelude.{
  ℕ, zero, suc, ◌+◌, ◌-◌, ◌<◌, ◌≤◌, ◌≡◌, refl, sym, ◌∙◌, some, List, [], ◌∷◌, ◌++◌, arith, length,
  get_elem?, set, take, drop, insert_at, remove_at, ltb, ◌==◌, if◌then◌else◌, get_elem?-insert_at,
  get_elem?-remove_at, get_elem?-set, get_elem?-take, get_elem?-drop, get_elem?-append,
  get_elem?-some, length-insert_at, length-remove_at, length-set, length-append, lt→ltb, ltb→lt,
  ltb→le, Bool-cases, inl, inr, subst, length-take, length-drop,
}
use btree_forest_arena.Slots.Defs.{
  Slots, write, ◌to◌, up_to, copied, unsafe_copy_slice_overlapping,
  unsafe_copy_slice_nonoverlapping, assume_init_slice,
}

module _ {A : Type 0} where
  -- The slots from `start` on hold the elements of the list.
  abbrev pub HoldsFrom : Slots A → ℕ → List A → Type 0
  HoldsFrom f start xs = (i : ℕ) → i < length xs → f (start + i) ≡ get_elem? xs i

  abbrev pub Holds : Slots A → List A → Type 0
  Holds f xs = (i : ℕ) → i < length xs → f i ≡ get_elem? xs i

  pub write-eq-some :
      (size : ℕ) (f : Slots A) (i : ℕ) (a : A)
      → i < size
      → write size f i a ≡ some (λ j. if j == i then some a else f j)
  unfolding write
  write-eq-some size f i a h = rw (lt→ltb i size h)

  pub write-Holds :
      (size : ℕ) (f : Slots A) (xs : List A) (i : ℕ) (a : A)
      → Holds f xs
      → i < length xs
      → length xs ≤ size
      → (g : Slots A) × (write size f i a ≡ some g) × Holds g (set xs i a)
  unfolding write
  write-Holds size f xs i a h lt fits = (
    (λ j. if j == i then some a else f j),
    rw (lt→ltb i size (omega arith)),
    λ j k. ground (arith, get_elem?-set xs i a j, length-set xs i a, h j),
  )

  pub overlapping-copied :
      (size : ℕ) (f : Slots A) (a b c d : ℕ)
      → a ≤ b
      → c ≤ d
      → d - c ≡ b - a
      → b ≤ size
      → d ≤ size
      → unsafe_copy_slice_overlapping size f (a to b) (c to d) ≡ some (copied f a f c (d - c))
  unfolding unsafe_copy_slice_overlapping
  overlapping-copied size f a b c d ab cd same b_in d_in = ground arith

  pub overlapping_up_to-copied :
      (size : ℕ) (f : Slots A) (a b d : ℕ)
      → a ≤ b
      → d ≡ b - a
      → b ≤ size
      → d ≤ size
      → unsafe_copy_slice_overlapping size f (a to b) (up_to d) ≡ some (copied f a f 0 (d - 0))
  unfolding unsafe_copy_slice_overlapping
  overlapping_up_to-copied size f a b d ab same b_in d_in = ground arith

  pub nonoverlapping-copied :
      (size : ℕ) (f : Slots A) (a b : ℕ) (g : Slots A) (c d : ℕ)
      → a ≤ b
      → c ≤ d
      → d - c ≡ b - a
      → b ≤ size
      → d ≤ size
      → unsafe_copy_slice_nonoverlapping size f (a to b) g (c to d) ≡ some (copied f a g c (d - c))
  unfolding unsafe_copy_slice_nonoverlapping
  nonoverlapping-copied size f a b g c d ab cd same b_in d_in = ground arith

  -- The array after the later elements moved up one place and `v` was written into the gap.
  pub shift_up-Holds :
      (size : ℕ) (f : Slots A) (xs : List A) (i : ℕ) (v : A)
      → Holds f xs
      → i ≤ length xs
      → length xs < size
      → (g : Slots A) × (write size (copied f (i + 1) f i (length xs - i)) i v ≡ some g)
        × Holds g (insert_at i v xs)
  unfolding write copied
  shift_up-Holds size f xs i v h le fits = (
    λ j. if j == i then some v else copied f (i + 1) f i (length xs - i) j,
    rw (lt→ltb i size (omega arith)),
    λ j k. ground (
      arith,
      get_elem?-insert_at i v xs j,
      length-insert_at i v xs,
      h j,
      h (j - (i + 1) + i),
      h (j - 1),
    ),
  )

  -- The array after the elements behind index `i` moved down one place.
  pub shift_down-Holds :
      (f : Slots A) (xs : List A) (i : ℕ)
      → Holds f xs
      → i < length xs
      → Holds (copied f i f (i + 1) (length xs - (i + 1))) (remove_at i xs)
  unfolding copied
  shift_down-Holds f xs i h lt j k = ground (
    arith,
    get_elem?-remove_at i xs j,
    length-remove_at i xs lt,
    h j,
    h (j - i + (i + 1)),
    h (j + 1),
  )

module _ {A : Type 0} where
  pub read-Holds :
      (f : Slots A) (xs : List A) (i : ℕ)
      → Holds f xs
      → i < length xs
      → (a : A) × (f i ≡ some a) × (get_elem? xs i ≡ some a)
  read-Holds f xs i h lt = let (a, e) = get_elem?-some xs i lt in (a, h i lt ∙ e, e)

  pub slice-HoldsFrom :
      (f : Slots A) (start : ℕ) (xs : List A) (n : ℕ)
      → HoldsFrom f start xs
      → n ≡ length xs
      → assume_init_slice f start n ≡ some xs
  unfolding assume_init_slice
  slice-HoldsFrom f start [] zero h e = refl
  slice-HoldsFrom f start [] (suc n) h e = absurd (omega arith)
  slice-HoldsFrom f start (x ∷ xs) zero h e = absurd (omega arith)
  slice-HoldsFrom f start (x ∷ xs) (suc n) h e =
      let first : f start ≡ some x = subst (λ k. f k ≡ some x) (omega arith) (h 0 (omega arith)) in
      let rest : HoldsFrom f (suc start) xs =
        λ i lt. subst (λ k. f k ≡ get_elem? xs i) (omega arith) (h (suc i) (omega arith)) in
      rw (first, slice-HoldsFrom f (suc start) xs n rest (omega arith))

  pub slice-Holds :
      (f : Slots A) (xs : List A) (n : ℕ)
      → Holds f xs
      → n ≡ length xs
      → assume_init_slice f 0 n ≡ some xs
  slice-Holds f xs n h e =
      slice-HoldsFrom f 0 xs n (λ i lt. subst (λ k. f k ≡ get_elem? xs i) (omega arith) (h i lt)) e

  pub take-Holds : (f : Slots A) (xs : List A) (n : ℕ) → Holds f xs → Holds f (take n xs)
  take-Holds f xs n h i lt = ground (arith, get_elem?-take n xs i, length-take n xs, h i)

  -- The upper part of `f`, copied to the front of another array.
  pub copy_front-Holds :
      (f g : Slots A) (xs : List A) (m : ℕ)
      → Holds f xs
      → Holds (copied g 0 f m (length xs - m)) (drop m xs)
  unfolding copied
  copy_front-Holds f g xs m h i lt =
      ground (arith, get_elem?-drop m xs i, length-drop m xs, h (i - 0 + m), h (m + i))

  -- The upper part of `f`, copied behind a first slot that is then written.
  pub copy_behind-Holds :
      (size : ℕ) (f g : Slots A) (xs : List A) (m : ℕ) (v : A)
      → Holds f xs
      → 0 < size
      → (g' : Slots A) × (write size (copied g 1 f m (length xs - m)) 0 v ≡ some g')
        × Holds g' (v ∷ drop m xs)
  unfolding write copied
  copy_behind-Holds size f g xs m v h pos = (
    λ j. if j == 0 then some v else copied g 1 f m (length xs - m) j,
    rw (lt→ltb 0 size pos),
    elim [
      | zero ↦ λ lt. refl
      | suc i ↦ λ lt.
          ground
            (arith, get_elem?-drop m xs i, length-drop m xs, h (i + 1 - 1 + m), h (suc i - 1 + m))
    ],
  )

  -- The elements of `g` copied behind those of `f`.
  pub append-Holds :
      (f g : Slots A) (xs ys : List A) (n m : ℕ)
      → n ≡ length xs
      → m ≡ length ys
      → Holds f xs
      → Holds g ys
      → Holds (copied f n g 0 m) (xs ++ ys)
  unfolding copied
  append-Holds f g xs ys n m en em hf hg i lt = ground (
    arith,
    get_elem?-append xs ys i,
    length-append xs ys,
    hf i,
    hg (i - length xs),
    hg (i - length xs + 0),
  )

  -- The elements of `f` moved up to make room for those of `g` in front.
  pub prepend-Holds :
      (f g : Slots A) (xs ys : List A) (n m m' : ℕ)
      → n ≡ length xs
      → m ≡ length ys
      → m' ≡ length ys
      → Holds f xs
      → Holds g ys
      → Holds (copied (copied f m f 0 n) 0 g 0 m') (ys ++ xs)
  unfolding copied
  prepend-Holds f g xs ys n m m' en em em' hf hg i lt = ground (
    arith,
    get_elem?-append ys xs i,
    length-append ys xs,
    hg i,
    hg (i - 0 + 0),
    hf (i - length ys),
    hf (i - length ys + 0),
  )

module _ {A : Type 0} where
  -- The two halves of an insertion: the guarded move of the later elements, and the write.
  pub make_room :
      (size : ℕ) (f : Slots A) (xs : List A) (i n : ℕ) (v : A)
      → Holds f xs
      → n ≡ length xs
      → i ≤ n
      → n < size
      → (f' g : Slots A) × ((if ltb i n
            then unsafe_copy_slice_overlapping size f ((i + 1) to (n + 1)) (i to n)
            else some f)
          ≡ some f')
        × (write size f' i v ≡ some g)
        × Holds g (insert_at i v xs)
  make_room size f xs i n v h e le fits = elim (Bool-cases (ltb i n)) [
    | inl lt ↦
        let lt' : i < n = ltb→lt i n lt in
        let (g, wrote, holds) = shift_up-Holds size f xs i v h (omega arith) (omega arith) in
        (
          copied f (i + 1) f i (n - i),
          g,
          rw lt (
              overlapping-copied size f (i + 1) (n + 1) i n (omega arith) le (omega arith)
                (omega arith) (omega arith)),
          subst (λ t. write size (copied f (i + 1) f i (t - i)) i v ≡ some g) (sym e) wrote,
          holds,
        )
    | inr ge ↦
        let ge' : n ≤ i = ltb→le i n ge in
        (
          f,
          (λ j. if j == i then some v else f j),
          rw ge,
          write-eq-some size f i v (omega arith),
          λ j lt.
              ground
                (arith, get_elem?-insert_at i v xs j (omega arith), length-insert_at i v xs, h j),
        )
  ]

  -- The guarded move that closes the gap of a removed element.
  pub close_gap :
      (size : ℕ) (f : Slots A) (xs : List A) (i n : ℕ)
      → Holds f xs
      → n ≡ length xs
      → i < n
      → n ≤ size
      → (g : Slots A) × ((if ltb (i + 1) n
            then unsafe_copy_slice_overlapping size f (i to (n - 1)) ((i + 1) to n)
            else some f)
          ≡ some g)
        × Holds g (remove_at i xs)
  close_gap size f xs i n h e lt fits = elim (Bool-cases (ltb (i + 1) n)) [
    | inl more ↦
        let more' : i + 1 < n = ltb→lt (i + 1) n more in
        (
          copied f i f (i + 1) (n - (i + 1)),
          rw more (
              overlapping-copied size f i (n - 1) (i + 1) n (omega arith) (omega arith)
                (omega arith) (omega arith) fits),
          rw e (shift_down-Holds f xs i h (omega arith)),
        )
    | inr last ↦
        let last' : n ≤ i + 1 = ltb→le (i + 1) n last in
        (
          f,
          rw last,
          λ j lt'.
              ground (arith, get_elem?-remove_at i xs j, length-remove_at i xs (omega arith), h j),
        )
  ]
