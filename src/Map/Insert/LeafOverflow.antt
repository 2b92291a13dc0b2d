-- ===== src/Map/Insert/LeafOverflow.antt =====
-- A full leaf becomes two leaves, and `insert_before` comes to its loop.
use btree_forest_arena.Prelude.{
  ℕ, ◌+◌, ◌<◌, ◌≡◌, refl, sym, ap, subst, inl, inr, true, Option, some, List, [], ◌∷◌, ◌++◌, map,
  arith, length, length-take, length-drop, take, drop, contains, ==→≡, ==_refl, ◌==◌, All,
}
use btree_forest_arena.Prelude.Order.{Ord, ◌≺◌, ◌≼◌}
use btree_forest_arena.Store.{NodePtr, Slab}
use btree_forest_arena.Node.{Node, max_keys}
use btree_forest_arena.Node.View.{key_of}
use btree_forest_arena.Node.Edges.Renumber.{contains-cons}
use btree_forest_arena.Tree.Halves.{take-drop}
use btree_forest_arena.Tree.Order.{IsSorted}
use btree_forest_arena.Tree.Repr.{LeafAt}
use btree_forest_arena.Tree.Alike.{HasParent-Same}
use btree_forest_arena.Tree.Cut.{Cut}
use btree_forest_arena.Map.Defs.{BTreeMap}
use btree_forest_arena.Map.Insert.{insert_up}
use btree_forest_arena.Map.Insert.Grow.{Overflow}
use btree_forest_arena.Map.Insert.SplitLeaf.{LeafSplit}

module _ {K V : Type 0} ⦃o : Ord K⦄ where
  -- Two runs that are sorted when one stands behind the other.
  record Halves (xs ys : List (K × V)) : Type 0 where
    pub first_half : IsSorted (map key_of xs)
    pub second_half : IsSorted (map key_of ys)
    pub below : (e : K × V) (rest : List (K × V)) → ys ≡ e ∷ rest → All (λ x. x.0 ≺ e.0) xs

  head_above :
      (k : K) (xs ys : List (K × V)) (e : K × V) (rest : List (K × V))
      → ys ≡ e ∷ rest
      → All (λ y. k ≺ y) (map key_of (xs ++ ys))
      → k ≺ e.0
  head_above k [] ys e rest is h =
      let split = subst (λ zs. All (λ y. k ≺ y) (map key_of zs)) is h in split.0
  head_above k (x ∷ xs) ys e rest is h = head_above k xs ys e rest is h.1

  before_above :
      (k : K) (xs ys : List (K × V))
      → All (λ y. k ≺ y) (map key_of (xs ++ ys))
      → All (λ y. k ≺ y) (map key_of xs)
  before_above k [] ys h = tt
  before_above k (x ∷ xs) ys h = (h.0, before_above k xs ys h.1)

  IsSorted-Halves : (xs ys : List (K × V)) → IsSorted (map key_of (xs ++ ys)) → Halves xs ys
  IsSorted-Halves [] ys h = record { first_half = tt; second_half = h; below = λ e rest is. tt }
  IsSorted-Halves (x ∷ xs) ys h =
      let r = IsSorted-Halves xs ys h.1 in
      record {
        first_half = (before_above x.0 xs ys h.0, r.first_half);
        second_half = r.second_half;
        below = λ e rest is. (head_above x.0 xs ys e rest is h.0, r.below e rest is);
      }

  not_less : (k : K) (es : List (K × V)) → All (λ y. k ≺ y) (map key_of es) → All (λ e. k ≼ e.0) es
  not_less k [] h = tt
  not_less k (e ∷ es) h = (inl h.0, not_less k es h.1)

  Halves-Cut :
      (xs ys rest : List (K × V)) (k : K) (v : V)
      → 0 < length xs
      → ys ≡ (k, v) ∷ rest
      → Halves xs ys
      → Cut k xs ys
  Halves-Cut xs ys rest k v some_low is h = record {
    low = h.below (k, v) rest is;
    high =
        let sorted = subst (λ zs. IsSorted (map key_of zs)) is h.second_half in
        subst (All (λ e. k ≼ e.0)) (sym is) (inr (o.eq_self k), not_less k rest sorted.0);
    some_low = some_low;
    some_high = omega (arith, ap length is);
  }

module _ {S K V : Type 0} ⦃o : Ord K⦄ (store : Slab S (Node K V)) where
  pub LeafSplit-Overflow :
      (s : S) (m : BTreeMap) (up : Option (NodePtr × ℕ)) (p : NodePtr) (old es : List (K × V))
      (a : LeafAt store s up p old) (r : Option (BTreeMap × S))
      → length es ≡ max_keys + 1
      → IsSorted (map key_of es)
      → (x : LeafSplit store s m p a.n es a.prev a.next r)
      → Overflow store m.height m s 0 up
          (p, old)
          es
          (insert_up store (m.height + 1) m p x.right x.key x.s')
  LeafSplit-Overflow s m up p old es a r size sorted x =
      let halves =
        IsSorted-Halves (take 4 es) (drop 4 es)
          (subst (λ xs. IsSorted (map key_of xs)) (sym (take-drop 4 es)) sorted) in
      let new : (q : NodePtr) (n : Node K V)
          → store.deref q s ≡ some n
          → (q == x.right) ≡ true
          → ⊥ =
        λ q n live same.
          let here : store.deref x.right s ≡ some n =
            subst (λ z. store.deref z s ≡ some n) (==→≡ q x.right same) live in
          cc (here, x.fresh) in
      record {
        fuel = m.height;
        s' = x.s';
        t₁ = (p, take 4 es);
        t₂ = (x.right, drop 4 es);
        k = x.key;
        fuel_left = omega arith;
        runs = ap (λ f. insert_up store f m p x.right x.key x.s') (omega arith);
        same_addr = refl;
        apart = λ same. new p a.n a.live (rw same (==_refl x.right));
        left = record {
          n = x.ln;
          prev = a.prev;
          next = some x.right;
          live = x.live_left;
          leaf = x.left_leaf;
          has_parent = HasParent-Same a.n x.ln up x.same_parent a.has_parent;
        };
        right = record {
          n = x.rn;
          prev = some p;
          next = a.next;
          live = x.live_right;
          leaf = x.right_leaf;
          has_parent = x.no_parent;
        };
        left_ordered = halves.first_half;
        right_ordered = halves.second_half;
        left_filled = omega (arith, length-take 4 es, size);
        right_filled = omega (arith, length-drop 4 es, size);
        cut =
            Halves-Cut (take 4 es) (drop 4 es) x.rest x.key x.value
              (omega (arith, length-take 4 es, size)) x.first halves;
        joined = take-drop 4 es;
        others = λ q out. x.others q (contains-cons q p [] out).0;
        left_within = λ q n live has. has;
        right_within = λ q n live has. absurd (new q n live (contains-one q x.right has));
      }
    where
      contains-one : (q p : ℕ) → contains (p ∷ []) q ≡ true → (q == p) ≡ true
      contains-one q p has = ground (arith, has)
