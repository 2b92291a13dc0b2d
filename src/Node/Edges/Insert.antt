-- ===== src/Node/Edges/Insert.antt =====
-- `insert_edge` on the keys and the edges of an internal node.
use btree_forest_arena.Prelude.{
  ℕ, zero, suc, ◌+◌, ◌-◌, ◌≤◌, ◌<◌, ◌≡◌, refl, ◌∙◌, sym, ap, subst, Bool, true, false, Option, some,
  List, [], ◌∷◌, arith, length, get_elem?, drop, insert_at, length-insert_at, length-drop,
  get_elem?-drop, get_elem?-insert_at, contains, ltb, ◌==◌, if◌then◌else◌, lt→ltb, le→leb, ==_refl,
  ne→==,
}
use mathlib.Core.Option.{some-injective}
use btree_forest_arena.Slots.{Slots, write, assume_init_slice, ◌to◌, unsafe_copy_slice_overlapping}
use btree_forest_arena.Slots.Holds.{write-eq-some, Holds, HoldsFrom, make_room, slice-HoldsFrom}
use btree_forest_arena.Store.{NodePtr, Slab}
use btree_forest_arena.Store.Access.{as_ref-live, as_mut-live}
use btree_forest_arena.Node.Defs.{
  Node, max_keys, internal_data, internal_of, parent_idx, InternalData,
}
use btree_forest_arena.Node.View.{IsInternal, SameParent}
use btree_forest_arena.Node.Edges.{insert_edge, assert_parent_idx, map_parent_idxs}
use btree_forest_arena.Node.Edges.Renumber.{
  Distinct, contains-get, map_parent_idxs-Touched, deref-other, deref_self,
}

module _ {A : Type 0} where
  write-other :
      (size : ℕ) (f g : Slots A) (i : ℕ) (a : A) (j : ℕ)
      → write size f i a ≡ some g
      → i < size
      → i < j
      → f j ≡ g j
  write-other size f g i a j wrote lt more =
      let F : Slots A = λ k. if k == i then some a else f k in
      let same : F ≡ g = some-injective F g (sym (write-eq-some size f i a lt) ∙ wrote) in
      let at_j : (if j == i then some a else f j) ≡ g j = ap (λ h. h j) same in
      let here : (j == i) ≡ false = ne→== j i (λ e. omega (arith, e)) in ground (arith, at_j, here)

-- What the slots behind the gap hold before the write.
shifted-HoldsFrom :
    {A : Type 0} (size : ℕ) (f g : Slots A) (xs : List A) (i : ℕ) (a : A)
    → write size f i a ≡ some g
    → Holds g (insert_at i a xs)
    → i < size
    → i ≤ length xs
    → HoldsFrom f (i + 1) (drop i xs)
shifted-HoldsFrom size f g xs i a wrote holds lt le j within =
    write-other size f g i a (i + 1 + j) wrote lt (omega arith)
    ∙ holds (i + 1 + j) (omega (arith, length-insert_at i a xs, length-drop i xs))
    ∙ (ground (
      arith,
      get_elem?-insert_at i a xs (i + 1 + j) le,
      get_elem?-drop i xs j,
      ap (get_elem? xs) {x = i + 1 + j - 1} {y = i + j} (omega arith),
    ))

pub contains-drop :
    (n : ℕ) (ps : List ℕ) (p : ℕ) → contains ps p ≡ false → contains (drop n ps) p ≡ false
contains-drop zero ps p h = h
contains-drop (suc n) [] p h = refl
contains-drop (suc n) (q ∷ ps) p h = contains-drop n ps p (ground (arith))

pub Distinct-drop : (n : ℕ) (ps : List ℕ) → Distinct ps → Distinct (drop n ps)
Distinct-drop zero ps h = h
Distinct-drop (suc n) [] h = tt
Distinct-drop (suc n) (q ∷ ps) h = Distinct-drop n ps h.1

module _ {S K V : Type 0} (store : Slab S (Node K V)) where
  pub assert_parent_idx-live :
      {s : S} {e p : NodePtr} {n : Node K V} {i : ℕ}
      → store.deref e s ≡ some n
      → n.parent ≡ some p
      → n.parent_idx ≡ some i
      → assert_parent_idx store e i s ≡ some (tt, s)
  unfolding assert_parent_idx parent_idx
  assert_parent_idx-live {i = i} live has index =
      rw (as_ref-live store live, has, index) (ground (arith, ==_refl i))

  -- The children stand at their places below the node at `p`, each at one place, and `p` is none of them.
  pub record Children (s : S) (p : NodePtr) (ps : List NodePtr) : Type 0 where
    pub distinct : Distinct ps
    pub no_loop : contains ps p ≡ false
    pub numbered :
        (j : ℕ) (q : NodePtr)
        → get_elem? ps j ≡ some q
        → (n : Node K V) × (store.deref q s ≡ some n) × (n.parent_idx ≡ some j)

  -- The new edge stands at place `a`, and the children from there on have moved up one place.
  pub record EdgeInserted (s : S) (p : NodePtr) (n : Node K V) (ks : List K) (ps : List NodePtr)
      (idx a : ℕ) (k : K) (e : NodePtr) (r : Option (Unit {0} × S)) : Type 0 where
    pub s' : S
    pub n' : Node K V
    pub runs : r ≡ some (tt, s')
    pub live : store.deref p s' ≡ some n'
    pub internal : IsInternal n' (insert_at idx k ks) (insert_at a e ps)
    pub same_parent : SameParent n n'
    pub moved :
        (j : ℕ) (q : NodePtr) (m : Node K V)
        → get_elem? (drop a ps) j ≡ some q
        → store.deref q s ≡ some m
        → store.deref q s' ≡ some (record m { parent_idx = some (a + j + 1) })
    pub others :
        (q : NodePtr)
        → (q ≡ p → ⊥)
        → contains (drop a ps) q ≡ false
        → store.deref q s' ≡ store.deref q s

  insert_edge-runs :
      (s s₁ : S) (p e : NodePtr) (n m : Node K V) (d : InternalData) (kf kg : Slots K)
      (ef eg : Slots NodePtr) (later : List NodePtr) (idx : ℕ) (after : Bool) (a : ℕ) (k : K)
      → (if after then idx + 1 else idx) ≡ a
      → store.deref p s ≡ some n
      → n.d ≡ internal_data d
      → idx ≤ n.len
      → n.len < max_keys
      → store.deref e s ≡ some m
      → m.parent ≡ some p
      → m.parent_idx ≡ some a
      → (if ltb idx n.len
          then unsafe_copy_slice_overlapping max_keys n.keys
              ((idx + 1) to (n.len + 1))
              (idx to n.len)
          else some n.keys)
        ≡ some kf
      → (if ltb a (n.len + 1)
          then unsafe_copy_slice_overlapping
              (max_keys + 1)
              d.edges
              ((a + 1) to (n.len + 2))
              (a to (n.len + 1))
          else some d.edges)
        ≡ some ef
      → assume_init_slice ef (a + 1) (n.len + 1 - a) ≡ some later
      → map_parent_idxs store (λ j. some (j + 1)) later s ≡ some (tt, s₁)
      → write max_keys kf idx k ≡ some kg
      → write (max_keys + 1) ef a e ≡ some eg
      → store.deref p s₁ ≡ some n
      → insert_edge store p idx after k e s
        ≡ some (
          tt,
          store.assign p
              (record n { len = n.len + 1; keys = kg; d = internal_data (record d { edges = eg }) })
              s₁,
        )
  unfolding insert_edge internal_of
  insert_edge-runs s s₁ p e n m d kf kg ef eg later idx after a k choice live is le room live' has
        index k_move e_move slice runs k_write e_write still =
      rw
        (
          choice,
          as_ref-live store live,
          le→leb idx n.len le,
          lt→ltb n.len max_keys room,
          assert_parent_idx-live live' has index,
          is,
          k_move,
          e_move,
          slice,
          runs,
          k_write,
          e_write,
        )
        (as_mut-live store _ still)

  pub insert_edge-EdgeInserted :
      (s : S) (p e : NodePtr) (n m : Node K V) (ks : List K) (ps : List NodePtr) (idx : ℕ)
      (after : Bool) (a : ℕ) (k : K)
      → (if after then idx + 1 else idx) ≡ a
      → a ≤ length ks + 1
      → store.deref p s ≡ some n
      → IsInternal n ks ps
      → length ks < max_keys
      → idx ≤ length ks
      → Children s p ps
      → store.deref e s ≡ some m
      → m.parent ≡ some p
      → m.parent_idx ≡ some a
      → EdgeInserted s p n ks ps idx a k e (insert_edge store p idx after k e s)
  unfolding insert_edge internal_of
  insert_edge-EdgeInserted s p e n m ks ps idx after a k choice reach live i room le children live'
        has index =
      let (kf, kg, k_move, k_write, k_holds) =
        make_room max_keys n.keys ks idx n.len k i.has_keys i.count (omega (arith, i.count))
          (omega (arith, i.count)) in
      let (ef, eg, e_move, e_write, e_holds) =
        make_room (max_keys + 1) i.i.edges ps a (n.len + 1) e i.has_edges
          (omega (arith, i.count, i.branches)) (omega (arith, i.count)) (omega (arith, i.count)) in
      let later = drop a ps in
      let size : n.len + 1 - a ≡ length later =
        omega (arith, i.count, i.branches, length-drop a ps) in
      let n' : Node K V = record n {
        len = n.len + 1;
        keys = kg;
        d = internal_data (record i.i { edges = eg });
      } in
      let t =
        map_parent_idxs-Touched store s later a (Distinct-drop a ps children.distinct)
          (λ j q at. children.numbered (a + j) q (sym (get_elem?-drop a ps j) ∙ at)) in
      let still : store.deref p t.s' ≡ some n =
        t.others p (contains-drop a ps p children.no_loop) ∙ live in
      record {
        s' = store.assign p n' t.s';
        n' = n';
        runs =
            insert_edge-runs s t.s' p e n m i.i kf kg ef eg later idx after a k choice live
              i.is_internal (omega (arith, i.count)) (omega (arith, i.count)) live' has index k_move
              (subst
                (λ z.
                  (if ltb a (n.len + 1)
                    then unsafe_copy_slice_overlapping (max_keys + 1) i.i.edges ((a + 1) to z)
                        (a to (n.len + 1))
                    else some i.i.edges)
                  ≡ some ef)
                {x = n.len + 1 + 1} {y = n.len + 2} (omega arith) e_move)
              (slice-HoldsFrom ef (a + 1) later (n.len + 1 - a)
                (shifted-HoldsFrom (max_keys + 1) ef eg ps a e e_write e_holds
                  (omega (arith, i.count, i.branches)) (omega (arith, i.branches)))
                size)
              t.runs k_write e_write still;
        live = deref_self store n' still;
        internal = record {
          i = record i.i { edges = eg };
          is_internal = refl;
          count = omega (arith, i.count, length-insert_at idx k ks);
          fits = omega (arith, length-insert_at idx k ks);
          branches = omega (arith, i.branches, length-insert_at idx k ks, length-insert_at a e ps);
          has_keys = k_holds;
          has_edges = e_holds;
        };
        same_parent = record { parent = refl; parent_idx = refl };
        moved = λ j q m' at is.
            deref-other store q n' still (λ same.
              let in_later : contains later p ≡ true =
                subst (λ x. contains later x ≡ true) same (contains-get later j at) in
              let out : contains later p ≡ false = contains-drop a ps p children.no_loop in cc)
            ∙ t.moved j q m' at is;
        others = λ q apart out. deref-other store q n' still apart ∙ t.others q out;
      }
