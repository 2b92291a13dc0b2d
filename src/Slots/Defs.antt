-- ===== src/Slots/Defs.antt =====
-- `maybe_uninit_array` of src/utils.rs, the two copying helpers of src/node.rs, and reads of ranges.
use btree_forest_arena.Prelude.{
  ℕ, zero, suc, ◌+◌, ◌-◌, ◌&&◌, Option, none, some, List, [], ◌∷◌, ltb, leb, ◌==◌, if◌then◌else◌,
  check, ◌>>=◌, ◌>>◌,
}

-- `[MaybeUninit<A>; size]`: the slot at each index. An operation that writes is given `size`.
abbrev pub Slots : Type 0 → Type 0
Slots A = ℕ → Option A

unfoldable pub maybe_uninit_array : {A : Type 0} → Slots A
maybe_uninit_array i = none

-- `slots[i].write(a)`, with the bounds check of the index.
unfoldable pub write : {A : Type 0} → ℕ → Slots A → ℕ → A → Option (Slots A)
write size f i a = do check (ltb i size); some (λ j. if j == i then some a else f j)

-- `std::ops::Bound`.
pub data Bound (A : Type 0) : Type 0 where
  included : A → Bound A
  excluded : A → Bound A
  unbounded : Bound A

-- `impl RangeBounds`: its start bound and its end bound.
pub record RangeBounds (A : Type 0) : Type 0 where
  pub start_bound : Bound A
  pub end_bound : Bound A

-- `a..b` and `..b`.
infix 60 ◌to◌
abbrev pub ◌to◌ : ℕ → ℕ → RangeBounds ℕ
a to b = record { start_bound = included a; end_bound = excluded b }

abbrev pub up_to : ℕ → RangeBounds ℕ
up_to b = record { start_bound = unbounded; end_bound = excluded b }

abbrev pub start_of : Bound ℕ → ℕ
start_of (included n) = n
start_of (excluded n) = n + 1
start_of unbounded = 0

abbrev pub end_of : ℕ → Bound ℕ → ℕ
end_of size (included n) = n + 1
end_of size (excluded n) = n
end_of size unbounded = size

module _ {A : Type 0} where
  -- What `n` slots from index `dst` on hold after `ptr::copy` from index `src` of `from`.
  unfoldable pub copied : Slots A → ℕ → Slots A → ℕ → ℕ → Slots A
  copied data' dst from src n i =
      if leb dst i && ltb i (dst + n) then from (i - dst + src) else data' i

  -- The subtractions of the two lengths, the `debug_assert` that they agree, and the extent of the
  -- array that `ptr::copy` may touch.
  unfoldable pub unsafe_copy_slice_overlapping :
      ℕ → Slots A → RangeBounds ℕ → RangeBounds ℕ → Option (Slots A)
  unfolding copied
  unsafe_copy_slice_overlapping size slots dst src = do
    let src_start = start_of src.start_bound
    let src_end = end_of size src.end_bound
    let dst_start = start_of dst.start_bound
    let dst_end = end_of size dst.end_bound
    check (leb src_start src_end)
    check (leb dst_start dst_end)
    check (src_end - src_start == dst_end - dst_start)
    check (leb src_end size && leb dst_end size)
    some (copied slots dst_start slots src_start (src_end - src_start))

  -- `&mut dst[d_start..d_end]` and `&src[s_start..s_end]`, both sliced with bounds checks.
  unfoldable pub unsafe_copy_slice_nonoverlapping :
      ℕ → Slots A → RangeBounds ℕ → Slots A → RangeBounds ℕ → Option (Slots A)
  unfolding copied
  unsafe_copy_slice_nonoverlapping size dst d src s = do
    let src_start = start_of s.start_bound
    let src_end = end_of size s.end_bound
    let dst_start = start_of d.start_bound
    let dst_end = end_of size d.end_bound
    check (leb src_start src_end && leb src_end size)
    check (leb dst_start dst_end && leb dst_end size)
    check (dst_end - dst_start == src_end - src_start)
    some (copied dst dst_start src src_start (src_end - src_start))

  -- `&slots[start..start + n]` as a slice of initialised values.
  unfoldable pub assume_init_slice : Slots A → ℕ → ℕ → Option (List A)
  assume_init_slice f start zero = some []
  assume_init_slice f start (suc n) = do
    a ← f start
    rest ← assume_init_slice f (suc start) n
    some (a ∷ rest)
