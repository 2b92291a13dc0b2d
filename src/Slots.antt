-- ===== src/Slots.antt =====
-- Arrays of `MaybeUninit` slots, with the helpers of src/utils.rs and src/node.rs that copy ranges of
-- them. A slot that holds `none` is not initialised. What the source leaves undefined, or answers by
-- a panic, is a fault: `none` in place of a result.
mod Defs
pub mod Holds
pub use Defs.{Bound, included, excluded, unbounded, RangeBounds}
unfoldable pub use Defs.{
  Slots, maybe_uninit_array, write, ◌to◌, up_to, start_of, end_of, copied,
  unsafe_copy_slice_overlapping, unsafe_copy_slice_nonoverlapping, assume_init_slice,
}
