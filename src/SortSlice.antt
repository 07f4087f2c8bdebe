-- ===== src/SortSlice.antt =====
-- What the code relies on of Go's `sort.Slice`: the slice is permuted, and sorted if the comparison
-- is a strict weak order. The sort is not stable.
mod Contract
mod Insertion
pub use Contract.*
pub use Insertion.*
