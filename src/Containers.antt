-- ===== src/Containers.antt =====
-- The containers and views of include/mart-common.
pub mod CircularBuffer
pub mod ArrayView
pub mod Link
pub mod StoragePool
pub mod DynArray
pub mod DynLimArray
