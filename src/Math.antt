-- ===== src/Math.antt =====
-- include/mart-common/MartVec.h: vectors and matrices of fixed size.
pub mod Loop
pub mod Scalar
pub mod Vec
pub mod Matrix
pub mod LinAlg
mod Tests
