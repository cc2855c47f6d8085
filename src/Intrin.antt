-- ===== src/Intrin.antt =====
-- intrinsics/zvanillc: the portable C versions of the single-limb operations, which
-- intrinsics/intrinsics.c reaches through its function tables. Each function returns the pair of
-- its result and of what it writes through its pointer.
pub mod Arith
pub mod Bits
pub mod Crt
pub mod Modinv
pub mod Modular
pub mod Examples
