-- ===== src/Lib.antt =====
-- A model of the portable C core of libdnml, a library of arbitrary-precision integers.
--
-- A bigInt is a sign, a count of limbs `n`, a capacity and a buffer of 64-bit limbs, the lowest
-- first. The public operations of dynamol/bigint/bigInt.c check their arguments and call the
-- algorithms of calc_algo, which use the utilities of util/perf_util and, for single limbs, the
-- operations of intrinsics.
--
-- Base          the tests of C, lists as buffers, machine words, bit operations, integers.
-- Intrin.Arith  intrinsics/zvanillc/_vanillc_arith.c: `add64c` is _cintrin_add64c, and so on.
-- BigInt        the type of include/libdnml_types.h, its validity and the memory of bigInts.
-- BigInt.Util   util/perf_util/bigNum_utils.c: `copy` is __BIGINT_INTERNAL_COPY__, and so on.
-- BigInt.AddSub calc_algo/algo_base/add_sub.c: `add_saw` is __BIGINT_ADD_SAW__, and so on.
-- BigInt.Order  dynamol/bigint/bigInt.c: `less` is bigInt_less, and so on.
-- Intrin.Crt    intrinsics/crt_vanillc: `crt_lt` is _vanillc_crt_lt, `crt_add64c` _crtintrin_add64c.
-- Intrin.Modinv intrinsics/zvanillc/_vanillc_marith.c.
-- Intrin.Bits   intrinsics/zvanillc/_vanillc_bitops.c: `clz64` is _cintrin_clz64.
-- Intrin.Modular intrinsics/intrinsics.c: `modexp` is __MODEXP_UI64__. Its loop runs on fuel: 64
--               rounds empty an exponent of 64 bits.
-- BigInt.Convert dynamol/bigint/bigInt.c: `geti64` is bigInt_geti64, and so on.
-- BigInt.Bitwise dynamol/bigint/bigInt.c: `xor` is bigInt_xor, and so on.
-- BigInt.Room   util/perf_util/bigNum_utils.c: `enscap` is __BIGINT_INTERNAL_ENSCAP__. The doubling
--               loop runs on fuel: 64 rounds are enough for every size that realloc can give.
-- BigInt.Copies dynamol/bigint/bigInt.c: `mut_ocopy` is bigInt_mut_ocopy, `new_copy` bigInt_copy.
-- BigInt.Mutate dynamol/bigint/bigInt.c: `mut_xor` is bigInt_mut_xor, `mutex_xor` bigInt_mutex_xor.
-- BigInt.Limbwise util/perf_util/bigNum_utils.c: `mul_ui64` is __BIGINT_INTERNAL_MUL_UI64__; each
--               pass over the limbs is `upward` or `downward` with the step of its loop.
-- BigInt.Multiply calc_algo/perf_based/mul.c: `schoolbook` is __BIGINT_SCHOOLBOOK__.
--
-- `realloc` of the C library is a parameter of the operations that grow a buffer, with the record
-- `IsRealloc` of its documented behaviour; whether calloc succeeds is a Boolean parameter. The
-- operations that set bytes or copy bytes are those of a little-endian machine.
--
-- A uint64_t is a natural number below 2 ^ 64 with every wrap-around written out. A pointer
-- argument of an operation that may be aliased is a number into a `Store`; equal numbers are
-- equal pointers. Where `toi64_safe` and `seti64_safe` multiply INT64_MIN by -1, which C leaves
-- undefined, their result is `none`; a memcpy of a block onto itself, undefined as well, changes
-- nothing. Loops are structural recursion on the number of rounds that the source makes,
-- except the one of `enscap`. The intrinsics that the algorithms call through macros are those in portable
-- C.
--
-- Not modelled: the assembly intrinsics, the constant-time integers, the heap variants, the
-- multiplications but the schoolbook one, the division and what rests on it, text input and output, the arenas, the
-- debug mode, which ends the process, and the clearing of locals, which has no effect on results.
pub mod Base
pub mod BigInt
pub mod Intrin
