-- ===== src/Mvm/Pool.antt =====
-- src/mvm_chunk.c, the constant pool and the native table: interning with duplicate elimination.
pub mod Laws
pub mod Unique
use myon.Base.{
  ℕ, ◌+◌, ◌-◌, ◌*◌, ◌/◌, ◌%◌, ◌^◌, Bool, true, false, not, ◌&&◌, ◌||◌, List, [], ◌∷◌, ◌++◌, Option,
  none, some, ◌==◌, ltb, leb, if◌then◌else◌, Bytes, str_eq, length,
}
use myon.Base.Words.{ℤ, pos, negsuc}
use myon.Types.{TypeSpec, typespec_clone}
use myon.Mvm.{Chunk, ConstEntry, int, float, str, bool, nil, typespec, Module}

-- `a == b` on `long long`
unfoldable pub int_eq : ℤ → ℤ → Bool
int_eq (pos a) (pos b) = a == b
int_eq (negsuc a) (negsuc b) = a == b
int_eq _ _ = false

-- The exponent is all ones and the fraction is not zero.
unfoldable pub is_nan : ℕ → Bool
is_nan d = d / 2 ^ 52 % 2 ^ 11 == 2 ^ 11 - 1 && not (d % 2 ^ 52 == 0)

-- `a == b` on `double`, by the bit patterns (IEEE 754): no NaN equals anything, the zeros are equal.
unfoldable pub float_eq : ℕ → ℕ → Bool
unfolding is_nan
float_eq a b = not (is_nan a) && not (is_nan b) && (a == b || (a % 2 ^ 63 == 0 && b % 2 ^ 63 == 0))

unfoldable pub bool_eq : Bool → Bool → Bool
bool_eq true b = b
bool_eq false b = not b

-- The test of the scan in each `module_add_const_*`; type descriptors are not looked for.
unfoldable pub same_const : ConstEntry → ConstEntry → Bool
unfolding int_eq float_eq bool_eq
same_const (int a) (int b) = int_eq a b
same_const (float a) (float b) = float_eq a b
same_const (str a) (str b) = str_eq a b
same_const (bool a) (bool b) = bool_eq a b
same_const nil nil = true
same_const _ _ = false

-- `for (i = 0; i < count; i++) if (...) return i;`, from index `i` on
unfoldable pub find_const : ConstEntry → ℕ → List ConstEntry → Option ℕ
unfolding same_const
find_const c i [] = none
find_const c i (e ∷ es) = if same_const e c then some i else find_const c (i + 1) es

abbrev const_add : Module → ConstEntry → ℕ × Module
const_add m c = (length m.consts, record m { consts = m.consts ++ c ∷ [] })

abbrev found_or_add : Module → ConstEntry → Option ℕ → ℕ × Module
found_or_add m c (some i) = (i, m)
found_or_add m c none = const_add m c

-- The scan, and then the addition, that the five functions below share.
unfoldable pub intern : Module → ConstEntry → ℕ × Module
unfolding find_const
intern m c = found_or_add m c (find_const c 0 m.consts)

abbrev pub module_add_const_int : Module → ℤ → ℕ × Module
module_add_const_int m v = intern m (int v)

abbrev pub module_add_const_float : Module → ℕ → ℕ × Module
module_add_const_float m v = intern m (float v)

abbrev pub module_add_const_str : Module → Bytes → ℕ × Module
module_add_const_str m s = intern m (str s)

-- The `int` argument is normalised to 0 or 1.
abbrev pub module_add_const_bool : Module → ℕ → ℕ × Module
module_add_const_bool m b = intern m (bool (not (b == 0)))

abbrev pub module_add_const_nil : Module → ℕ × Module
module_add_const_nil m = intern m nil

abbrev pub module_add_const_typespec : Module → TypeSpec → ℕ × Module
module_add_const_typespec m t = const_add m (typespec (typespec_clone t))

unfoldable pub find_native : Bytes → ℕ → List Bytes → Option ℕ
find_native s i [] = none
find_native s i (n ∷ ns) = if str_eq n s then some i else find_native s (i + 1) ns

abbrev native_or_add : Module → Bytes → Option ℕ → ℕ × Module
native_or_add m s (some i) = (i, m)
native_or_add m s none = (length m.natives, record m { natives = m.natives ++ s ∷ [] })

unfoldable pub module_add_native : Module → Bytes → ℕ × Module
unfolding find_native
module_add_native m s = native_or_add m s (find_native s 0 m.natives)
