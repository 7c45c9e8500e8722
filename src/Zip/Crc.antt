-- ===== src/Zip/Crc.antt =====
-- src/pkg_zip.c: the checksum of an entry.
use myon.Base.{ℕ, zero, suc, ◌+◌, ◌*◌, ◌/◌, ◌%◌, [], ◌∷◌, ◌==◌, if◌then◌else◌, Bytes}

-- `a ^ b` on the lowest `w` bits.
unfoldable pub xor_bits : ℕ → ℕ → ℕ → ℕ
xor_bits zero a b = 0
xor_bits (suc w) a b = (a + b) % 2 + 2 * xor_bits w (a / 2) (b / 2)

-- `a ^ b` for a `uint32_t`
abbrev pub xor32 : ℕ → ℕ → ℕ
xor32 a b = xor_bits 32 a b

-- The polynomial 0xedb88320.
abbrev pub crc32_step : ℕ → ℕ
crc32_step c = if c % 2 == 1 then xor32 3988292384 (c / 2) else c / 2

abbrev pub crc32_steps : ℕ → ℕ → ℕ
crc32_steps zero c = c
crc32_steps (suc k) c = crc32_steps k (crc32_step c)

-- What `crc32_init` stores at the index `i`.
unfoldable pub crc32_table : ℕ → ℕ
crc32_table i = crc32_steps 8 i

abbrev pub crc32_from : ℕ → Bytes → ℕ
crc32_from c [] = c
crc32_from c (b ∷ bs) = crc32_from (xor32 (crc32_table (xor32 c b % 256)) (c / 256)) bs

unfoldable pub crc32_bytes : Bytes → ℕ
crc32_bytes p = xor32 (crc32_from 4294967295 p) 4294967295
