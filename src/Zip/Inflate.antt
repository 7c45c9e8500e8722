-- ===== src/Zip/Inflate.antt =====
-- src/pkg_zip.c: the blocks of a DEFLATE stream, and `pkg_zip_inflate`. A block's answer is its
-- truth value with the state behind it. A loop runs on fuel.
use myon.Base.{
  ℕ, zero, suc, ◌+◌, ◌*◌, ◌-◌, Bool, true, false, not, ◌||◌, List, [], ◌∷◌, ◌++◌, Option, none,
  some, ◌==◌, ltb, leb, if◌then◌else◌, Bytes, length, get_or, set, take, drop,
}
use myon.Zip.Bits.{State, fail, inf_getbit, inf_getbits, inf_out_byte, unless_error}
use myon.Zip.Huffman.{HuffTree, huff_build, huff_decode, zeros}

abbrev pub len_base : List ℕ
len_base =
    3 ∷ 4 ∷ 5 ∷ 6 ∷ 7 ∷ 8 ∷ 9 ∷ 10 ∷ 11 ∷ 13 ∷ 15 ∷ 17 ∷ 19 ∷ 23 ∷ 27 ∷ 31 ∷ 35 ∷ 43 ∷ 51 ∷ 59 ∷ 67
    ∷ 83 ∷ 99 ∷ 115 ∷ 131 ∷ 163 ∷ 195 ∷ 227 ∷ 258 ∷ []

abbrev pub len_extra : List ℕ
len_extra =
    0 ∷ 0 ∷ 0 ∷ 0 ∷ 0 ∷ 0 ∷ 0 ∷ 0 ∷ 1 ∷ 1 ∷ 1 ∷ 1 ∷ 2 ∷ 2 ∷ 2 ∷ 2 ∷ 3 ∷ 3 ∷ 3 ∷ 3 ∷ 4 ∷ 4 ∷ 4 ∷ 4
    ∷ 5 ∷ 5 ∷ 5 ∷ 5 ∷ 0 ∷ []

abbrev pub dist_base : List ℕ
dist_base =
    1 ∷ 2 ∷ 3 ∷ 4 ∷ 5 ∷ 7 ∷ 9 ∷ 13 ∷ 17 ∷ 25 ∷ 33 ∷ 49 ∷ 65 ∷ 97 ∷ 129 ∷ 193 ∷ 257 ∷ 385 ∷ 513 ∷ 769
    ∷ 1025 ∷ 1537 ∷ 2049 ∷ 3073 ∷ 4097 ∷ 6145 ∷ 8193 ∷ 12289 ∷ 16385 ∷ 24577 ∷ []

abbrev pub dist_extra : List ℕ
dist_extra =
    0 ∷ 0 ∷ 0 ∷ 0 ∷ 1 ∷ 1 ∷ 2 ∷ 2 ∷ 3 ∷ 3 ∷ 4 ∷ 4 ∷ 5 ∷ 5 ∷ 6 ∷ 6 ∷ 7 ∷ 7 ∷ 8 ∷ 8 ∷ 9 ∷ 9 ∷ 10 ∷ 10
    ∷ 11 ∷ 11 ∷ 12 ∷ 12 ∷ 13 ∷ 13 ∷ []

-- The bytes from `from` on, which may be among those that the copy itself writes.
unfoldable pub copy_back : ℕ → ℕ → State → State
copy_back zero from s = s
copy_back (suc n) from s =
    let after = inf_out_byte s (get_or s.out from 0) in
    unless_error after.error after (copy_back n (suc from)) after

abbrev pub copy_distance : ℕ → ℕ → State → State
copy_distance len dist s =
    if ltb (length s.out) dist then fail s else copy_back len (length s.out - dist) s

abbrev pub distance_at : ℕ → Option ℕ × State → State
distance_at len (none, s) = fail s
distance_at len (some dsym, s) =
    if s.error || leb 30 dsym
    then fail s
    else (let (extra, after) = inf_getbits (get_or dist_extra dsym 0) s in
        copy_distance len (get_or dist_base dsym 0 + extra) after)

-- A length symbol, 257 less.
abbrev pub length_at : HuffTree → ℕ → State → State
length_at dt sym s =
    if leb 29 sym
    then fail s
    else (let (extra, after) = inf_getbits (get_or len_extra sym 0) s in
        distance_at (get_or len_base sym 0 + extra) (huff_decode after dt))

-- One round for a symbol other than 256.
abbrev pub symbol_at : HuffTree → ℕ → State → State
symbol_at dt sym s = if ltb sym 256 then inf_out_byte s sym else length_at dt (sym - 257) s

-- `none` comes with the error flag only.
abbrev pub after_symbol : HuffTree → (State → Bool × State) → Option ℕ × State → Bool × State
after_symbol dt again (none, s) = (false, s)
after_symbol dt again (some sym, s) =
    if s.error
    then (false, s)
    else if sym == 256
    then (true, s)
    else (let after = symbol_at dt sym s in unless_error after.error (false, after) again after)

unfoldable pub inf_block : ℕ → HuffTree → HuffTree → State → Bool × State
inf_block zero lt dt s = (false, fail s)
inf_block (suc f) lt dt s = after_symbol dt (inf_block f lt dt) (huff_decode s lt)

-- The bits that are left to read.
abbrev pub bits_left : State → ℕ
bits_left s = s.bitcnt + 8 * length s.rest

-- Each round reads a bit.
abbrev pub run_block : List ℕ → List ℕ → State → Bool × State
run_block ll dl s = inf_block (suc (bits_left s)) (huff_build ll) (huff_build dl) s

abbrev pub times : ℕ → ℕ → List ℕ
times zero v = []
times (suc n) v = v ∷ times n v

abbrev pub fixed_lengths : List ℕ
fixed_lengths = times 144 8 ++ (times 112 9 ++ (times 24 7 ++ times 8 8))

unfoldable pub inf_fixed : State → Bool × State
inf_fixed s = run_block fixed_lengths (times 30 5) s

abbrev pub code_order : List ℕ
code_order = 16 ∷ 17 ∷ 18 ∷ 0 ∷ 8 ∷ 7 ∷ 9 ∷ 6 ∷ 10 ∷ 5 ∷ 11 ∷ 4 ∷ 12 ∷ 3 ∷ 13 ∷ 2 ∷ 14 ∷ 1 ∷ 15 ∷ []

unfoldable pub read_code_lengths : List ℕ → List ℕ → State → List ℕ × State
read_code_lengths [] cl s = (cl, s)
read_code_lengths (o ∷ order) cl s =
    let (v, after) = inf_getbits 3 s in read_code_lengths order (set cl o v) after

abbrev pub last_or : ℕ → List ℕ → ℕ
last_or v [] = v
last_or v (x ∷ xs) = last_or x xs

-- `while (rep-- && n < total) lengths[n++] = v;`
abbrev pub repeat_up_to : ℕ → ℕ → List ℕ → ℕ → List ℕ
repeat_up_to total v ls zero = ls
repeat_up_to total v ls (suc rep) =
    if ltb (length ls) total then repeat_up_to total v (ls ++ v ∷ []) rep else ls

-- What a code length symbol adds to the lengths read; `none` fails.
abbrev pub add_lengths : ℕ → List ℕ → ℕ → State → Option (List ℕ) × State
add_lengths total ls sym s =
    if ltb sym 16
    then (some (ls ++ sym ∷ []), s)
    else if sym == 16
    then (if length ls == 0
        then (none, fail s)
        else (let (r, after) = inf_getbits 2 s in
            (some (repeat_up_to total (last_or 0 ls) ls (3 + r)), after)))
    else if sym == 17
    then (let (r, after) = inf_getbits 3 s in (some (repeat_up_to total 0 ls (3 + r)), after))
    else if sym == 18
    then (let (r, after) = inf_getbits 7 s in (some (repeat_up_to total 0 ls (11 + r)), after))
    else (none, fail s)

abbrev pub next_lengths :
    (List ℕ → State → Option (List ℕ) × State) → Option (List ℕ) × State → Option (List ℕ) × State
next_lengths again (none, s) = (none, fail s)
next_lengths again (some ls, s) = unless_error s.error (none, s) (again ls) s

abbrev pub at_symbol : ℕ → List ℕ → Option ℕ × State → Option (List ℕ) × State
at_symbol total ls (none, s) = (none, fail s)
at_symbol total ls (some sym, s) = if s.error then (none, fail s) else add_lengths total ls sym s

-- Each round adds a length, and so `total` is fuel enough.
unfoldable pub read_lengths : ℕ → HuffTree → ℕ → List ℕ → State → Option (List ℕ) × State
read_lengths zero clt total ls s = (some ls, s)
read_lengths (suc f) clt total ls s = elim (ltb (length ls) total) [
  | false ↦ (some ls, s)
  | true ↦ next_lengths (read_lengths f clt total) (at_symbol total ls (huff_decode s clt))
]

abbrev pub dynamic_block : ℕ → Option (List ℕ) × State → Bool × State
dynamic_block hlit (none, s) = (false, s)
dynamic_block hlit (some ls, s) = run_block (take hlit ls) (drop hlit ls) s

abbrev pub dynamic_codes : ℕ → ℕ → ℕ → State → Bool × State
dynamic_codes hlit hdist hclen s =
    if s.error || (ltb 286 hlit || ltb 30 hdist)
    then (false, fail s)
    else (let (cl, after) = read_code_lengths (take hclen code_order) (zeros 19) s in
        if after.error
        then (false, after)
        else dynamic_block hlit
            (read_lengths (hlit + hdist) (huff_build cl) (hlit + hdist) [] after))

unfoldable pub inf_dynamic : State → Bool × State
inf_dynamic s =
    let (l, s₁) = inf_getbits 5 s in
    let (d, s₂) = inf_getbits 5 s₁ in
    let (c, s₃) = inf_getbits 4 s₂ in dynamic_codes (l + 257) (d + 1) (c + 4) s₃

unfoldable pub copy_stored : ℕ → State → Bool × State
copy_stored zero s = (true, s)
copy_stored (suc n) s =
    let after = inf_out_byte (record s { rest = drop 1 s.rest }) (get_or s.rest 0 0) in
    unless_error after.error (false, after) (copy_stored n) after

-- The buffered bits are dropped; LEN, then NLEN, which is not looked at, then the bytes.
unfoldable pub inf_stored : State → Bool × State
inf_stored s =
    let aligned = record s { bitcnt = 0 } in
    let len = get_or s.rest 0 0 + 256 * get_or s.rest 1 0 in
    let body = record aligned { rest = drop 4 s.rest } in
    if ltb (length s.rest) 4
    then (false, fail aligned)
    else if ltb (length body.rest) len
    then (false, fail body)
    else copy_stored len body

abbrev pub one_block : ℕ → State → Bool × State
one_block type s =
    if type == 0
    then inf_stored s
    else if type == 1
    then inf_fixed s
    else if type == 2
    then inf_dynamic s
    else (false, s)

abbrev pub continue_if : Bool → (State → Option State) → State → Option State
continue_if true again s = again s
continue_if false again s = some s

abbrev pub after_block : ℕ → (State → Option State) → Bool × State → Option State
after_block final again (ok, s) =
    if not ok || s.error then none else continue_if (final == 0) again s

-- The blocks up to the final one; `none` is the answer NULL.
unfoldable pub inflate_blocks : ℕ → State → Option State
inflate_blocks zero s = none
inflate_blocks (suc f) s =
    let (final, s₁) = inf_getbit s in
    let (type, s₂) = inf_getbits 2 s₁ in
    unless_error s₂.error none (λ s. after_block final (inflate_blocks f) (one_block type s)) s₂

abbrev pub start : Bytes → ℕ → State
start src expected = record {
  rest = src;
  bitbuf = 0;
  bitcnt = 0;
  out = [];
  out_cap = expected;
  error = false;
}

abbrev pub check_length : ℕ → Option State → Option Bytes
check_length expected none = none
check_length expected (some s) = if length s.out == expected then some s.out else none

unfoldable pub pkg_zip_inflate : Bytes → ℕ → ℕ → Option Bytes
pkg_zip_inflate src expected method =
    if method == 0
    then (if length src == expected then some src else none)
    else if method == 8
    then check_length expected
        (inflate_blocks (suc (bits_left (start src expected))) (start src expected))
    else none
