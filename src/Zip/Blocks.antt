-- ===== src/Zip/Blocks.antt =====
-- The blocks of src/pkg_zip.c run as every part does, and their fuel is enough.
use myon.Base.{
  ℕ, zero, suc, ◌+◌, ◌*◌, ◌≤◌, ◌<◌, ◌≡◌, refl, Bool, true, false, ◌||◌, List, [], ◌∷◌, Option, none,
  some, ◌==◌, ltb, if_both, if_agree, length, get_or, set, take, drop, arith,
}
use myon.Zip.Bits.{State, inf_getbits, inf_out_byte}
use myon.Zip.Huffman.{HuffTree, huff_build, huff_decode, zeros}
use myon.Zip.Inflate.{
  bits_left, symbol_at, after_symbol, inf_block, run_block, inf_fixed, fixed_lengths, times,
  read_code_lengths, code_order, add_lengths, next_lengths, at_symbol, read_lengths, dynamic_block,
  dynamic_codes, inf_dynamic, copy_stored, inf_stored, one_block,
}
use myon.Zip.Runs.{
  Runs, Runs-refl, Runs-trans, Runs-fail, Runs-skip, getbits-Runs, out_byte-Runs, huff_decode-Runs,
  huff_decode-reads, symbol_at-Runs, unless_error-both, unless_error_agree,
}

-- Two answers of the rest of a block's loop agree from states with few enough bits.
after_symbol-Runs :
    (dt : HuffTree) (again : State → Bool × State) (r : Option ℕ × State)
    → ((t : State) → Runs t (again t).1)
    → Runs r.1 (after_symbol dt again r).1
after_symbol-Runs dt again (none, s) h = Runs-refl s
after_symbol-Runs dt again (some symbol, s) h =
    let after = symbol_at dt symbol s in
    let P : Bool × State → Type 0 = λ r. Runs s r.1 in
    let moved = symbol_at-Runs dt symbol s in
    if_both P s.error (Runs-refl s) (
      if_both P (symbol == 256) (Runs-refl s)
        (unless_error-both P after.error again after moved (λ live. Runs-trans moved (h after))))

inf_block-Runs : (f : ℕ) (lt dt : HuffTree) (s : State) → Runs s (inf_block f lt dt s).1
unfolding inf_block
inf_block-Runs zero lt dt s = Runs-fail (Runs-refl s)
inf_block-Runs (suc f) lt dt s =
    Runs-trans (huff_decode-Runs s lt)
      (after_symbol-Runs dt (inf_block f lt dt) (huff_decode s lt) (inf_block-Runs f lt dt))

-- The rest of the loop matters only where fewer bits are left.
after_symbol_agree :
    (dt : HuffTree) (again again' : State → Bool × State) (n : ℕ) (r : Option ℕ × State)
    → (r.1.error ≡ false → bits_left r.1 < n)
    → ((t : State) → bits_left t < n → again t ≡ again' t)
    → after_symbol dt again r ≡ after_symbol dt again' r
after_symbol_agree dt again again' n (none, s) few h = refl
after_symbol_agree dt again again' n (some symbol, s) few h =
    let after = symbol_at dt symbol s in
    if_agree s.error (false, s)
      (λ live.
        if_agree (symbol == 256) (true, s)
          (λ more.
            unless_error_agree after.error (false, after) again again' after
              (λ fine. h after (omega (arith, (symbol_at-Runs dt symbol s).bits, few live)))))

-- With more fuel than bits left the fuel makes no difference.
inf_block_fuel :
    (f g : ℕ) (lt dt : HuffTree) (s : State)
    → bits_left s < f
    → bits_left s < g
    → inf_block f lt dt s ≡ inf_block g lt dt s
unfolding inf_block
inf_block_fuel zero g lt dt s hf hg = elim hf [ ]
inf_block_fuel (suc f) zero lt dt s hf hg = elim hg [ ]
inf_block_fuel (suc f) (suc g) lt dt s hf hg =
    after_symbol_agree dt (inf_block f lt dt) (inf_block g lt dt) (bits_left s) (huff_decode s lt)
      (huff_decode-reads s lt)
      (λ t few. inf_block_fuel f g lt dt t (omega (arith, few)) (omega (arith, few)))

run_block-Runs : (ll dl : List ℕ) (s : State) → Runs s (run_block ll dl s).1
run_block-Runs ll dl s = inf_block-Runs (suc (bits_left s)) (huff_build ll) (huff_build dl) s

inf_fixed-Runs : (s : State) → Runs s (inf_fixed s).1
unfolding inf_fixed
inf_fixed-Runs s = run_block-Runs fixed_lengths (times 30 5) s

read_code_lengths-Runs : (order cl : List ℕ) (s : State) → Runs s (read_code_lengths order cl s).1
unfolding read_code_lengths
read_code_lengths-Runs [] cl s = Runs-refl s
read_code_lengths-Runs (o ∷ order) cl s =
    let (v, after) = inf_getbits 3 s in
    Runs-trans (getbits-Runs 3 s) (read_code_lengths-Runs order (set cl o v) after)

add_lengths-Runs :
    (total : ℕ) (ls : List ℕ) (symbol : ℕ) (s : State) → Runs s (add_lengths total ls symbol s).1
add_lengths-Runs total ls symbol s =
    let P : Option (List ℕ) × State → Type 0 = λ r. Runs s r.1 in
    if_both P (ltb symbol 16) (Runs-refl s) (
      if_both P (symbol == 16)
        (if_both P (length ls == 0) (Runs-fail (Runs-refl s)) (getbits-Runs 2 s))
        (if_both P (symbol == 17) (getbits-Runs 3 s)
          (if_both P (symbol == 18) (getbits-Runs 7 s) (Runs-fail (Runs-refl s)))))

at_symbol-Runs :
    (total : ℕ) (ls : List ℕ) (r : Option ℕ × State) → Runs r.1 (at_symbol total ls r).1
at_symbol-Runs total ls (none, s) = Runs-fail (Runs-refl s)
at_symbol-Runs total ls (some symbol, s) =
    if_both (λ (r : Option (List ℕ) × State). Runs s r.1) s.error (Runs-fail (Runs-refl s))
      (add_lengths-Runs total ls symbol s)

next_lengths-Runs :
    (again : List ℕ → State → Option (List ℕ) × State) (r : Option (List ℕ) × State)
    → ((ls : List ℕ) (t : State) → Runs t (again ls t).1)
    → Runs r.1 (next_lengths again r).1
next_lengths-Runs again (none, s) h = Runs-fail (Runs-refl s)
next_lengths-Runs again (some ls, s) h =
    unless_error-both (λ (r : Option (List ℕ) × State). Runs s r.1) s.error (again ls) s
      (Runs-refl s) (λ live. h ls s)

read_lengths-Runs :
    (f : ℕ) (clt : HuffTree) (total : ℕ) (ls : List ℕ) (s : State)
    → Runs s (read_lengths f clt total ls s).1
unfolding read_lengths
read_lengths-Runs zero clt total ls s = Runs-refl s
read_lengths-Runs (suc f) clt total ls s =
    let found = huff_decode s clt in
    let grown = Runs-trans (huff_decode-Runs s clt) (
      Runs-trans (at_symbol-Runs total ls found) (
        next_lengths-Runs (read_lengths f clt total) (at_symbol total ls found)
          (read_lengths-Runs f clt total))) in
    more_or (λ (r : Option (List ℕ) × State). Runs s r.1) (ltb (length ls) total) (Runs-refl s)
      grown
  where
    more_or :
        (P : Option (List ℕ) × State → Type 0) (b : Bool) {x y : Option (List ℕ) × State}
        → P x
        → P y
        → P (elim b [ false ↦ x | true ↦ y ])
    more_or P true hx hy = hy
    more_or P false hx hy = hx

dynamic_block-Runs : (hlit : ℕ) (r : Option (List ℕ) × State) → Runs r.1 (dynamic_block hlit r).1
dynamic_block-Runs hlit (none, s) = Runs-refl s
dynamic_block-Runs hlit (some ls, s) = run_block-Runs (take hlit ls) (drop hlit ls) s

dynamic_codes-Runs :
    (hlit hdist hclen : ℕ) (s : State) → Runs s (dynamic_codes hlit hdist hclen s).1
dynamic_codes-Runs hlit hdist hclen s =
    let P : Bool × State → Type 0 = λ r. Runs s r.1 in
    let codes = read_code_lengths (take hclen code_order) (zeros 19) s in
    let got = read_code_lengths-Runs (take hclen code_order) (zeros 19) s in
    let lengths = read_lengths (hlit + hdist) (huff_build codes.0) (hlit + hdist) [] codes.1 in
    if_both P (s.error || (ltb 286 hlit || ltb 30 hdist)) (Runs-fail (Runs-refl s)) (
      if_both P codes.1.error got (
        Runs-trans got (
          Runs-trans
            (read_lengths-Runs (hlit + hdist) (huff_build codes.0) (hlit + hdist) [] codes.1)
            (dynamic_block-Runs hlit lengths))))

inf_dynamic-Runs : (s : State) → Runs s (inf_dynamic s).1
unfolding inf_dynamic
inf_dynamic-Runs s =
    let (l, s₁) = inf_getbits 5 s in
    let (d, s₂) = inf_getbits 5 s₁ in
    let (c, s₃) = inf_getbits 4 s₂ in
    Runs-trans (getbits-Runs 5 s) (
      Runs-trans (getbits-Runs 5 s₁)
        (Runs-trans (getbits-Runs 4 s₂) (dynamic_codes-Runs (l + 257) (d + 1) (c + 4) s₃)))

drop-shorter {ℓ} : {A : Type ℓ} (n : ℕ) (xs : List A) → length (drop n xs) ≤ length xs
drop-shorter zero xs = omega arith
drop-shorter (suc n) [] = omega arith
drop-shorter (suc n) (x ∷ xs) = omega (arith, drop-shorter n xs)

skip-Runs : (n : ℕ) (s : State) → Runs s (record s { rest = drop n s.rest })
skip-Runs n s = Runs-skip (drop n s.rest) s.bitbuf s.bitcnt (omega (arith, drop-shorter n s.rest))

copy_stored-Runs : (n : ℕ) (s : State) → Runs s (copy_stored n s).1
unfolding copy_stored
copy_stored-Runs zero s = Runs-refl s
copy_stored-Runs (suc n) s =
    let skipped = record s { rest = drop 1 s.rest } in
    let after = inf_out_byte skipped (get_or s.rest 0 0) in
    let wrote = Runs-trans (skip-Runs 1 s) (out_byte-Runs skipped (get_or s.rest 0 0)) in
    unless_error-both (λ (r : Bool × State). Runs s r.1) after.error (copy_stored n) after wrote
      (λ live. Runs-trans wrote (copy_stored-Runs n after))

inf_stored-Runs : (s : State) → Runs s (inf_stored s).1
unfolding inf_stored
inf_stored-Runs s =
    let P : Bool × State → Type 0 = λ r. Runs s r.1 in
    let len = get_or s.rest 0 0 + 256 * get_or s.rest 1 0 in
    let body = record s { bitcnt = 0; rest = drop 4 s.rest } in
    let short = Runs-skip s.rest s.bitbuf 0 (omega arith) in
    let moved = Runs-skip (drop 4 s.rest) s.bitbuf 0 (omega (arith, drop-shorter 4 s.rest)) in
    if_both P (ltb (length s.rest) 4) (Runs-fail short) (
      if_both P (ltb (length (drop 4 s.rest)) len) (Runs-fail moved)
        (Runs-trans moved (copy_stored-Runs len body)))

-- Whatever its type and its bits, a block only appends to the output, keeps the output within its
-- capacity if it was, leaves no more bits than there were, and keeps an error.
pub one_block-Runs : (type : ℕ) (s : State) → Runs s (one_block type s).1
one_block-Runs type s =
    let P : Bool × State → Type 0 = λ r. Runs s r.1 in
    if_both P (type == 0) (inf_stored-Runs s) (
      if_both P (type == 1) (inf_fixed-Runs s)
        (if_both P (type == 2) (inf_dynamic-Runs s) (Runs-refl s)))
