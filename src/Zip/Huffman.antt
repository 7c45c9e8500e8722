-- ===== src/Zip/Huffman.antt =====
-- src/pkg_zip.c: canonical Huffman tables.
use myon.Base.{
  ℕ, zero, suc, ◌+◌, ◌*◌, ◌-◌, true, false, List, [], ◌∷◌, Option, none, some, ◌==◌, ltb,
  if◌then◌else◌, get_or, set,
}
use myon.Zip.Bits.{State, fail, inf_getbit}

-- `symbols` beyond the coded ones is memory that the table does not set; it is 0 here.
pub record HuffTree : Type 0 where
  pub counts : List ℕ
  pub symbols : List ℕ

abbrev pub zeros : ℕ → List ℕ
zeros zero = []
zeros (suc n) = 0 ∷ zeros n

abbrev pub count_lengths : List ℕ → List ℕ → List ℕ
count_lengths [] counts = counts
count_lengths (l ∷ ls) counts = count_lengths ls (set counts l (get_or counts l 0 + 1))

-- `offs[i + 1] = offs[i] + counts[i]`, from the offset and the counts at `i` on.
abbrev pub sums : ℕ → List ℕ → List ℕ
sums off [] = []
sums off (c ∷ cs) = off ∷ sums (off + c) cs

-- The symbol with the code length `l` goes to the next place for that length.
abbrev pub place : ℕ → List ℕ → List ℕ → List ℕ → List ℕ
place i [] offs symbols = symbols
place i (l ∷ ls) offs symbols = elim (l == 0) [
  | true ↦ place (suc i) ls offs symbols
  | false ↦ place (suc i) ls (set offs l (get_or offs l 0 + 1)) (set symbols (get_or offs l 0) i)
]

abbrev pub code_counts : List ℕ → List ℕ
code_counts lengths = set (count_lengths lengths (zeros 16)) 0 0

-- `offs[0] = offs[1] = 0`; the sums begin at 1.
abbrev pub tail_of : List ℕ → List ℕ
tail_of [] = []
tail_of (c ∷ cs) = cs

unfoldable pub huff_build : List ℕ → HuffTree
huff_build lengths =
    let counts = code_counts lengths in
    record { counts = counts; symbols = place 0 lengths (0 ∷ sums 0 (tail_of counts)) (zeros 288) }

-- The loop over the code lengths, from the counts that are left. The answer -1 is `none`.
abbrev pub decode_from : List ℕ → List ℕ → ℕ → ℕ → ℕ → State → Option ℕ × State
decode_from symbols [] code first index s = (none, fail s)
decode_from symbols (count ∷ counts) code first index s =
    let (b, after) = inf_getbit s in
    let longer =
      decode_from symbols counts ((code + b) * 2) ((first + count) * 2) (index + count) after in
    if ltb (code + b) (first + count)
    then (some (get_or symbols (index + (code + b - first)) 0), after)
    else if after.error
    then (none, after)
    else longer

unfoldable pub huff_decode : State → HuffTree → Option ℕ × State
huff_decode s t = decode_from t.symbols (tail_of t.counts) 0 0 0 s
