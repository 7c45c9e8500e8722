-- ===== src/Zip/Runs.antt =====
-- What every part of the inflater does to its state: it reads on, writes behind what is written and
-- within the output's capacity, and an error stays.
use myon.Base.{
  ℕ, zero, suc, ◌+◌, ◌*◌, ◌-◌, ◌/◌, ◌≤◌, ◌<◌, ◌≡◌, refl, sym, ap, ◌∙◌, Bool, true, false, ◌||◌,
  Bool-cases, inl, inr, List, [], ◌∷◌, ◌++◌, append-nil, append_assoc, Option, none, some, ◌==◌,
  ltb, leb, if_both, if_cases, Bytes, length, length-append, get_or, arith,
}
use myon.Zip.Bits.{State, fail, refill, inf_getbit, inf_getbits, inf_out_byte, unless_error}
use myon.Zip.Huffman.{HuffTree, decode_from, tail_of, huff_decode}
use myon.Zip.Inflate.{
  bits_left, copy_back, copy_distance, distance_at, length_at, symbol_at, dist_extra, dist_base,
  len_extra, len_base,
}

pub record Runs (s t : State) : Type 0 where
  pub cap : t.out_cap ≡ s.out_cap
  pub added : Bytes
  pub appended : t.out ≡ s.out ++ added
  pub fits : length s.out ≤ s.out_cap → length t.out ≤ t.out_cap
  pub bits : bits_left t ≤ bits_left s
  pub sticky : s.error ≡ true → t.error ≡ true

pub Runs-refl : (s : State) → Runs s s
Runs-refl s = record {
  cap = refl;
  added = [];
  appended = sym (append-nil s.out);
  fits = λ h. h;
  bits = omega arith;
  sticky = λ h. h;
}

pub Runs-trans : {s t u : State} → Runs s t → Runs t u → Runs s u
Runs-trans {s} m n = record {
  cap = n.cap ∙ m.cap;
  added = m.added ++ n.added;
  appended =
      n.appended ∙ ap (λ (o : Bytes). o ++ n.added) m.appended ∙ append_assoc s.out m.added n.added;
  fits = λ h. n.fits (m.fits h);
  bits = omega (arith, m.bits, n.bits);
  sticky = λ h. n.sticky (m.sticky h);
}

pub Runs-fail : {s t : State} → Runs s t → Runs s (fail t)
Runs-fail m = record {
  cap = m.cap;
  added = m.added;
  appended = m.appended;
  fits = m.fits;
  bits = m.bits;
  sticky = λ h. refl;
}

-- The source moves on and the output stays.
pub Runs-skip :
    {s : State} (rest : Bytes) (buf cnt : ℕ)
    → cnt + 8 * length rest ≤ bits_left s
    → Runs s (record s { rest = rest; bitbuf = buf; bitcnt = cnt })
Runs-skip {s} rest buf cnt h = record {
  cap = refl;
  added = [];
  appended = sym (append-nil s.out);
  fits = λ g. g;
  bits = h;
  sticky = λ g. g;
}

-- What ends without an error began without one.
pub Runs-live : {s t : State} → Runs s t → t.error ≡ false → s.error ≡ false
Runs-live {s} m h = elim (Bool-cases s.error) [ inl e ↦ (let late = m.sticky e in cc) | inr e ↦ e ]

refill-Runs : (bs : Bytes) (s : State) → s.rest ≡ bs → Runs s (refill bs s).1
refill-Runs [] s e = Runs-fail (Runs-refl s)
refill-Runs (c ∷ cs) s e = Runs-skip cs (c / 2) 7 (omega (arith, ap length e))

pub getbit-Runs : (s : State) → Runs s (inf_getbit s).1
unfolding inf_getbit
getbit-Runs s =
    if_both (λ (r : ℕ × State). Runs s r.1) (s.bitcnt == 0) (refill-Runs s.rest s refl)
      (Runs-skip s.rest (s.bitbuf / 2) (s.bitcnt - 1) (omega arith))

refill-reads :
    (bs : Bytes) (s : State)
    → s.rest ≡ bs
    → (refill bs s).1.error ≡ false
    → bits_left (refill bs s).1 < bits_left s
refill-reads [] s e h = cc
refill-reads (c ∷ cs) s e h = omega (arith, ap length e)

-- A bit that is read without an error is one less to read.
pub getbit-reads :
    (s : State) → (inf_getbit s).1.error ≡ false → bits_left (inf_getbit s).1 < bits_left s
unfolding inf_getbit
getbit-reads s =
    if_cases (λ (r : ℕ × State). r.1.error ≡ false → bits_left r.1 < bits_left s) (s.bitcnt == 0)
      (λ empty h. refill-reads s.rest s refl h) (λ buffered h. ground arith)

pub getbits-Runs : (n : ℕ) (s : State) → Runs s (inf_getbits n s).1
unfolding inf_getbits
getbits-Runs zero s = Runs-refl s
getbits-Runs (suc n) s = Runs-trans (getbit-Runs s) (getbits-Runs n (inf_getbit s).1)

pub out_byte-Runs : (s : State) (b : ℕ) → Runs s (inf_out_byte s b)
unfolding inf_out_byte
out_byte-Runs s b =
    if_cases (Runs s) (ltb (length s.out) s.out_cap)
      (λ room. record {
        cap = refl;
        added = b ∷ [];
        appended = refl;
        fits = λ h. ground (arith, length-append s.out (b ∷ []));
        bits = omega arith;
        sticky = λ h. h;
      })
      (λ full. Runs-fail (Runs-refl s))

pub unless_error-both {ℓ} :
    {A : Type 0} (P : A → Type ℓ) (b : Bool) (again : State → A) (s : State) {x : A}
    → P x
    → (b ≡ false → P (again s))
    → P (unless_error b x again s)
unless_error-both P true again s hx h = hx
unless_error-both P false again s hx h = h refl

pub unless_error_agree {ℓ} :
    {A : Type ℓ} (b : Bool) (x : A) (again again' : State → A) (s : State)
    → (b ≡ false → again s ≡ again' s)
    → unless_error b x again s ≡ unless_error b x again' s
unless_error_agree true x again again' s h = refl
unless_error_agree false x again again' s h = h refl

decode_from-Runs :
    (symbols counts : List ℕ) (code first index : ℕ) (s : State)
    → Runs s (decode_from symbols counts code first index s).1
decode_from-Runs symbols [] code first index s = Runs-fail (Runs-refl s)
decode_from-Runs symbols (count ∷ counts) code first index s =
    let (b, after) = inf_getbit s in
    if_both (λ (r : Option ℕ × State). Runs s r.1) (ltb (code + b) (first + count)) (getbit-Runs s)
      (if_both (λ (r : Option ℕ × State). Runs s r.1) after.error (getbit-Runs s)
        (Runs-trans (getbit-Runs s) (
          decode_from-Runs symbols counts ((code + b) * 2) ((first + count) * 2) (index + count)
            after)))

pub huff_decode-Runs : (s : State) (t : HuffTree) → Runs s (huff_decode s t).1
unfolding huff_decode
huff_decode-Runs s t = decode_from-Runs t.symbols (tail_of t.counts) 0 0 0 s

decode_from-reads :
    (symbols counts : List ℕ) (code first index : ℕ) (s : State)
    → (decode_from symbols counts code first index s).1.error ≡ false
    → bits_left (decode_from symbols counts code first index s).1 < bits_left s
decode_from-reads symbols [] code first index s = λ h. cc
decode_from-reads symbols (count ∷ counts) code first index s =
    let (b, after) = inf_getbit s in
    let P : (Option ℕ × State) → Type 0 = λ r. r.1.error ≡ false → bits_left r.1 < bits_left s in
    if_both P (ltb (code + b) (first + count)) (getbit-reads s) (
      if_cases P after.error (λ failed. getbit-reads s)
        (λ live h. omega (
          arith,
          getbit-reads s live,
          decode_from-reads symbols counts ((code + b) * 2) ((first + count) * 2) (index + count)
              after h,
        )))

-- A symbol that is decoded without an error takes at least a bit.
pub huff_decode-reads :
    (s : State) (t : HuffTree)
    → (huff_decode s t).1.error ≡ false
    → bits_left (huff_decode s t).1 < bits_left s
unfolding huff_decode
huff_decode-reads s t = decode_from-reads t.symbols (tail_of t.counts) 0 0 0 s

pub copy_back-Runs : (n from : ℕ) (s : State) → Runs s (copy_back n from s)
unfolding copy_back
copy_back-Runs zero from s = Runs-refl s
copy_back-Runs (suc n) from s =
    let after = inf_out_byte s (get_or s.out from 0) in
    let wrote = out_byte-Runs s (get_or s.out from 0) in
    unless_error-both (Runs s) after.error (copy_back n (suc from)) after wrote
      (λ live. Runs-trans wrote (copy_back-Runs n (suc from) after))

copy_distance-Runs : (len dist : ℕ) (s : State) → Runs s (copy_distance len dist s)
copy_distance-Runs len dist s =
    if_both (Runs s) (ltb (length s.out) dist) (Runs-fail (Runs-refl s))
      (copy_back-Runs len (length s.out - dist) s)

distance_at-Runs : (len : ℕ) (r : Option ℕ × State) → Runs r.1 (distance_at len r)
distance_at-Runs len (none, s) = Runs-fail (Runs-refl s)
distance_at-Runs len (some dsym, s) =
    let (extra, after) = inf_getbits (get_or dist_extra dsym 0) s in
    if_both (Runs s) (s.error || leb 30 dsym) (Runs-fail (Runs-refl s)) (
      Runs-trans (getbits-Runs (get_or dist_extra dsym 0) s)
        (copy_distance-Runs len (get_or dist_base dsym 0 + extra) after))

length_at-Runs : (dt : HuffTree) (sym : ℕ) (s : State) → Runs s (length_at dt sym s)
length_at-Runs dt sym s =
    let (extra, after) = inf_getbits (get_or len_extra sym 0) s in
    if_both (Runs s) (leb 29 sym) (Runs-fail (Runs-refl s)) (
      Runs-trans (getbits-Runs (get_or len_extra sym 0) s) (
        Runs-trans (huff_decode-Runs after dt)
          (distance_at-Runs (get_or len_base sym 0 + extra) (huff_decode after dt))))

pub symbol_at-Runs : (dt : HuffTree) (sym : ℕ) (s : State) → Runs s (symbol_at dt sym s)
symbol_at-Runs dt sym s =
    if_both (Runs s) (ltb sym 256) (out_byte-Runs s sym) (length_at-Runs dt (sym - 257) s)
