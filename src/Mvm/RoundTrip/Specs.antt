-- ===== src/Mvm/RoundTrip/Specs.antt =====
-- Type descriptors: what is written of one is read back.
use myon.Base.{
  ℕ, zero, suc, ◌+◌, ◌/◌, ◌^◌, ◌<◌, ◌≤◌, ◌≡◌, refl, Bool, true, false, ◌||◌, ◌++◌, Option, none,
  some, if◌then◌else◌, ◌==◌, Bytes, length, length-append, arith,
}
use myon.Types.{
  Tag, type_unknown, type_array, type_map, is_named, TypeSpec, TypeSpecs, null, node, arg_count,
}
use myon.Types
use myon.Mvm.Writer.{
  buf_le, buf_u8, buf_u16, buf_str, string_or_empty, when, ser_typespec, ser_args,
}
use myon.Mvm.Reader.{deser_args, deser_fields, deser_typespec}
use myon.Mvm.RoundTrip.Fields.{
  Reads, Reads-pure, Reads-bind, Reads-end, Reads-when, Reads-rd8, Reads-rd_le, IsCString,
  Reads-rdstr,
}

abbrev canon_name : Tag → Option Bytes → Option Bytes
canon_name base name = if is_named base then some (string_or_empty name) else none

-- What the format keeps of a descriptor: NULL becomes an unknown type, a name is kept for structs
-- and parameters only, `elem` for arrays and maps, `key` for maps.
unfoldable mutual
  pub canon : TypeSpec → TypeSpec
  canon null = Types.typespec_new type_unknown
  canon (node base name elem key args) =
      node base (canon_name base name)
        (if base == type_array || base == type_map then canon elem else null)
        (if base == type_map then canon key else null) (canon_args args)

  pub canon_args : TypeSpecs → TypeSpecs
  canon_args Types.TypeSpecs.nil = Types.TypeSpecs.nil
  canon_args (Types.TypeSpecs.cons t ts) = Types.TypeSpecs.cons (canon t) (canon_args ts)

-- Every number fits its field, and every name is a C string.
abbrev mutual
  pub SpecFits : TypeSpec → Type 0
  SpecFits null = Unit
  SpecFits (node base name elem key args) =
      (base < 256)
      × IsCString (string_or_empty name)
      × SpecFits elem
      × SpecFits key
      × (arg_count args < 2 ^ 16)
      × ArgsFit args

  pub ArgsFit : TypeSpecs → Type 0
  ArgsFit Types.TypeSpecs.nil = Unit
  ArgsFit (Types.TypeSpecs.cons t ts) = SpecFits t × ArgsFit ts

pub length-buf_le : (n v : ℕ) → length (buf_le n v) ≡ n
unfolding buf_le
length-buf_le zero v = refl
length-buf_le (suc n) v = omega (arith, length-buf_le n (v / 256))

ser_typespec_pos : (t : TypeSpec) → 1 ≤ length (ser_typespec t)
unfolding ser_typespec ser_args buf_le
ser_typespec_pos null = omega arith
ser_typespec_pos (node b n e k xs) = omega arith

length-append_six :
    (a b c d e g : Bytes)
    → length (a ++ (b ++ (c ++ (d ++ (e ++ g)))))
      ≡ length a + length b + length c + length d + length e + length g
length-append_six a b c d e g = omega (
  arith,
  length-append a (b ++ (c ++ (d ++ (e ++ g)))),
  length-append b (c ++ (d ++ (e ++ g))),
  length-append c (d ++ (e ++ g)),
  length-append d (e ++ g),
  length-append e g,
)

length-when : (b : Bool) (xs : Bytes) → b ≡ true → length (when b xs) ≡ length xs
length-when true xs h = refl
length-when false xs h = absurd (cc)

-- Each part of a descriptor's bytes is shorter than the whole.
parts :
    (b : Tag) (n : Option Bytes) (e k : Bytes) (argc : ℕ) (args : Bytes) (f : ℕ)
    → length (
        buf_u8 b
        ++ (when (is_named b) (buf_str (string_or_empty n))
            ++ (when (b == type_array || b == type_map) e
                ++ (when (b == type_map) k ++ (buf_u16 argc ++ args)))))
      ≤ suc f
    → ((b == type_array || b == type_map) ≡ true → length e ≤ f)
      × ((b == type_map) ≡ true → length k ≤ f)
      × (length args ≤ f)
parts b n e k argc args f h =
    let whole =
      length-append_six (buf_u8 b) (when (is_named b) (buf_str (string_or_empty n)))
        (when (b == type_array || b == type_map) e) (when (b == type_map) k) (buf_u16 argc) args in
    let one = length-buf_le 1 b in
    (
      λ p. omega (arith, whole, one, length-when (b == type_array || b == type_map) e p),
      λ p. omega (arith, whole, one, length-when (b == type_map) k p),
      omega (arith, whole, one),
    )

mutual
  unfolding deser_typespec deser_fields deser_args ser_typespec ser_args canon canon_args

  pub Reads-typespec :
      (t : TypeSpec) (f : ℕ)
      → length (ser_typespec t) ≤ f
      → SpecFits t
      → Reads (deser_typespec f) (ser_typespec t) (canon t)
  Reads-typespec t zero h fits = absurd (omega (arith, ser_typespec_pos t))
  Reads-typespec null (suc f) h fits = Reads-bind _ (Reads-rd8 0 (omega arith)) (
      Reads-bind _ (Reads-pure none) (
        Reads-bind _ (Reads-pure null) (
          Reads-bind _ (Reads-pure null) (
            Reads-end _ (Reads-rd_le 2 0 (omega arith))
              (Reads-bind _ (Reads-pure Types.TypeSpecs.nil) (Reads-pure _))))))
  Reads-typespec (node b n e k xs) (suc f) h fits =
      let tail = parts b n (ser_typespec e) (ser_typespec k) (arg_count xs) (ser_args xs) f h in
      Reads-bind _ (Reads-rd8 b fits.0) (
        Reads-bind _ (Reads-when (is_named b) none (λ _. Reads-rdstr _ fits.1)) (
          Reads-bind _
            (Reads-when (b == type_array || b == type_map) null
              (λ p. Reads-typespec e f (tail.0 p) fits.2))
            (Reads-bind _
              (Reads-when (b == type_map) null (λ p. Reads-typespec k f (tail.1 p) fits.3))
              (Reads-bind _ (Reads-rd_le 2 (arg_count xs) fits.4)
                (Reads-end _ (Reads-args xs f tail.2 fits.5) (Reads-pure _))))))

  Reads-args :
      (ts : TypeSpecs) (f : ℕ)
      → length (ser_args ts) ≤ f
      → ArgsFit ts
      → Reads (deser_args (arg_count ts) (deser_typespec f)) (ser_args ts) (canon_args ts)
  Reads-args Types.TypeSpecs.nil f h fits = Reads-pure Types.TypeSpecs.nil
  Reads-args (Types.TypeSpecs.cons t ts) f h fits =
      Reads-bind _
        (Reads-typespec t f (omega (arith, length-append (ser_typespec t) (ser_args ts))) fits.0)
        (Reads-end _
          (Reads-args ts f (omega (arith, length-append (ser_typespec t) (ser_args ts))) fits.1)
          (Reads-pure _))
