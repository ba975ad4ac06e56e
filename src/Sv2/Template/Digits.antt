-- ===== src/Sv2/Template/Digits.antt =====
-- How the adapter reads hexadecimal digits.
use mathlib.Core.Option.{some-injective}
use azcoin_stratum_pool.Prelude.{
  ℕ, ◌+◌, ◌*◌, ◌/◌, ◌%◌, ◌<◌, ◌≤◌, ◌⊎◌, String, false, Option, none, some, [], ◌∷◌, ◌++◌, ok,
  length, All, ◌≡◌, ◌≢◌, refl, sym, ap, ◌∙◌, subst, inl, inr, arith, Bool-cases, Option-cases,
  string_eq, nat_eq, ltb,
}
use azcoin_stratum_pool.Prelude.Text.{
  nibble, utf8, as_bytes, trim, trim_start, trim_end, is_whitespace,
}
use Prim.Native.Char.{code}
use azcoin_stratum_pool.PoolCore.Types.{Bytes}
use azcoin_stratum_pool.Sv2.Template.{nibble_at, decode_pairs, decode_hex}

-- Two digits for each byte, read from the left.
unfoldable pub pairs : Bytes → Option Bytes
pairs [] = some []
pairs (x ∷ []) = none
pairs (x ∷ y ∷ rest) = elim (nibble x) [
  | none ↦ none
  | some hi ↦ elim (nibble y) [
    | none ↦ none
    | some lo ↦ elim (pairs rest) [ none ↦ none | some out ↦ some ((hi * 16 + lo) ∷ out) ]
  ]
]

decode_pairs_same :
    (field : String) (i : ℕ) (xs bs : Bytes) → pairs xs ≡ some bs → decode_pairs field i xs ≡ ok bs
unfolding decode_pairs pairs nibble_at
decode_pairs_same field i [] bs h = ap ok (some-injective _ _ h)
decode_pairs_same field i (x ∷ []) bs h = cc
decode_pairs_same field i (x ∷ y ∷ rest) bs h = elim (Option-cases (nibble x)) [
  | inl e ↦ absurd (ground (arith, h, e))
  | inr (hi, e) ↦ elim (Option-cases (nibble y)) [
    | inl f ↦ absurd (ground (arith, h, e, f))
    | inr (lo, f) ↦ elim (Option-cases (pairs rest)) [
      | inl g ↦ absurd (ground (arith, h, e, f, g))
      | inr (out, g) ↦
          let same : (hi * 16 + lo) ∷ out ≡ bs = ground (arith, h, e, f, g) in
          rw (e, decode_pairs)
            (rw (f) (rw (decode_pairs_same field (i + 2) rest out g) (ap ok same)))
    ]
  ]
]

IsDigit : ℕ → Type 0
IsDigit c = (n : ℕ) × (nibble c ≡ some n)

-- A digit is an ASCII character and no blank.
IsDigit-small : (c : ℕ) → IsDigit c → c < 0x80
unfolding IsDigit nibble
IsDigit-small c (n, h) = ground (arith, h)

IsDigit-visible : (c : ℕ) → IsDigit c → is_whitespace c ≡ false
unfolding IsDigit nibble
IsDigit-visible c (n, h) = ground (arith, h)

pairs-IsDigit : (xs bs : Bytes) → pairs xs ≡ some bs → All IsDigit xs
unfolding pairs IsDigit
pairs-IsDigit [] bs h = tt
pairs-IsDigit (x ∷ []) bs h = cc
pairs-IsDigit (x ∷ y ∷ rest) bs h = elim (Option-cases (nibble x)) [
  | inl e ↦ absurd (ground (arith, h, e))
  | inr (hi, e) ↦ elim (Option-cases (nibble y)) [
    | inl f ↦ absurd (ground (arith, h, e, f))
    | inr (lo, f) ↦ elim (Option-cases (pairs rest)) [
      | inl g ↦ absurd (ground (arith, h, e, f, g))
      | inr (out, g) ↦ ((hi, e), ((lo, f), pairs-IsDigit rest out g))
    ]
  ]
]

-- A text without blanks.
Visible : String → Type 0
Visible String.[] = Unit
Visible (String.◌∷◌ c s) = (is_whitespace (code c) ≡ false) × Visible s

-- A character is one byte, or its first byte is not ASCII.
utf8_cases : (c : ℕ) → (utf8 c ≡ c ∷ []) ⊎ ((x : ℕ) × (xs : Bytes) × (0x80 ≤ x) × (utf8 c ≡ x ∷ xs))
utf8_cases c = elim (Bool-cases (ltb c 0x80)) [
  | inl e ↦ inl (rw (e) refl)
  | inr e ↦ elim (Bool-cases (ltb c 0x800)) [
    | inl f ↦ inr (0xc0 + c / 64, (0x80 + c % 64) ∷ [], omega arith, rw (e) (rw (f) refl))
    | inr f ↦ elim (Bool-cases (ltb c 0x10000)) [
      | inl g ↦ inr (
        0xe0 + c / 4096,
        (0x80 + c / 64 % 64) ∷ (0x80 + c % 64) ∷ [],
        omega arith,
        rw (e) (rw (f) (rw (g) refl)),
      )
      | inr g ↦ inr (
        0xf0 + c / 262144,
        (0x80 + c / 4096 % 64) ∷ (0x80 + c / 64 % 64) ∷ (0x80 + c % 64) ∷ [],
        omega arith,
        rw (e) (rw (f) (rw (g) refl)),
      )
    ]
  ]
]

utf8-IsDigit : (c : ℕ) (rest : Bytes) → All IsDigit (utf8 c ++ rest) → IsDigit c × All IsDigit rest
utf8-IsDigit c rest h = elim (utf8_cases c) [
  | inl e ↦ subst (λ bs. All IsDigit (bs ++ rest)) e h
  | inr (x, xs, large, e) ↦
      let h' : All IsDigit ((x ∷ xs) ++ rest) = subst (λ bs. All IsDigit (bs ++ rest)) e h in
      absurd (omega (arith, large, IsDigit-small x h'.0))
]

as_bytes-Visible : (s : String) → All IsDigit (as_bytes s) → Visible s
unfolding Visible
as_bytes-Visible String.[] h = tt
as_bytes-Visible (String.◌∷◌ c s) h =
    let (here, there) = utf8-IsDigit (code c) (as_bytes s) h in
    (IsDigit-visible (code c) here, as_bytes-Visible s there)

trim_end-Visible : (s : String) → Visible s → trim_end s ≡ s
unfolding Visible trim_end
trim_end-Visible String.[] h = refl
trim_end-Visible (String.◌∷◌ c s) (here, rest) =
    rw (here, trim_end) (ap (String.◌∷◌ c) (trim_end-Visible s rest))

trim-Visible : (s : String) → Visible s → trim s ≡ s
unfolding Visible trim trim_start
trim-Visible String.[] h = trim_end-Visible String.[] tt
trim-Visible (String.◌∷◌ c s) (here, rest) =
    rw (here, trim_start) (trim_end-Visible (String.◌∷◌ c s) (here, rest))

pairs-length : (xs bs : Bytes) → pairs xs ≡ some bs → length xs ≡ 2 * length bs
unfolding pairs
pairs-length [] bs h =
    let e : [] ≡ bs = some-injective _ _ h in subst (λ b. 0 ≡ 2 * length b) e (omega arith)
pairs-length (x ∷ []) bs h = cc
pairs-length (x ∷ y ∷ rest) bs h = elim (Option-cases (nibble x)) [
  | inl e ↦ absurd (ground (arith, h, e))
  | inr (hi, e) ↦ elim (Option-cases (nibble y)) [
    | inl f ↦ absurd (ground (arith, h, e, f))
    | inr (lo, f) ↦ elim (Option-cases (pairs rest)) [
      | inl g ↦ absurd (ground (arith, h, e, f, g))
      | inr (out, g) ↦
          let same : (hi * 16 + lo) ∷ out ≡ bs = ground (arith, h, e, f, g) in
          subst (λ b. length (x ∷ y ∷ rest) ≡ 2 * length b) same
            (omega (arith, pairs-length rest out g))
    ]
  ]
]

-- The adapter reads a text of digits as its pairs.
pub decode_hex-pairs :
    (s field : String) (bs : Bytes) → pairs (as_bytes s) ≡ some bs → decode_hex s field ≡ ok bs
unfolding decode_hex
decode_hex-pairs s field bs h =
    let whole = trim-Visible s (as_bytes-Visible s (pairs-IsDigit (as_bytes s) bs h)) in
    let even : length (as_bytes s) % 2 ≡ 0 = omega (arith, pairs-length (as_bytes s) bs h) in
    rw (whole, decode_hex)
      (rw ((nat_eq.test_iff (length (as_bytes s) % 2) 0).1 even)
        (decode_pairs_same field 0 (as_bytes s) bs h))

-- A text that gives a byte is not blank.
pub pairs_not_blank :
    (s : String) (bs : Bytes) → pairs (as_bytes s) ≡ some bs → 0 < length bs → trim s ≢ ""
pairs_not_blank s bs h some_byte blank =
    let whole = trim-Visible s (as_bytes-Visible s (pairs-IsDigit (as_bytes s) bs h)) in
    let empty : length (as_bytes s) ≡ 0 = ap (λ t. length (as_bytes t)) (sym whole ∙ blank) in
    omega (arith, empty, some_byte, pairs-length (as_bytes s) bs h)
