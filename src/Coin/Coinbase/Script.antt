-- ===== src/Coin/Coinbase/Script.antt =====
-- The script that the builder writes, read back by an interpreter of script pushes.
use azcoin_stratum_pool.Prelude.{
  ℕ, zero, suc, ◌+◌, ◌*◌, ◌/◌, ◌%◌, ◌^◌, ◌≤◌, ◌<◌, true, false, not, Option, none, some, [], ◌∷◌,
  ◌++◌, leb, ltb, length, length-append, take, drop, bit_and, if◌then◌else◌, nat_eq, ◌==◌, ◌≡◌,
  refl, ap, ◌∙◌, arith, inl, inr, Bool-cases, take-append_length, drop-append_length,
}
use mathlib.Core.List.{append_assoc}
use native.Mathlib.Decide.{dec_le}
use native.Mathlib.Nat.{pow-suc}
use azcoin_stratum_pool.Prelude.Words.{le_bytes, le_value}
use azcoin_stratum_pool.Prelude.Numerals.{holds_below, holds_at}
use azcoin_stratum_pool.PoolCore.Types.{Bytes}
use azcoin_stratum_pool.Coin.Coinbase.{
  script_num_loop, last_is_negative, encode_script_num, push_prefix, push_data,
}

-- A script number: little-endian, with the sign in the top bit of the last byte. Negative numbers
-- are not read here.
unfoldable pub decode_script_num : Bytes → Option ℕ
decode_script_num bs = if last_is_negative bs then none else some (le_value bs)

-- `len` bytes of `rest`, where there are so many.
read_data : ℕ → Bytes → Option (Bytes × Bytes)
read_data len rest = if leb len (length rest) then some (take len rest, drop len rest) else none

-- The data of the push that a script begins with, and what follows it.
unfoldable pub read_push : Bytes → Option (Bytes × Bytes)
unfolding read_data
read_push [] = none
read_push (op ∷ rest) =
    if leb op 0x4b
    then read_data op rest
    else if op == 0x4c
    then read_data (le_value (take 1 rest)) (drop 1 rest)
    else if op == 0x4d
    then read_data (le_value (take 2 rest)) (drop 2 rest)
    else if op == 0x4e
    then read_data (le_value (take 4 rest)) (drop 4 rest)
    else none

read_data-append :
    (input rest : Bytes) (n : ℕ)
    → n ≡ length input
    → read_data n (input ++ rest) ≡ some (input, rest)
unfolding read_data
read_data-append input rest n h =
    let fits : leb (length input) (length (input ++ rest)) ≡ true =
      ground (arith, length-append input rest) in
    rw h (rw fits (rw (take-append_length input rest, drop-append_length input rest)))

prefix_direct : (n : ℕ) → n ≤ 75 → push_prefix n ≡ n ∷ []
unfolding push_prefix
prefix_direct n h = ground arith

prefix_one : (n : ℕ) → 75 < n → n ≤ 255 → push_prefix n ≡ 0x4c ∷ n ∷ []
unfolding push_prefix
prefix_one n h k = ground arith

prefix_two : (n : ℕ) → 255 < n → n ≤ 65535 → push_prefix n ≡ 0x4d ∷ le_bytes 2 n
unfolding push_prefix
prefix_two n h k = let cut : n % 2 ^ 16 ≡ n = omega arith in ground (arith, ap (le_bytes 2) cut)

prefix_four : (n : ℕ) → 65535 < n → n < 2 ^ 32 → push_prefix n ≡ 0x4e ∷ le_bytes 4 n
unfolding push_prefix
prefix_four n h k = let cut : n % 2 ^ 32 ≡ n = omega arith in ground (arith, ap (le_bytes 4) cut)

read_direct : (n : ℕ) (rest : Bytes) → n ≤ 75 → read_push (n ∷ rest) ≡ read_data n rest
unfolding read_push
read_direct n rest h = ground arith

-- Data of less than 2 ^ 32 bytes is read back from its push, whatever follows.
pub read_push-push_data :
    (input rest : Bytes)
    → length input < 2 ^ 32
    → read_push (push_data [] input ++ rest) ≡ some (input, rest)
unfolding push_data read_push le_bytes le_value
read_push-push_data input rest h =
    ap read_push (append_assoc (push_prefix (length input)) input rest) ∙ go (length input) refl h
  where
    go :
        (n : ℕ)
        → n ≡ length input
        → n < 2 ^ 32
        → read_push (push_prefix n ++ (input ++ rest)) ≡ some (input, rest)
    go n e k = elim (dec_le n 75) [
      | yes direct ↦
          rw (prefix_direct n direct)
            (read_direct n (input ++ rest) direct ∙ read_data-append input rest n e)
      | no over ↦ elim (dec_le n 255) [
        | yes one ↦
            rw (prefix_one n (omega arith) one)
              (read_data-append input rest (n + 256 * 0) (omega arith))
        | no over_one ↦ elim (dec_le n 65535) [
          | yes two ↦
              rw (prefix_two n (omega arith) two) (read_data-append input rest _ (omega arith))
          | no over_two ↦
              rw (prefix_four n (omega arith) k) (read_data-append input rest _ (omega arith))
        ]
      ]
    ]

negative_table :
    holds_below 256 (λ b. if not (bit_and b 0x80 == 0) then leb 128 b else ltb b 128) ≡ true
unfolding holds_below
negative_table = refl

top_bit : (b : ℕ) → b < 256 → (bit_and b 0x80 == 0) ≡ ltb b 128
top_bit b h = ground (
  arith,
  holds_at 256 (λ b. if not (bit_and b 0x80 == 0) then leb 128 b else ltb b 128) b negative_table h,
)

script_num_loop_value : (fuel n : ℕ) → n < 256 ^ fuel → le_value (script_num_loop fuel n) ≡ n
unfolding script_num_loop le_value
script_num_loop_value zero n h = omega arith
script_num_loop_value (suc fuel) n h =
    let rest = script_num_loop_value fuel (n / 256) (omega (arith, pow-suc 256 fuel)) in
    ground (arith, rest)

le_value-zero_byte : (bs : Bytes) → le_value (bs ++ (0 ∷ [])) ≡ le_value bs
unfolding le_value
le_value-zero_byte [] = refl
le_value-zero_byte (b ∷ bs) = omega (arith, le_value-zero_byte bs)

last_is_negative-zero_byte : (bs : Bytes) → last_is_negative (bs ++ (0 ∷ [])) ≡ false
unfolding last_is_negative
last_is_negative-zero_byte [] = refl
last_is_negative-zero_byte (b ∷ []) = refl
last_is_negative-zero_byte (b ∷ c ∷ bs) = last_is_negative-zero_byte (c ∷ bs)

read_back :
    (bs : Bytes) (v : ℕ)
    → last_is_negative bs ≡ false
    → le_value bs ≡ v
    → decode_script_num bs ≡ some v
unfolding decode_script_num
read_back bs v positive h = rw positive (ap some h)

-- Every `u64` is encoded as a script number that reads back as itself, and never as a negative one.
pub decode-encode_script_num :
    (v : ℕ) → v < 2 ^ 64 → decode_script_num (encode_script_num v) ≡ some v
unfolding encode_script_num last_is_negative le_value
decode-encode_script_num v h = elim (Bool-cases (v == 0)) [
  | inl is_zero ↦ rw is_zero (read_back [] v refl (ground arith))
  | inr nonzero ↦ elim (Bool-cases (last_is_negative (script_num_loop 8 v))) [
    | inl high ↦
        rw (nonzero, high)
          (read_back (script_num_loop 8 v ++ (0 ∷ [])) v
            (last_is_negative-zero_byte (script_num_loop 8 v))
            (le_value-zero_byte (script_num_loop 8 v) ∙ script_num_loop_value 8 v h))
    | inr low ↦
        rw (nonzero, low) (read_back (script_num_loop 8 v) v low (script_num_loop_value 8 v h))
  ]
]

script_num_loop_short : (fuel n : ℕ) → length (script_num_loop fuel n) ≤ fuel
unfolding script_num_loop
script_num_loop_short zero n = ground arith
script_num_loop_short (suc fuel) n = ground (arith, script_num_loop_short fuel (n / 2 ^ 8))

pub encode_script_num_short : (v : ℕ) → length (encode_script_num v) ≤ 9
unfolding encode_script_num
encode_script_num_short v = elim (Bool-cases (v == 0)) [
  | inl is_zero ↦ rw is_zero (ground arith)
  | inr nonzero ↦ elim (Bool-cases (last_is_negative (script_num_loop 8 v))) [
    | inl high ↦
        rw (nonzero, high)
          (omega (arith, script_num_loop_short 8 v, length-append (script_num_loop 8 v) (0 ∷ [])))
    | inr low ↦ rw (nonzero, low) (omega (arith, script_num_loop_short 8 v))
  ]
]
