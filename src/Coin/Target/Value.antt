-- ===== src/Coin/Target/Value.antt =====
-- The targets as numbers.
use azcoin_stratum_pool.Prelude.{
  ℕ, zero, suc, ◌+◌, ◌-◌, ◌*◌, ◌/◌, ◌%◌, ◌^◌, ◌≤◌, ◌<◌, true, false, [], ◌∷◌, ltb, leb, length,
  length-replicate, lt→ltb, set, replicate, bit_or, max, if◌then◌else◌, ◌≡◌, ◌↔◌, refl, ◌∙◌, ap,
  arith, All, Bool-cases, inl, inr,
}
use azcoin_stratum_pool.Prelude.Words.{
  IsByte, be_value, be_value-lt, be_value-zeros, or_shifted, sub64,
}
use native.Mathlib.Nat.{pow-suc, div-add-mod, mod-eq_of_lt, mod-lt}
use azcoin_stratum_pool.PoolCore.Types.{Bytes}
use azcoin_stratum_pool.Coin.Target.{
  exponent_of, mantissa_of, small_target, large_target, nbits_to_target, div_loop,
  div_target_by_difficulty, leq_be,
}

-- The heads decide, whatever the tails.
head_decides : (x y p s t : ℕ) → x < y → s < p → x * p + s < y * p + t
head_decides x y p s t h k =
    let step : (x + 1) * p ≤ y * p = grind (arith, h) in omega (arith, step)

-- `leq_be` is the order of the numbers that two byte strings of one length stand for.
pub leq_be_iff :
    (a b : Bytes)
    → length a ≡ length b
    → All IsByte a
    → All IsByte b
    → (leq_be a b ≡ true) ↔ (be_value a ≤ be_value b)
unfolding leq_be be_value
leq_be_iff [] [] n ha hb = (λ _. omega arith, λ _. refl)
leq_be_iff [] (y ∷ b) n ha hb = absurd (omega arith)
leq_be_iff (x ∷ a) [] n ha hb = absurd (omega arith)
leq_be_iff (x ∷ a) (y ∷ b) n ha hb =
    let n' : length b ≡ length a = omega arith in
    let (sound, complete) = leq_be_iff a b (omega arith) ha.1 hb.1 in
    let low = be_value-lt a ha.1 in
    let low' : be_value b < 256 ^ length a = rw n' at (be_value-lt b hb.1) in
    rw n' (
      ground (
        arith,
        head_decides x y (256 ^ length a) (be_value a) (be_value b),
        head_decides y x (256 ^ length a) (be_value b) (be_value a),
        low,
        low',
        sound,
        complete,
      ),
      ground (
        arith,
        head_decides x y (256 ^ length a) (be_value a) (be_value b),
        head_decides y x (256 ^ length a) (be_value b) (be_value a),
        low,
        low',
        sound,
        complete,
      ),
    )

digit_bound : (d r b : ℕ) → r < d → b < 256 → r * 256 + b < 256 * d
digit_bound d r b h hb = omega arith

digit_lem : (v d : ℕ) → v < 256 * d → (v / d % 256 * d + v % d ≡ v) × (v % d < d)
digit_lem v d h =
    let parts = div-add-mod v d in
    let small : v / d < 256 = grind (arith, parts) in
    (rw (mod-eq_of_lt small) (omega (arith, parts)), mod-lt v (omega arith))

-- One digit of the division fits a byte, and leaves the rest of `value`.
div_step :
    (d r b : ℕ)
    → r < d
    → d < 2 ^ 32
    → b < 256
    → let value = bit_or (r * 2 ^ 8 % 2 ^ 64) b in
      (value / d % 256 * d + value % d ≡ r * 256 + b) × (value % d < d)
div_step d r b h k hb =
    let value : bit_or (r * 2 ^ 8 % 2 ^ 64) b ≡ r * 256 + b =
      ap (λ (n : ℕ). bit_or n b) {y = r * 2 ^ 8} (omega arith) ∙ or_shifted 8 r b (omega arith) in
    rw value (digit_lem (r * 256 + b) d (omega (arith, digit_bound d r b h hb)))

combine :
    (d p q m r b x s r' : ℕ)
    → q * d + m ≡ r * 256 + b
    → x * d + r' ≡ m * p + s
    → (q * p + x) * d + r' ≡ r * (p * 256) + (b * p + s)
combine d p q m r b x s r' h k = omega (arith, ap (λ (t : ℕ). t * p) h, k)

length-div_loop : (d r : ℕ) (bs : Bytes) → length (div_loop d r bs) ≡ length bs
unfolding div_loop
length-div_loop d r [] = refl
length-div_loop d r (b ∷ bs) = ap suc (length-div_loop d (bit_or (r * 2 ^ 8 % 2 ^ 64) b % d) bs)

div_loop_value :
    (d r : ℕ) (bs : Bytes)
    → r < d
    → d < 2 ^ 32
    → All IsByte bs
    → (r' : ℕ) × (r' < d)
      × (be_value (div_loop d r bs) * d + r' ≡ r * 256 ^ length bs + be_value bs)
unfolding div_loop be_value
div_loop_value d r [] h k hb = (r, h, omega arith)
div_loop_value d r (b ∷ bs) h k hb =
    let value = bit_or (r * 2 ^ 8 % 2 ^ 64) b in
    let (digit, small) = div_step d r b h k hb.0 in
    let (r', below, rest) = div_loop_value d (value % d) bs small k hb.1 in
    (
      r',
      below,
      rw (length-div_loop d (value % d) bs, pow-suc 256 (length bs))
          (combine d (256 ^ length bs) (value / d % 256) (value % d) r b _ (be_value bs) r' digit
            rest),
    )

quotient_unique : (d x r v : ℕ) → r < d → x * d + r ≡ v → x ≡ v / d
quotient_unique d x r v h e = grind (arith, div-add-mod v d, mod-lt v {m = d} (omega arith))

-- For a target of bytes and a difficulty of 32 bits, `div_target_by_difficulty` is the integer
-- quotient of the target by the difficulty, a difficulty of zero counting as one; the result has as many bytes.
pub div_target_value :
    (target : Bytes) (difficulty : ℕ)
    → All IsByte target
    → difficulty < 2 ^ 32
    → (be_value (div_target_by_difficulty target difficulty) ≡ be_value target / max difficulty 1)
      × (length (div_target_by_difficulty target difficulty) ≡ length target)
unfolding div_target_by_difficulty
div_target_value target difficulty ht hd = elim (Bool-cases (leb difficulty 1)) [
  | inl easy ↦ rw easy (ground arith, refl)
  | inr hard ↦
      let (r', below, e) = div_loop_value difficulty 0 target (ground arith) hd ht in
      rw hard (
        quotient_unique difficulty _ r' (be_value target) below (e ∙ omega arith)
            ∙ ap (λ (n : ℕ). be_value target / n) (ground arith),
        length-div_loop difficulty 0 target,
      )
]

-- Three bytes written in a row into zeros, `k` places above the end.
three_bytes : ℕ → ℕ → ℕ → ℕ → ℕ → Bytes
three_bytes n o a b c = set (set (set (replicate n 0) o a) (suc o) b) (suc (suc o)) c

three_bytes_value :
    (n o k a b c : ℕ)
    → n ≡ o + suc (suc (suc k))
    → be_value (three_bytes n o a b c) ≡ (a * 65536 + b * 256 + c) * 256 ^ k
unfolding three_bytes be_value
three_bytes_value zero o k a b c h = absurd (omega arith)
three_bytes_value (suc n) zero k a b c h =
    let n_eq : n ≡ suc (suc k) = omega arith in
    rw n_eq (
      rw (length-replicate {A = ℕ} k 0, be_value-zeros k)
        (rw (pow-suc 256 (suc k), pow-suc 256 k) (omega arith)))
three_bytes_value (suc n) (suc o) k a b c h =
    omega (arith, three_bytes_value n o k a b c (omega arith))

large_target_value :
    (e m : ℕ) → 3 < e → e ≤ 32 → m < 2 ^ 24 → be_value (large_target e m) ≡ m * 256 ^ (e - 3)
unfolding large_target three_bytes
large_target_value e m h k hm =
    let offset : sub64 (sub64 32 (e - 3)) 3 ≡ 32 - e = omega arith in
    let next : 32 - e + 1 ≡ suc (32 - e) = omega arith in
    let last : 32 - e + 2 ≡ suc (suc (32 - e)) = omega arith in
    rw offset (
      rw (next, last)
        (rw
          (
            lt→ltb (32 - e) 32 (omega arith),
            lt→ltb (suc (32 - e)) 32 (omega arith),
            lt→ltb (suc (suc (32 - e))) 32 (omega arith),
          )
          (three_bytes_value 32 (32 - e) (e - 3) (m / 2 ^ 16 % 256) (m / 2 ^ 8 % 256) (m % 256)
              (omega arith)
            ∙ ap (λ (t : ℕ). t * 256 ^ (e - 3)) (omega arith))))

small_target_value :
    (e m : ℕ) → e ≤ 3 → m < 2 ^ 24 → be_value (small_target e m) ≡ m * 256 ^ (3 - e) % 2 ^ 32
unfolding small_target be_value
small_target_value zero m h k = omega arith
small_target_value (suc zero) m h k = omega arith
small_target_value (suc (suc zero)) m h k = omega arith
small_target_value (suc (suc (suc zero))) m h k = omega arith
small_target_value (suc (suc (suc (suc e)))) m h k = absurd (omega arith)

huge_target_value : (e m : ℕ) → 32 < e → e < 256 → be_value (large_target e m) ≡ 0
unfolding large_target
huge_target_value e m h k =
    let outside : ltb (sub64 (sub64 32 (e - 3)) 3) 32 ≡ false = ground arith in
    rw outside (be_value-zeros 32)

-- For bits of 32 bits the exponent and the mantissa give the number of the target. For an exponent of 3 or less the
-- mantissa is moved up by 3 - exponent bytes and cut to four bytes; from 4 to 32 it is
-- mantissa * 256 ^ (exponent - 3); above 32 the target is zero.
pub nbits_to_target_value :
    (nbits : ℕ)
    → nbits < 2 ^ 32
    → let e = exponent_of nbits in
      let m = mantissa_of nbits in
      be_value (nbits_to_target nbits)
      ≡ (if leb e 3 then m * 256 ^ (3 - e) % 2 ^ 32 else if leb e 32 then m * 256 ^ (e - 3) else 0)
unfolding nbits_to_target
nbits_to_target_value nbits h =
    let e = exponent_of nbits in
    let m = mantissa_of nbits in
    let bound : m < 2 ^ 24 = omega arith in
    ground (arith, small_target_value e m, large_target_value e m, huge_target_value e m, bound)
