-- ===== src/Coin/Target/Shape.antt =====
-- Every target is 32 bytes.
use azcoin_stratum_pool.Prelude.{
  ℕ, ◌*◌, ◌%◌, ◌^◌, Bool, [], ◌∷◌, leb, length, set, length-set, replicate, All, All-set,
  All-replicate, ◌≡◌, refl, ◌∙◌, true, false, bit_or, arith, Bool-cases, inl, inr, if◌then◌else◌,
}
use azcoin_stratum_pool.Prelude.Words.{IsByte}
use azcoin_stratum_pool.PoolCore.Types.{Bytes}
use azcoin_stratum_pool.Coin.Target.{
  small_target, large_target, nbits_to_target, div_loop, div_target_by_difficulty,
}

-- An array of 32 bytes.
pub record IsHash (bs : Bytes) : Type 0 where
  pub size : length bs ≡ 32
  pub bytes : All IsByte bs

set-IsHash : (bs : Bytes) (i v : ℕ) → IsHash bs → IsHash (set bs i (v % 256))
set-IsHash bs i v h = record {
  size = length-set bs i (v % 256) ∙ h.size;
  bytes = All-set IsByte bs i (v % 256) h.bytes (omega arith);
}

zeros-IsHash : IsHash (replicate 32 0)
zeros-IsHash = record { size = refl; bytes = All-replicate IsByte 32 0 (omega arith) }

if-IsHash : (c : Bool) (a b : Bytes) → IsHash a → IsHash b → IsHash (if c then a else b)
if-IsHash c a b ha hb = elim c as (λ c. IsHash (if c then a else b)) [ true ↦ ha | false ↦ hb ]

ruleset shapes = (set-IsHash, zeros-IsHash, if-IsHash)

pub nbits_to_target-IsHash : (nbits : ℕ) → IsHash (nbits_to_target nbits)
unfolding nbits_to_target small_target large_target
nbits_to_target-IsHash nbits = search shapes depth 12

div_loop-IsByte : (d r : ℕ) (bs : Bytes) → All IsByte (div_loop d r bs)
unfolding div_loop
div_loop-IsByte d r [] = tt
div_loop-IsByte d r (b ∷ bs) =
    (omega arith, div_loop-IsByte d (bit_or (r * 2 ^ 8 % 2 ^ 64) b % d) bs)

pub div_target-IsByte :
    (target : Bytes) (difficulty : ℕ)
    → All IsByte target
    → All IsByte (div_target_by_difficulty target difficulty)
unfolding div_target_by_difficulty
div_target-IsByte target difficulty h = elim (Bool-cases (leb difficulty 1)) [
  | inl easy ↦ rw easy h
  | inr hard ↦ rw hard (div_loop-IsByte difficulty 0 target)
]
