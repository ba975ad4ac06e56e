-- ===== src/Coin/Coinbase/NumberLoop.antt =====
-- The loop of `encode_script_num`, as it pushes one byte after the other.
use azcoin_stratum_pool.Prelude.{
  ℕ, zero, suc, ◌/◌, ◌%◌, ◌^◌, ◌<◌, Bool, [], ◌∷◌, ◌++◌, ltb, ◌≡◌, refl, subst, ap, ◌∙◌, ◌↔◌, arith,
  inl, inr, Bool-cases,
}
use azcoin_stratum_pool.Prelude.While.{While, ends_only}
use azcoin_stratum_pool.PoolCore.Types.{Bytes}
use azcoin_stratum_pool.Coin.Coinbase.{script_num_loop}
use mathlib.Core.List.{append_assoc, append-nil}
use native.Mathlib.Nat.{pow-suc}

-- The variables of the loop.
pub record Encoding : Type 0 where
  pub encoded : Bytes
  pub remaining : ℕ

unfoldable pub is_left : Encoding → Bool
is_left s = ltb 0 s.remaining

-- `encoded.push((remaining & 0xff) as u8); remaining >>= 8`
unfoldable pub push_byte : Encoding → Encoding
push_byte s = record {
  encoded = s.encoded ++ (s.remaining % 256 ∷ []);
  remaining = s.remaining / 2 ^ 8;
}

ended :
    (remaining : ℕ) (encoded : Bytes)
    → remaining ≡ 0
    → While is_left push_byte
        (record { encoded = encoded ++ []; remaining = 0 })
        (record { encoded = encoded; remaining = remaining })
unfolding is_left
ended remaining encoded e =
    let same : ◌≡◌ {A = Encoding} (record { encoded = encoded ++ []; remaining = 0 })
        (record { encoded = encoded; remaining = remaining }) =
      rw (append-nil encoded, e) refl in
    While.stop _ (ground (arith, e)) same

script_num_loop-While :
    (fuel remaining : ℕ) (encoded : Bytes)
    → remaining < 256 ^ fuel
    → While is_left push_byte
        (record { encoded = encoded ++ script_num_loop fuel remaining; remaining = 0 })
        (record { encoded = encoded; remaining = remaining })
unfolding script_num_loop is_left push_byte
script_num_loop-While zero remaining encoded h = ended remaining encoded (omega arith)
script_num_loop-While (suc fuel) remaining encoded h = elim (Bool-cases (ltb 0 remaining)) [
  | inl more ↦
      let next =
        script_num_loop-While fuel (remaining / 256) (encoded ++ (remaining % 256 ∷ []))
          (omega (arith, pow-suc 256 fuel)) in
      While.round _ more (
        subst
          (λ bs.
            While is_left push_byte (record { encoded = bs; remaining = 0 })
              (push_byte (record { encoded = encoded; remaining = remaining })))
          (append_assoc encoded (remaining % 256 ∷ []) (script_num_loop fuel (remaining / 256))
            ∙ ap (λ bs. encoded ++ bs) (rw more refl))
          next)
  | inr over ↦ rw over (ended remaining encoded (ground (arith, over)))
]

-- For a number of 64 bits the loop `while remaining > 0` ends, with nothing left and with the bytes that
-- `script_num_loop` gives in eight rounds, and in no other way.
pub script_num_loop-Ends :
    (value : ℕ) (final : Encoding)
    → value < 2 ^ 64
    → While is_left push_byte final (record { encoded = []; remaining = value })
      ↔ (final ≡ record { encoded = script_num_loop 8 value; remaining = 0 })
script_num_loop-Ends value final h =
    ends_only is_left push_byte _ _ final (script_num_loop-While 8 value [] (omega arith))
