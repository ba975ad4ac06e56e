-- ===== src/Prelude/Numerals.antt =====
-- What is written by `{:08x}` and `to_string` is read back.
use Prim.Native.Char.{code, len_utf8}
use Prim.Native.Nat.{ℕ, zero, suc, ◌+◌, ◌*◌, ◌/◌, ◌%◌, ◌^◌, ◌<◌}
use Prim.Native.String.{String, len}
use Prim.Native.String.len
use mathlib.Core.Path.{◌≡◌, refl, ◌∙◌, ap}
use mathlib.Core.Bool.{Bool, true, false, ◌&&◌}
use mathlib.Core.List.{List, ◌∷◌}
use mathlib.Core.Option.{none, some}
use native.Mathlib.Omega.{arith}
use native.Mathlib.Nat.{pow-suc}
use azcoin_stratum_pool.Prelude.Tests.{◌==◌, lt→ltb}
use azcoin_stratum_pool.Prelude.Text.{
  codes, hex_digit, hex_onto, hex08, nibble, read_digits, strip_plus, u32_from_hex,
}

-- Every value below `n` passes a test.
unfoldable pub holds_below : ℕ → (ℕ → Bool) → Bool
holds_below zero test = true
holds_below (suc bound) test = test bound && holds_below bound test

pub holds_at :
    (bound : ℕ) (test : ℕ → Bool) (i : ℕ)
    → holds_below bound test ≡ true
    → i < bound
    → test i ≡ true
unfolding holds_below
holds_at zero test i all below = absurd (omega arith)
holds_at (suc bound) test i all below = ground (arith, holds_at bound test i)

digit_reads : ℕ → Bool
digit_reads d = elim (nibble (code (hex_digit d))) [
  | none ↦ false
  | some e ↦ e == d && len_utf8 (hex_digit d) == 1
]

digit_table : holds_below 16 digit_reads ≡ true
unfolding holds_below digit_reads nibble hex_digit
digit_table = refl

digit_lem : (d : ℕ) → d < 16 → (nibble (code (hex_digit d)) ≡ some d) × (len_utf8 (hex_digit d) ≡ 1)
unfolding digit_reads
digit_lem d h = ground (arith, holds_at 16 digit_reads d digit_table h)

times_sixteen : (a p : ℕ) → a * p * 16 ≡ a * (16 * p)
times_sixteen a p = grind arith

read-hex_onto :
    (k n acc : ℕ) (s : String)
    → n < 16 ^ k
    → read_digits 16 acc (codes (hex_onto k n s)) ≡ read_digits 16 (acc * 16 ^ k + n) (codes s)
unfolding hex_onto read_digits
read-hex_onto zero n acc s h = ap (λ m. read_digits 16 m (codes s)) (omega arith)
read-hex_onto (suc k) n acc s h =
    read-hex_onto k (n / 16) acc (String.◌∷◌ (hex_digit (n % 16)) s) (omega (arith, pow-suc 16 k))
    ∙ rw (read_digits, (digit_lem (n % 16) (omega arith)).0)
        (ap (λ m. read_digits 16 m (codes s))
          (ground (arith, pow-suc 16 k, times_sixteen acc (16 ^ k))))

len-hex_onto : (k n : ℕ) (s : String) → len (hex_onto k n s) ≡ k + len s
unfolding hex_onto
len-hex_onto zero n s = omega arith
len-hex_onto (suc k) n s = omega (
  arith,
  len-hex_onto k (n / 16) (String.◌∷◌ (hex_digit (n % 16)) s),
  len.cons (hex_digit (n % 16)) s,
  (digit_lem (n % 16) (omega arith)).1,
)

pub len-hex08 : (n : ℕ) → len (hex08 n) ≡ 8
unfolding hex08
len-hex08 n = len-hex_onto 8 n ""

strip_plus-read :
    (c : ℕ) (cs : List ℕ) (n : ℕ)
    → read_digits 16 0 (c ∷ cs) ≡ some n
    → strip_plus (c ∷ cs) ≡ c ∷ cs
unfolding strip_plus read_digits nibble
strip_plus-read c cs n r = ground arith

u32_from_hex-read :
    (s : String) (c : ℕ) (cs : List ℕ) (n : ℕ)
    → codes s ≡ c ∷ cs
    → read_digits 16 0 (c ∷ cs) ≡ some n
    → n < 2 ^ 32
    → u32_from_hex s ≡ some n
unfolding u32_from_hex
u32_from_hex-read s c cs n e r h =
    rw (e, u32_from_hex) (rw (strip_plus-read c cs n r) (rw r (rw (lt→ltb n (2 ^ 32) h))))

-- `from_str_radix` reads back the eight digits of `{:08x}`.
pub u32_from_hex-hex08 : (n : ℕ) → n < 2 ^ 32 → u32_from_hex (hex08 n) ≡ some n
unfolding hex08 read_digits
u32_from_hex-hex08 n h =
    u32_from_hex-read (hex08 n) _ _ n refl (read-hex_onto 8 n 0 "" h ∙ ap some (omega arith)) h
