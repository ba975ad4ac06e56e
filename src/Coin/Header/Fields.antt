-- ===== src/Coin/Header/Fields.antt =====
-- The layout of the 80 bytes.
use azcoin_stratum_pool.Prelude.{
  ℕ, ◌+◌, ◌^◌, ◌<◌, ◌++◌, length, take, drop, length-append, take-append_length, drop-append_length,
  ◌≡◌, refl, ap, ◌∙◌, arith, [], subst,
}
use mathlib.Core.List.{append_assoc}
use azcoin_stratum_pool.Prelude.Words.{le_bytes, le_value, length-le_bytes, le_value-le_bytes}
use azcoin_stratum_pool.PoolCore.Types.{Bytes}
use azcoin_stratum_pool.Coin.Header.{build_block_header}

-- A field of `n` bytes in front of `rest`.
take_field : (n : ℕ) (xs rest : Bytes) → length xs ≡ n → take n (xs ++ rest) ≡ xs
take_field n xs rest h = subst (λ k. take k (xs ++ rest) ≡ xs) h (take-append_length xs rest)

drop_field : (n : ℕ) (xs rest : Bytes) → length xs ≡ n → drop n (xs ++ rest) ≡ rest
drop_field n xs rest h = subst (λ k. drop k (xs ++ rest) ≡ rest) h (drop-append_length xs rest)

word : (n : ℕ) (rest : Bytes) → n < 2 ^ 32 → le_value (take 4 (le_bytes 4 n ++ rest)) ≡ n
word n rest h =
    ap le_value (take_field 4 (le_bytes 4 n) rest (length-le_bytes 4 n)) ∙ le_value-le_bytes 4 n h

-- What a reader of a block header finds in it.
pub record Fields (header : Bytes) (version ntime nbits nonce : ℕ) (prev_hash merkle_root : Bytes)
    : Type 0 where
  pub size : length header ≡ 80
  pub version_at : le_value (take 4 header) ≡ version
  pub prev_hash_at : take 32 (drop 4 header) ≡ prev_hash
  pub merkle_root_at : take 32 (drop 36 header) ≡ merkle_root
  pub ntime_at : le_value (take 4 (drop 68 header)) ≡ ntime
  pub nbits_at : le_value (take 4 (drop 72 header)) ≡ nbits
  pub nonce_at : le_value (take 4 (drop 76 header)) ≡ nonce

-- Behind the two hashes the rest of the header follows.
past_hashes :
    (n : ℕ) (prev_hash merkle_root front rest : Bytes)
    → length prev_hash ≡ 32
    → length merkle_root ≡ 32
    → length front ≡ n
    → drop (64 + n) (prev_hash ++ (merkle_root ++ (front ++ rest))) ≡ rest
past_hashes n prev_hash merkle_root front rest hp hm hf =
    let all : Bytes = prev_hash ++ (merkle_root ++ front) in
    let regroup : prev_hash ++ (merkle_root ++ (front ++ rest)) ≡ all ++ rest = simp append_assoc in
    rw regroup (
      drop_field (64 + n) all rest (
        omega
          (arith, length-append prev_hash (merkle_root ++ front), length-append merkle_root front)))

-- A header built from two 32-byte hashes and 32-bit numbers has 80 bytes, and each field stands at
-- its offset: version, previous hash, merkle root, time, bits and nonce, the numbers little-endian.
pub build_block_header-Fields :
    (version : ℕ) (prev_hash merkle_root : Bytes) (ntime nbits nonce : ℕ)
    → length prev_hash ≡ 32
    → length merkle_root ≡ 32
    → version < 2 ^ 32
    → ntime < 2 ^ 32
    → nbits < 2 ^ 32
    → nonce < 2 ^ 32
    → Fields
        (build_block_header version prev_hash merkle_root ntime nbits nonce)
        version
        ntime
        nbits
        nonce
        prev_hash
        merkle_root
unfolding build_block_header le_bytes
build_block_header-Fields version prev_hash merkle_root ntime nbits nonce hp hm hv ht hb hn =
    let time : Bytes = le_bytes 4 ntime in
    let bits : Bytes = le_bytes 4 nbits in
    let tail : Bytes = bits ++ le_bytes 4 nonce in
    record {
      size = omega (
        arith,
        length-append prev_hash (merkle_root ++ (time ++ tail)),
        length-append merkle_root (time ++ tail),
      );
      version_at = word version (prev_hash ++ (merkle_root ++ (time ++ tail))) hv;
      prev_hash_at = take_field 32 prev_hash (merkle_root ++ (time ++ tail)) hp;
      merkle_root_at =
          ap (take 32) (drop_field 32 prev_hash (merkle_root ++ (time ++ tail)) hp)
          ∙ take_field 32 merkle_root (time ++ tail) hm;
      ntime_at =
          ap (λ xs. le_value (take 4 xs))
            (past_hashes 0 prev_hash merkle_root [] (time ++ tail) hp hm refl)
          ∙ word ntime tail ht;
      nbits_at =
          ap (λ xs. le_value (take 4 xs)) (past_hashes 4 prev_hash merkle_root time tail hp hm refl)
          ∙ word nbits (le_bytes 4 nonce) hb;
      nonce_at =
          ap (λ xs. le_value (take 4 xs))
            (past_hashes 8 prev_hash merkle_root (time ++ bits) (le_bytes 4 nonce) hp hm refl)
          ∙ word nonce [] hn;
    }
