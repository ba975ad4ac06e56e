-- ===== src/Coin/RawBlock/Laws.antt =====
-- When a raw block is built, and its bytes.
use azcoin_stratum_pool.Prelude.{
  ℕ, suc, ◌^◌, ◌<◌, String, some, List, [], ◌∷◌, ◌++◌, ok, length, ltb, All, ◌≡◌, refl, sym, ap,
  ◌∙◌, ◌↔◌, inl, inr, Bool-cases, Result-cases, nat_eq, ◌==◌, arith, ok_or, >>=-ok, ltb→lt,
}
use azcoin_stratum_pool.Prelude.Tests.{==_iff}
use mathlib.Core.List.{append_assoc, append-nil}
use azcoin_stratum_pool.Prelude.Text.{format, decimal}
use azcoin_stratum_pool.PoolCore.Types.{Bytes}
use azcoin_stratum_pool.Coin.Coinbase.{Bitcoin, Transaction, PoolError}
use azcoin_stratum_pool.Coin.RawBlock.{
  validate_transaction_bytes, validate_template, checked_count, extend_all, assemble,
  build_raw_block,
}

-- Bytes that the crate `bitcoin` reads as a transaction.
unfoldable pub Readable : Bitcoin → Bytes → Type 0
Readable b tx_bytes = (tx : Transaction) × (b.deserialize tx_bytes ≡ ok tx)

unfoldable pub concat : List Bytes → Bytes
concat [] = []
concat (tx_bytes ∷ rest) = tx_bytes ++ concat rest

extend_all-concat : (raw : Bytes) (txs : List Bytes) → extend_all raw txs ≡ raw ++ concat txs
unfolding extend_all concat
extend_all-concat raw [] = sym (append-nil raw)
extend_all-concat raw (tx ∷ txs) =
    extend_all-concat (raw ++ tx) txs ∙ append_assoc raw tx (concat txs)

module _ (b : Bitcoin) where
  Readable-validate_transaction :
      (label : String) (tx_bytes : Bytes)
      → Readable b tx_bytes
      → validate_transaction_bytes b label tx_bytes ≡ ok tt
  unfolding validate_transaction_bytes Readable
  Readable-validate_transaction label tx_bytes (tx, h) = rw (h, validate_transaction_bytes)

  validate_transaction-Readable :
      (label : String) (tx_bytes : Bytes)
      → validate_transaction_bytes b label tx_bytes ≡ ok tt
      → Readable b tx_bytes
  unfolding validate_transaction_bytes Readable
  validate_transaction-Readable label tx_bytes h = elim (Result-cases (b.deserialize tx_bytes)) [
    | inl (tx, e) ↦ (tx, e)
    | inr (e, p) ↦ absurd (ground (arith, h, p))
  ]

  validate_template-All :
      (index : ℕ) (txs : List Bytes) → All (Readable b) txs → validate_template b index txs ≡ ok tt
  unfolding validate_template
  validate_template-All index [] h = refl
  validate_template-All index (tx ∷ txs) (r, rs) =
      rw
        (Readable-validate_transaction (format ("template transaction " ∷ decimal index ∷ [])) tx r)
        (validate_template-All (suc index) txs rs)

  All-validate_template :
      (index : ℕ) (txs : List Bytes) → validate_template b index txs ≡ ok tt → All (Readable b) txs
  unfolding validate_template
  All-validate_template index [] h = tt
  All-validate_template index (tx ∷ txs) h =
      let first =
        >>=-ok (validate_transaction_bytes b _ tx) (λ _. validate_template b (suc index) txs) tt
          h in
      (validate_transaction-Readable _ tx first.1, All-validate_template (suc index) txs first.2)

  -- Whether a raw block can be assembled from these bytes.
  unfoldable pub CanAssemble : Bytes → Bytes → List Bytes → Type 0
  CanAssemble header coinbase txs =
      (length header ≡ 80)
      × (Readable b coinbase)
      × (All (Readable b) txs)
      × (suc (length txs) < 2 ^ 64)

  unfoldable pub raw_block_bytes : Bytes → Bytes → List Bytes → Bytes
  raw_block_bytes header coinbase txs =
      header ++ (b.encode_var_int (suc (length txs)) ++ (coinbase ++ concat txs))

  count-small : (n : ℕ) → suc n < 2 ^ 64 → checked_count n ≡ some (suc n)
  unfolding checked_count
  count-small n h = ground arith

  joined :
      (header coinbase : Bytes) (count : ℕ) (txs : List Bytes)
      → extend_all ((header ++ b.encode_var_int count) ++ coinbase) txs
        ≡ header ++ (b.encode_var_int count ++ (coinbase ++ concat txs))
  joined header coinbase count txs =
      extend_all-concat ((header ++ b.encode_var_int count) ++ coinbase) txs
      ∙ (append_assoc (header ++ b.encode_var_int count) coinbase (concat txs)
          ∙ append_assoc header (b.encode_var_int count) (coinbase ++ concat txs))

  assemble-built :
      (header coinbase : Bytes) (txs : List Bytes)
      → CanAssemble header coinbase txs
      → build_raw_block b header coinbase txs ≡ ok (raw_block_bytes header coinbase txs)
  unfolding build_raw_block assemble CanAssemble raw_block_bytes
  assemble-built header coinbase txs (h, c, rest, small) = rw (h) (
      rw (Readable-validate_transaction "coinbase" coinbase c) (
        rw (validate_template-All 0 txs rest) (
          rw (count-small (length txs) small)
            (ap ok (joined header coinbase (suc (length txs)) txs)))))

  count-fits :
      (n c : ℕ) (e : PoolError) → ok_or (checked_count n) e ≡ ok c → (suc n < 2 ^ 64) × (suc n ≡ c)
  unfolding checked_count
  count-fits n c e h = elim (Bool-cases (ltb (suc n) (2 ^ 64))) [
    | inl small ↦ (ltb→lt (suc n) (2 ^ 64) small, ground (arith, h, small))
    | inr big ↦ absurd (ground (arith, h, big))
  ]

  header_length :
      (header coinbase : Bytes) (txs : List Bytes) (raw : Bytes)
      → build_raw_block b header coinbase txs ≡ ok raw
      → (length header ≡ 80) × (assemble b header coinbase txs ≡ ok raw)
  unfolding build_raw_block
  header_length header coinbase txs raw h = elim (Bool-cases (length header == 80)) [
    | inl e ↦ ((==_iff (length header) 80).0 e, ground (arith, h, e))
    | inr ne ↦ absurd (ground (arith, h, ne))
  ]

  built-CanAssemble :
      (header coinbase : Bytes) (txs : List Bytes) (raw : Bytes)
      → build_raw_block b header coinbase txs ≡ ok raw
      → CanAssemble header coinbase txs
  unfolding assemble CanAssemble checked_count
  built-CanAssemble header coinbase txs raw h =
      let front = header_length header coinbase txs raw h in
      let first = >>=-ok (validate_transaction_bytes b "coinbase" coinbase) _ raw front.1 in
      let rest = >>=-ok (validate_template b 0 txs) _ raw first.2 in
      let count = >>=-ok (ok_or (checked_count (length txs)) _) _ raw rest.2 in
      (
        front.0,
        validate_transaction-Readable "coinbase" coinbase first.1,
        All-validate_template 0 txs rest.1,
        (count-fits (length txs) count.0 _ count.1).0,
      )

  -- A raw block is built exactly from a header of 80 bytes, a coinbase and transactions that all
  -- deserialize, with fewer than 2 ^ 64 of them in all; it is the header, the number of transactions,
  -- the coinbase and the transactions in order.
  pub build_raw_block_iff :
      (header coinbase : Bytes) (txs : List Bytes) (raw : Bytes)
      → (build_raw_block b header coinbase txs ≡ ok raw)
        ↔ (CanAssemble header coinbase txs × (raw ≡ raw_block_bytes header coinbase txs))
  build_raw_block_iff header coinbase txs raw = (
    (λ h.
        let can = built-CanAssemble header coinbase txs raw h in
        let built = assemble-built header coinbase txs can in (can, cc)),
    λ (can, e). assemble-built header coinbase txs can ∙ ap ok (sym e),
  )
