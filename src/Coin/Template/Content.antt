-- ===== src/Coin/Template/Content.antt =====
-- What the fields of a template stand for, read apart from the mapper.
use azcoin_stratum_pool.Prelude.{
  ℕ, suc, String, Option, none, some, List, [], ◌∷◌, reverse, Result, ok, err, map_err, length, ◌≡◌,
  ◌≢◌, sym, ap, ◌∙◌, ◌⊎◌, inl, inr, arith, Bool-cases, Option-cases, Result-cases, nat_eq,
  string_eq, ◌==◌, >>=-ok, ok-injective, subst,
}
use azcoin_stratum_pool.Prelude.Words.{be_value}
use azcoin_stratum_pool.Prelude.Text.{trim}
use azcoin_stratum_pool.PoolCore.Types.{Bytes}
use azcoin_stratum_pool.Coin.Coinbase.{PoolError}
use azcoin_stratum_pool.Coin.Template.{
  BlockTemplate, CoinbaseAux, TransactionEntry, decode_prev_hash, decode_bits, decode_optional,
  decode_coinbase_aux_flags, transaction_id, branch_entry, branch_of, decode_transactions_from,
}

map_err-ok : {A E F : Type 0} (r : Result A E) (f : E → F) (a : A) → map_err f r ≡ ok a → r ≡ ok a
map_err-ok (ok b) f a h = ap ok (ok-injective h)
map_err-ok (err e) f a h = absurd cc

module _ (hex_decode : String → Result Bytes String) where
  -- A hash as the network writes it: its bytes the other way around.
  unfoldable pub WrittenHash : String → Bytes → Type 0
  WrittenHash s hash =
      (bs : Bytes) × (hex_decode s ≡ ok bs) × (length bs ≡ 32) × (hash ≡ reverse bs)

  unfoldable pub WrittenBits : String → ℕ → Type 0
  WrittenBits s bits =
      (bs : Bytes) × (hex_decode s ≡ ok bs) × (length bs ≡ 4) × (bits ≡ be_value bs)

  -- An optional field; a blank one counts as none.
  unfoldable pub WrittenField : Option String → Option Bytes → Type 0
  WrittenField none value = value ≡ none
  WrittenField (some s) value =
      ((trim s ≡ "") × (value ≡ none))
      ⊎ ((bs : Bytes) × (trim s ≢ "") × (hex_decode (trim s) ≡ ok bs) × (value ≡ some bs))

  unfoldable pub WrittenFlags : Option CoinbaseAux → Option Bytes → Type 0
  WrittenFlags none value = value ≡ none
  WrittenFlags (some aux) value = WrittenField aux.flags value

  -- The transactions in order, each decoded.
  unfoldable pub Decoded : List TransactionEntry → List Bytes → Type 0
  Decoded [] [] = Unit
  Decoded [] (raw ∷ raws) = ⊥
  Decoded (tx ∷ txs) [] = ⊥
  Decoded (tx ∷ txs) (raw ∷ raws) = (hex_decode tx.raw ≡ ok raw) × Decoded txs raws

  -- A transaction's id: its `txid`, or else its `hash`.
  unfoldable pub IdOf : TransactionEntry → Bytes → Type 0
  IdOf tx hash =
      (s : String) × ((tx.txid ≡ some s) ⊎ ((tx.txid ≡ none) × (tx.hash ≡ some s)))
      × WrittenHash s hash

  -- The ids of the transactions in order, without those that have none.
  pub data Ids : List TransactionEntry → List Bytes → Type 0 where
    no_ids : Ids [] []
    one_more :
        (tx : TransactionEntry) (txs : List TransactionEntry) (hash : Bytes) (ids : List Bytes)
        → IdOf tx hash
        → Ids txs ids
        → Ids (tx ∷ txs) (hash ∷ ids)
    passed :
        (tx : TransactionEntry) (txs : List TransactionEntry) (ids : List Bytes)
        → ((hash : Bytes) → ¬ IdOf tx hash)
        → Ids txs ids
        → Ids (tx ∷ txs) ids

  pub decode_prev_hash-WrittenHash :
      (s : String) (hash : Bytes) → decode_prev_hash hex_decode s ≡ ok hash → WrittenHash s hash
  unfolding decode_prev_hash WrittenHash
  decode_prev_hash-WrittenHash s hash h = elim (Result-cases (hex_decode s)) [
    | inr (e, p) ↦ absurd (ground (arith, h, p))
    | inl (bs, p) ↦ elim (Bool-cases (length bs == 32)) [
      | inl n ↦ (bs, p, (nat_eq.test_iff (length bs) 32).0 n, ground (arith, h, p, n))
      | inr n ↦ absurd (ground (arith, h, p, n))
    ]
  ]

  pub decode_bits-WrittenBits :
      (s : String) (bits : ℕ) → decode_bits hex_decode s ≡ ok bits → WrittenBits s bits
  unfolding decode_bits WrittenBits
  decode_bits-WrittenBits s bits h = elim (Result-cases (hex_decode s)) [
    | inr (e, p) ↦ absurd (ground (arith, h, p))
    | inl (bs, p) ↦ elim (Bool-cases (length bs == 4)) [
      | inl n ↦ (bs, p, (nat_eq.test_iff (length bs) 4).0 n, ground (arith, h, p, n))
      | inr n ↦ absurd (ground (arith, h, p, n))
    ]
  ]

  pub decode_optional-WrittenField :
      (label : String) (field : Option String) (value : Option Bytes)
      → decode_optional hex_decode label field ≡ ok value
      → WrittenField field value
  unfolding decode_optional WrittenField
  decode_optional-WrittenField label none value h = sym (ok-injective h)
  decode_optional-WrittenField label (some s) value h = elim (Bool-cases (trim s == "")) [
    | inl blank ↦ inl ((string_eq.test_iff (trim s) "").0 blank, ground (arith, h, blank))
    | inr full ↦ elim (Result-cases (hex_decode (trim s))) [
      | inr (e, p) ↦ absurd (ground (arith, h, full, p))
      | inl (bs, p) ↦ inr (
        bs,
        (λ e. let blank = (string_eq.test_iff (trim s) "").1 e in absurd cc),
        p,
        ground (arith, h, full, p),
      )
    ]
  ]

  pub decode_flags-WrittenFlags :
      (template : BlockTemplate) (value : Option Bytes)
      → decode_coinbase_aux_flags hex_decode template ≡ ok value
      → WrittenFlags template.coinbaseaux value
  unfolding decode_coinbase_aux_flags WrittenFlags
  decode_flags-WrittenFlags template value h = go template.coinbaseaux h
    where
      go :
          (aux : Option CoinbaseAux)
          → (elim aux as (λ x. Result (Option Bytes) PoolError) [
            | none ↦ ok none
            | some a ↦ decode_optional hex_decode "coinbaseaux.flags" a.flags
          ])
            ≡ ok value
          → WrittenFlags aux value
      go none e = sym (ok-injective e)
      go (some aux) e = decode_optional-WrittenField "coinbaseaux.flags" aux.flags value e

  pub decode_transactions-Decoded :
      (index : ℕ) (txs : List TransactionEntry) (raws : List Bytes)
      → decode_transactions_from hex_decode index txs ≡ ok raws
      → Decoded txs raws
  unfolding decode_transactions_from Decoded
  decode_transactions-Decoded index [] raws h = subst (Decoded []) (ok-injective h) tt
  decode_transactions-Decoded index (tx ∷ txs) raws h =
      let first = >>=-ok (map_err _ (hex_decode tx.raw)) _ raws h in
      let rest = >>=-ok (decode_transactions_from hex_decode (suc index) txs) _ raws first.2 in
      let others = decode_transactions-Decoded (suc index) txs rest.0 rest.1 in
      subst (Decoded (tx ∷ txs)) (ok-injective rest.2)
        (map_err-ok (hex_decode tx.raw) _ first.0 first.1, others)

  transaction_id-named :
      (tx : TransactionEntry) (s : String)
      → ((tx.txid ≡ some s) ⊎ ((tx.txid ≡ none) × (tx.hash ≡ some s)))
      → transaction_id hex_decode tx ≡ some s
  unfolding transaction_id
  transaction_id-named tx s (inl e) = ground (arith, e)
  transaction_id-named tx s (inr (e, f)) = ground (arith, e, f)

  named-transaction_id :
      (tx : TransactionEntry) (s : String)
      → transaction_id hex_decode tx ≡ some s
      → ((tx.txid ≡ some s) ⊎ ((tx.txid ≡ none) × (tx.hash ≡ some s)))
  unfolding transaction_id
  named-transaction_id tx s h = elim (Option-cases tx.txid) [
    | inl e ↦ inr (e, ground (arith, h, e))
    | inr (t, e) ↦ inl (e ∙ ground (arith, h, e))
  ]

  branch_entry-IdOf :
      (tx : TransactionEntry) (hash : Bytes) → branch_entry hex_decode tx ≡ some hash → IdOf tx hash
  unfolding branch_entry IdOf WrittenHash
  branch_entry-IdOf tx hash h = elim (Option-cases (transaction_id hex_decode tx)) [
    | inl e ↦ absurd (ground (arith, h, e))
    | inr (id, e) ↦ elim (Result-cases (hex_decode id)) [
      | inr (m, p) ↦ absurd (ground (arith, h, e, p))
      | inl (bs, p) ↦ elim (Bool-cases (length bs == 32)) [
        | inr n ↦ absurd (ground (arith, h, e, p, n))
        | inl n ↦ (
          id,
          named-transaction_id tx id e,
          (bs, p, (nat_eq.test_iff (length bs) 32).0 n, ground (arith, h, e, p, n)),
        )
      ]
    ]
  ]

  IdOf-branch_entry :
      (tx : TransactionEntry) (hash : Bytes) → IdOf tx hash → branch_entry hex_decode tx ≡ some hash
  unfolding branch_entry IdOf WrittenHash
  IdOf-branch_entry tx hash (s, named, written) =
      let id = transaction_id-named tx s named in
      let whole = (nat_eq.test_iff (length written.0) 32).1 written.2 in
      ground (arith, id, whole, written.1, written.3)

  pub branch_of-Ids : (txs : List TransactionEntry) → Ids txs (branch_of hex_decode txs)
  unfolding branch_of
  branch_of-Ids [] = no_ids
  branch_of-Ids (tx ∷ txs) = elim (Option-cases (branch_entry hex_decode tx)) [
    | inl gone ↦
        let same : branch_of hex_decode (tx ∷ txs) ≡ branch_of hex_decode txs =
          rw (gone, branch_of) in
        subst (Ids (tx ∷ txs)) (sym same) (
          passed tx txs _ (λ hash id. let found = IdOf-branch_entry tx hash id in absurd cc)
            (branch_of-Ids txs))
    | inr (hash, found) ↦
        let same : branch_of hex_decode (tx ∷ txs) ≡ hash ∷ branch_of hex_decode txs =
          rw (found, branch_of) in
        subst (Ids (tx ∷ txs)) (sym same)
          (one_more tx txs hash _ (branch_entry-IdOf tx hash found) (branch_of-Ids txs))
  ]
