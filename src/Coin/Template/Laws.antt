-- ===== src/Coin/Template/Laws.antt =====
-- What holds of every job that a template gives.
use azcoin_stratum_pool.Prelude.{
  ℕ, ◌%◌, ◌^◌, ◌<◌, true, String, some, List, [], ◌∷◌, reverse, Result, ok, length, length-reverse,
  All, All-reverse, ◌≡◌, refl, sym, ◌∙◌, arith, inl, inr, Bool-cases, Option-cases, Result-cases,
  nat_eq, ◌==◌, >>=-ok, ok-injective, subst,
}
use azcoin_stratum_pool.Prelude.Words.{IsByte, be_value, be_value-lt}
use azcoin_stratum_pool.PoolCore.Types.{Bytes, Job, BlockAssemblyData}
use azcoin_stratum_pool.Prelude.Text.{decimal}
use azcoin_stratum_pool.Coin.Target.Shape.{IsHash}
use azcoin_stratum_pool.Coin.Coinbase.{Bitcoin}
use azcoin_stratum_pool.Coin.Template.{
  BlockTemplate, TransactionEntry, decode_prev_hash, decode_bits, transaction_id, branch_entry,
  branch_of, build_merkle_branch, decode_coinbase_aux_flags, decode_default_witness_commitment,
  decode_template_transactions, build_coinbase_parts, template_to_job,
}
use azcoin_stratum_pool.Coin.Template.Content.{
  WrittenHash, WrittenBits, WrittenField, WrittenFlags, Decoded, Ids, decode_prev_hash-WrittenHash,
  decode_bits-WrittenBits, decode_optional-WrittenField, decode_flags-WrittenFlags,
  decode_transactions-Decoded, branch_of-Ids,
}

module _ (hex_decode : String → Result Bytes String)
    (decoded_bytes : (s : String) (bs : Bytes) → hex_decode s ≡ ok bs → All IsByte bs) where
  reversed-IsHash :
      (s : String) (bs : Bytes) → hex_decode s ≡ ok bs → length bs ≡ 32 → IsHash (reverse bs)
  reversed-IsHash s bs h n = record {
    size = length-reverse bs ∙ n;
    bytes = All-reverse IsByte bs (decoded_bytes s bs h);
  }

  pub decode_prev_hash-IsHash :
      (s : String) (hash : Bytes) → decode_prev_hash hex_decode s ≡ ok hash → IsHash hash
  unfolding decode_prev_hash
  decode_prev_hash-IsHash s hash h = elim (Result-cases (hex_decode s)) [
    | inr (e, p) ↦ absurd (ground (arith, h, p))
    | inl (bs, p) ↦ elim (Bool-cases (length bs == 32)) [
      | inl n ↦
          let e : reverse bs ≡ hash = ground (arith, h, p, n) in
          subst IsHash e (reversed-IsHash s bs p ((nat_eq.test_iff (length bs) 32).0 n))
      | inr n ↦ absurd (ground (arith, h, p, n))
    ]
  ]

  pub decode_bits-lt : (s : String) (bits : ℕ) → decode_bits hex_decode s ≡ ok bits → bits < 2 ^ 32
  unfolding decode_bits
  decode_bits-lt s bits h = elim (Result-cases (hex_decode s)) [
    | inr (e, p) ↦ absurd (ground (arith, h, p))
    | inl (bs, p) ↦ elim (Bool-cases (length bs == 4)) [
      | inl n ↦
          let e : be_value bs ≡ bits = ground (arith, h, p, n) in
          let four = (nat_eq.test_iff (length bs) 4).0 n in
          let small : be_value bs < 256 ^ 4 =
            subst (λ n. be_value bs < 256 ^ n) four (be_value-lt bs (decoded_bytes s bs p)) in
          omega (arith, small, e)
      | inr n ↦ absurd (ground (arith, h, p, n))
    ]
  ]

  branch_entry-IsHash :
      (tx : TransactionEntry) (hash : Bytes) → branch_entry hex_decode tx ≡ some hash → IsHash hash
  unfolding branch_entry
  branch_entry-IsHash tx hash h = elim (Option-cases (transaction_id hex_decode tx)) [
    | inl e ↦ absurd (ground (arith, h, e))
    | inr (id, e) ↦ elim (Result-cases (hex_decode id)) [
      | inr (m, p) ↦ absurd (ground (arith, h, e, p))
      | inl (bs, p) ↦ elim (Bool-cases (length bs == 32)) [
        | inr n ↦ absurd (ground (arith, h, e, p, n))
        | inl n ↦
            let same : reverse bs ≡ hash = ground (arith, h, e, p, n) in
            subst IsHash same (reversed-IsHash id bs p ((nat_eq.test_iff (length bs) 32).0 n))
      ]
    ]
  ]

  branch_of-All : (txs : List TransactionEntry) → All IsHash (branch_of hex_decode txs)
  unfolding branch_of
  branch_of-All [] = tt
  branch_of-All (tx ∷ txs) = elim (Option-cases (branch_entry hex_decode tx)) [
    | inl gone ↦
        let same : branch_of hex_decode (tx ∷ txs) ≡ branch_of hex_decode txs =
          rw (gone, branch_of) in
        subst (All IsHash) (sym same) (branch_of-All txs)
    | inr (hash, found) ↦
        let same : branch_of hex_decode (tx ∷ txs) ≡ hash ∷ branch_of hex_decode txs =
          rw (found, branch_of) in
        subst (All IsHash) (sym same) (branch_entry-IsHash tx hash found, branch_of-All txs)
  ]

  -- The job carries the template, field by field, as the registry, the validator and the builder of
  -- blocks rely on.
  pub record WellFormed (b : Bitcoin) (payout : Bytes) (template : BlockTemplate) (job : Job)
      : Type 0 where
    pub named : job.job_id ≡ decimal template.height
    pub clean : job.clean_jobs ≡ true
    pub version_kept : job.version ≡ template.version
    pub prev_hash_read : WrittenHash hex_decode template.previousblockhash job.prev_hash
    pub prev_hash_IsHash : IsHash job.prev_hash
    pub nbits_read : WrittenBits hex_decode template.bits job.nbits
    pub nbits_small : job.nbits < 2 ^ 32
    pub ntime_kept : job.ntime ≡ template.curtime % 2 ^ 32
    pub branch_lists : Ids hex_decode template.transactions job.merkle_branch
    pub branch_IsHash : All IsHash job.merkle_branch
    pub assembly : BlockAssemblyData
    pub has_assembly : job.block_assembly ≡ some assembly
    pub height_kept : assembly.height ≡ template.height
    pub value_kept : assembly.coinbase_value ≡ template.coinbasevalue
    pub flags_read : WrittenFlags hex_decode template.coinbaseaux assembly.coinbase_aux_flags
    pub commitment_read :
        WrittenField hex_decode template.default_witness_commitment
          assembly.default_witness_commitment
    pub all_transactions : Decoded hex_decode template.transactions assembly.template_transactions
    pub parts :
        build_coinbase_parts b template payout assembly.coinbase_aux_flags
          assembly.default_witness_commitment
        ≡ ok (job.coinbase_part1, job.coinbase_part2)

  -- Where hexadecimal text decodes to bytes, every template that gives a job gives one that carries the
  -- template: its id is the height and it clears the older jobs; version and, modulo 2 ^ 32, the time are
  -- the template's; previous hash, bits, flags and witness commitment are the decoded texts, a blank or
  -- missing one of the last two counting as none; the raw transactions are all of the template's,
  -- decoded, in order; the merkle branch lists the ids of all transactions that have one of 32 bytes,
  -- reversed, in order; the coinbase parts are those of the template's coinbase. Hashes are 32 bytes,
  -- the bits a 32-bit number.
  pub template_to_job-WellFormed :
      (b : Bitcoin) (template : BlockTemplate) (payout : Bytes) (job : Job)
      → template_to_job hex_decode b template payout ≡ ok job
      → WellFormed b payout template job
  unfolding template_to_job build_merkle_branch decode_template_transactions
      decode_default_witness_commitment
  template_to_job-WellFormed b template payout job h =
      let prev = >>=-ok (decode_prev_hash hex_decode template.previousblockhash) _ job h in
      let bits = >>=-ok (decode_bits hex_decode template.bits) _ job prev.2 in
      let flags = >>=-ok (decode_coinbase_aux_flags hex_decode template) _ job bits.2 in
      let commitment =
        >>=-ok (decode_default_witness_commitment hex_decode template) _ job flags.2 in
      let txs = >>=-ok (decode_template_transactions hex_decode template) _ job commitment.2 in
      let parts =
        >>=-ok (build_coinbase_parts b template payout flags.0 commitment.0) _ job txs.2 in
      subst (WellFormed b payout template) (ok-injective parts.2) (record {
        named = refl;
        clean = refl;
        version_kept = refl;
        prev_hash_read =
            decode_prev_hash-WrittenHash hex_decode template.previousblockhash prev.0 prev.1;
        prev_hash_IsHash = decode_prev_hash-IsHash template.previousblockhash prev.0 prev.1;
        nbits_read = decode_bits-WrittenBits hex_decode template.bits bits.0 bits.1;
        nbits_small = decode_bits-lt template.bits bits.0 bits.1;
        ntime_kept = refl;
        branch_lists = branch_of-Ids hex_decode template.transactions;
        branch_IsHash = branch_of-All template.transactions;
        assembly = _;
        has_assembly = refl;
        height_kept = refl;
        value_kept = refl;
        flags_read = decode_flags-WrittenFlags hex_decode template flags.0 flags.1;
        commitment_read =
            decode_optional-WrittenField hex_decode _ template.default_witness_commitment
              commitment.0 commitment.1;
        all_transactions =
            decode_transactions-Decoded hex_decode 0 template.transactions txs.0 txs.1;
        parts = parts.1;
      })
