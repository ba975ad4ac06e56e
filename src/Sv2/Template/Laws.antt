-- ===== src/Sv2/Template/Laws.antt =====
-- The normal form and the job agree.
use azcoin_stratum_pool.Prelude.{
  ℕ, ◌^◌, ◌<◌, String, some, [], ◌∷◌, reverse, Result, ok, >>=-ok, ok-injective, length, ◌≡◌, refl,
  ap, subst, inl, inr, arith, Bool-cases, Result-cases, string_eq, nat_eq, ◌==◌, test-ne, lt→ltb,
}
use azcoin_stratum_pool.Prelude.Words.{be_value}
use azcoin_stratum_pool.Prelude.Text.{as_bytes, trim, format, decimal}
use azcoin_stratum_pool.PoolCore.Types.{Bytes, Job, BlockAssemblyData}
use azcoin_stratum_pool.Coin.Coinbase.{Bitcoin}
use azcoin_stratum_pool.Coin.Template
use azcoin_stratum_pool.Coin.Template.{
  BlockTemplate, template_to_job, ntime_to_u32, build_coinbase_parts, decode_coinbase_aux_flags,
  decode_default_witness_commitment, decode_template_transactions, decode_bits,
}
use azcoin_stratum_pool.Sv2.Template.{
  AzcoinJobTemplate, to_u32, decode_prev_hash, decode_nbits, from_block_template,
  bridge_block_template,
}
use azcoin_stratum_pool.Sv2.Template.Digits.{pairs, decode_hex-pairs, pairs_not_blank}

-- The normal form from its two decoded fields.
unfoldable normal_form : BlockTemplate → Bytes → ℕ → AzcoinJobTemplate
normal_form template prev_hash nbits = record {
  job_id = format (
      decimal template.height
      ∷ ":"
      ∷ template.previousblockhash
      ∷ ":"
      ∷ decimal template.curtime
      ∷ []);
  prev_hash = prev_hash;
  version = template.version;
  nbits = nbits;
  ntime = template.curtime;
  height = template.height;
  coinbase_value = template.coinbasevalue;
}

to_u32_same : (field : String) (n : ℕ) → n < 2 ^ 32 → to_u32 field n ≡ ok n
unfolding to_u32
to_u32_same field n h = rw (lt→ltb n (2 ^ 32) h, to_u32) refl

from_block_template_made :
    (template : BlockTemplate) (prev_hash : Bytes) (nbits : ℕ)
    → decode_prev_hash template.previousblockhash ≡ ok prev_hash
    → decode_nbits template.bits ≡ ok nbits
    → template.curtime < 2 ^ 32
    → template.height < 2 ^ 32
    → from_block_template template ≡ ok (normal_form template prev_hash nbits)
unfolding from_block_template normal_form
from_block_template_made template prev_hash nbits p n time height =
    rw (p, from_block_template)
      (rw (n) (
        rw (to_u32_same "curtime" template.curtime time)
          (rw (to_u32_same "height" template.height height) refl)))

-- Each field of the normal form is that of the job or of its data.
pub record Agrees (canonical : AzcoinJobTemplate) (job : Job) : Type 0 where
  pub prev_hash_same : canonical.prev_hash ≡ job.prev_hash
  pub version_same : canonical.version ≡ job.version
  pub nbits_same : canonical.nbits ≡ job.nbits
  pub ntime_same : canonical.ntime ≡ job.ntime
  pub assembly : BlockAssemblyData
  pub has_assembly : job.block_assembly ≡ some assembly
  pub height_same : canonical.height ≡ assembly.height
  pub value_same : canonical.coinbase_value ≡ assembly.coinbase_value

module _ (hex_decode : String → Result Bytes String)
    (hex_reads : (s : String) (bs : Bytes)
      → hex_decode s ≡ ok bs
      → pairs (as_bytes s) ≡ some bs) where
  prev_hash_same :
      (s : String) (hash : Bytes)
      → Template.decode_prev_hash hex_decode s ≡ ok hash
      → decode_prev_hash s ≡ ok hash
  unfolding Template.decode_prev_hash decode_prev_hash
  prev_hash_same s hash h = elim (Result-cases (hex_decode s)) [
    | inr (e, p) ↦ absurd (ground (arith, h, p))
    | inl (bs, p) ↦ elim (Bool-cases (length bs == 32)) [
      | inr n ↦ absurd (ground (arith, h, p, n))
      | inl n ↦
          let size = (nat_eq.test_iff (length bs) 32).0 n in
          let e : reverse bs ≡ hash = ground (arith, h, p, n) in
          let digits = hex_reads s bs p in
          let full = test-ne (trim s) "" (pairs_not_blank s bs digits (omega (arith, size))) in
          rw (full, decode_prev_hash)
            (rw (decode_hex-pairs s "previousblockhash" bs digits) (rw (n) (ap ok e)))
    ]
  ]

  bits_same :
      (s : String) (bits : ℕ) → decode_bits hex_decode s ≡ ok bits → decode_nbits s ≡ ok bits
  unfolding decode_bits decode_nbits
  bits_same s bits h = elim (Result-cases (hex_decode s)) [
    | inr (e, p) ↦ absurd (ground (arith, h, p))
    | inl (bs, p) ↦ elim (Bool-cases (length bs == 4)) [
      | inr n ↦ absurd (ground (arith, h, p, n))
      | inl n ↦
          let size = (nat_eq.test_iff (length bs) 4).0 n in
          let e : be_value bs ≡ bits = ground (arith, h, p, n) in
          let digits = hex_reads s bs p in
          let full = test-ne (trim s) "" (pairs_not_blank s bs digits (omega (arith, size))) in
          rw (full, decode_nbits) (rw (decode_hex-pairs s "bits" bs digits) (rw (n) (ap ok e)))
    ]
  ]

  -- Where the hexadecimal decoder reads pairs of digits, a template that gives a job and whose time
  -- and height are below 2 ^ 32 passes the bridge, which gives that job, and the normal form agrees
  -- with it: previous hash, version, bits and time, and the height and the value of the coinbase.
  pub bridge-Agrees :
      (b : Bitcoin) (template : BlockTemplate) (payout : Bytes) (job : Job)
      → template_to_job hex_decode b template payout ≡ ok job
      → template.curtime < 2 ^ 32
      → template.height < 2 ^ 32
      → (canonical : AzcoinJobTemplate) × (bridge_block_template hex_decode b template payout
          ≡ ok (record { canonical = canonical; job = job }))
        × Agrees canonical job
  unfolding template_to_job bridge_block_template normal_form
  bridge-Agrees b template payout job made time height =
      let prev =
        >>=-ok (Template.decode_prev_hash hex_decode template.previousblockhash) _ job made in
      let bits = >>=-ok (decode_bits hex_decode template.bits) _ job prev.2 in
      let flags = >>=-ok (decode_coinbase_aux_flags hex_decode template) _ job bits.2 in
      let commitment =
        >>=-ok (decode_default_witness_commitment hex_decode template) _ job flags.2 in
      let txs = >>=-ok (decode_template_transactions hex_decode template) _ job commitment.2 in
      let parts =
        >>=-ok (build_coinbase_parts b template payout flags.0 commitment.0) _ job txs.2 in
      let canonical = normal_form template prev.0 bits.0 in
      let adapted =
        from_block_template_made template prev.0 bits.0
          (prev_hash_same template.previousblockhash prev.0 prev.1)
          (bits_same template.bits bits.0 bits.1) time height in
      (
        canonical,
        rw (adapted, bridge_block_template) (rw (made) refl),
        subst (Agrees canonical) (ok-injective parts.2) (record {
          prev_hash_same = refl;
          version_same = refl;
          nbits_same = refl;
          ntime_same = omega arith;
          assembly = _;
          has_assembly = refl;
          height_same = refl;
          value_same = refl;
        }),
      )
