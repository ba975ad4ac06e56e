-- ===== src/Coin/Template/Parts.antt =====
-- The split of the coinbase at the extranonce placeholder.
use azcoin_stratum_pool.Prelude.{
  ℕ, zero, suc, ◌+◌, true, Option, some, [], ◌∷◌, ◌++◌, ok, length, take, drop, ◌≡◌, ◌≢◌, refl, sym,
  ap, ◌∙◌, arith, inl, inr, Bool-cases, Option-cases, nat_eq,
}
use mathlib.Core.List.{append_assoc}
use azcoin_stratum_pool.PoolCore.Types.{Bytes}
use azcoin_stratum_pool.Coin.Coinbase.{
  Bitcoin, Transaction, CoinbaseBuildInputs, coinbase_transaction, build_coinbase_transaction,
  serialize_no_witness, build_coinbase_script_sig, push_data, push_prefix, encode_script_num,
}
use azcoin_stratum_pool.Coin.Template.{
  BlockTemplate, sv1_extranonce_placeholder, starts_with, position, split_at_placeholder,
  coinbase_inputs, build_coinbase_parts, unwrap_flags,
}

-- A window that begins with the needle is the needle and what is left.
starts_with-split :
    (needle window : Bytes)
    → starts_with needle window ≡ true
    → window ≡ needle ++ drop (length needle) window
unfolding starts_with
starts_with-split [] window h = refl
starts_with-split (x ∷ needle) [] h = cc
starts_with-split (x ∷ needle) (y ∷ window) h =
    let rest = starts_with-split needle window (ground arith) in
    ground (arith, rest, nat_eq.test_iff x y)

position-split :
    (needle bs : Bytes) (i : ℕ)
    → position needle bs ≡ some i
    → bs ≡ take i bs ++ (needle ++ drop (i + length needle) bs)
unfolding position
position-split needle [] i h = cc
position-split needle (y ∷ rest) zero h =
    let here : starts_with needle (y ∷ rest) ≡ true =
      elim (Bool-cases (starts_with needle (y ∷ rest))) [
        | inl here ↦ here
        | inr later ↦ elim (Option-cases (position needle rest)) [
          | inl gone ↦ absurd (ground (arith, h, later, gone))
          | inr (j, found) ↦ absurd (ground (arith, h, later, found))
        ]
      ] in
    let offset : 0 + length needle ≡ length needle = omega arith in
    rw offset (starts_with-split needle (y ∷ rest) here)
position-split needle (y ∷ rest) (suc i) h =
    let later : position needle rest ≡ some i = elim (Bool-cases (starts_with needle (y ∷ rest))) [
      | inl here ↦ absurd (ground (arith, h, here))
      | inr later ↦ elim (Option-cases (position needle rest)) [
        | inl gone ↦ absurd (ground (arith, h, later, gone))
        | inr (j, found) ↦ ground (arith, h, later, found)
      ]
    ] in
    let offset : suc i + length needle ≡ suc (i + length needle) = omega arith in
    rw offset (ap (λ (bs : Bytes). y ∷ bs) (position-split needle rest i later))

-- What splits at the placeholder is the two parts around it.
split_at_placeholder-joined :
    (bs part1 part2 : Bytes)
    → split_at_placeholder bs ≡ ok (part1, part2)
    → bs ≡ part1 ++ (sv1_extranonce_placeholder ++ part2)
unfolding split_at_placeholder
split_at_placeholder-joined bs part1 part2 h =
    elim (Option-cases (position sv1_extranonce_placeholder bs)) [
      | inl gone ↦ absurd (ground (arith, h, gone))
      | inr (i, found) ↦
          let split = position-split sv1_extranonce_placeholder bs i found in
          let parts = rw (found, split_at_placeholder) at h in cc
    ]

starts_with_self : (needle rest : Bytes) → starts_with needle (needle ++ rest) ≡ true
unfolding starts_with
starts_with_self [] rest = refl
starts_with_self (x ∷ needle) rest =
    ground (arith, starts_with_self needle rest, nat_eq.test_iff x x)

-- A needle that stands somewhere is found.
position-infix :
    (x : ℕ) (needle pre post : Bytes)
    → (i : ℕ) × (position (x ∷ needle) (pre ++ ((x ∷ needle) ++ post)) ≡ some i)
unfolding position
position-infix x needle [] post = (0, rw (starts_with_self (x ∷ needle) post, position))
position-infix x needle (y ∷ pre) post =
    let (i, found) = position-infix x needle pre post in
    elim (Bool-cases (starts_with (x ∷ needle) (y ∷ (pre ++ ((x ∷ needle) ++ post))))) [
      | inl here ↦ (0, ground (arith, here))
      | inr later ↦ (suc i, ground (arith, later, found))
    ]

-- A needle that stands somewhere is split at.
split-infix :
    (bs pre post : Bytes)
    → bs ≡ pre ++ (sv1_extranonce_placeholder ++ post)
    → (part1 : Bytes) × (part2 : Bytes) × (split_at_placeholder bs ≡ ok (part1, part2))
unfolding split_at_placeholder
split-infix bs pre post h =
    let (i, found) =
      position-infix 0xfa (0xce ∷ 0xb0 ∷ 0x0c ∷ 0xde ∷ 0xad ∷ 0xbe ∷ 0xef ∷ []) pre post in
    let there : position sv1_extranonce_placeholder bs ≡ some i =
      ap (position sv1_extranonce_placeholder) h ∙ found in
    (take i bs, drop (i + 8) bs, rw (there, split_at_placeholder) refl)

-- The script signature ends with the placeholder.
script_sig-placeholder :
    (height : ℕ) (flags : Bytes)
    → (pre : Bytes) × (build_coinbase_script_sig height (some (flags ++ sv1_extranonce_placeholder))
        ≡ pre ++ sv1_extranonce_placeholder)
unfolding build_coinbase_script_sig push_data
script_sig-placeholder height flags =
    let start = push_data [] (encode_script_num height) in
    let prefix = push_prefix (length (flags ++ sv1_extranonce_placeholder)) in
    (
      start ++ (prefix ++ flags),
      pushed height flags
          ∙ (ap (λ (bs : Bytes). start ++ bs)
                (sym (append_assoc prefix flags sv1_extranonce_placeholder))
              ∙ sym (append_assoc start (prefix ++ flags) sv1_extranonce_placeholder)),
    )
  where
    pushed :
        (height : ℕ) (flags : Bytes)
        → build_coinbase_script_sig height (some (flags ++ sv1_extranonce_placeholder))
          ≡ push_data
              (push_data [] (encode_script_num height))
              (flags ++ sv1_extranonce_placeholder)
    pushed height [] = refl
    pushed height (f ∷ flags) = refl

regroup :
    (version before pre needle after rest : Bytes)
    → version ++ ((before ++ ((pre ++ needle) ++ after)) ++ rest)
      ≡ (version ++ (before ++ pre)) ++ (needle ++ (after ++ rest))
regroup version before pre needle after rest = simp append_assoc

paid-built :
    (b : Bitcoin) (inputs : CoinbaseBuildInputs) (payout : Bytes)
    → inputs.payout_script_pubkey ≡ payout
    → payout ≢ []
    → build_coinbase_transaction b inputs ≡ ok (b.serialize (coinbase_transaction inputs))
unfolding build_coinbase_transaction
paid-built b inputs [] e paid = absurd (paid refl)
paid-built b inputs (x ∷ xs) e paid = simp (e, build_coinbase_transaction)

module _ (b : Bitcoin) (template : BlockTemplate) (payout : Bytes)
    (flags commitment : Option Bytes) where
  -- The coinbase of the template with the placeholder behind its flags.
  abbrev template_coinbase : Transaction
  template_coinbase = coinbase_transaction (coinbase_inputs template payout flags commitment)

  parts-made :
      payout ≢ []
      → b.deserialize (b.serialize template_coinbase) ≡ ok template_coinbase
      → (part1 part2 : Bytes)
      → split_at_placeholder (serialize_no_witness b template_coinbase) ≡ ok (part1, part2)
      → build_coinbase_parts b template payout flags commitment ≡ ok (part1, part2)
  unfolding build_coinbase_parts coinbase_inputs
  parts-made paid reads part1 part2 made =
      let built =
        paid-built b (coinbase_inputs template payout flags commitment) payout refl paid in
      rw (built, build_coinbase_parts) (rw reads made)

  -- Where the payout script is not empty, the coinbase reads back from its serialization, and the
  -- encoder of the inputs writes the script signature in one piece, the coinbase is split into two
  -- parts, and the parts with the placeholder between them are its serialization without witness.
  pub build_coinbase_parts-joined :
      (before after : Bytes)
      → payout ≢ []
      → b.deserialize (b.serialize template_coinbase) ≡ ok template_coinbase
      → b.encode_inputs template_coinbase.input
        ≡ before
          ++ (build_coinbase_script_sig template.height
                (some (unwrap_flags flags ++ sv1_extranonce_placeholder))
              ++ after)
      → (part1 : Bytes) × (part2 : Bytes) × (build_coinbase_parts b template payout flags commitment
          ≡ ok (part1, part2))
        × (serialize_no_witness b template_coinbase
            ≡ part1 ++ (sv1_extranonce_placeholder ++ part2))
  unfolding serialize_no_witness
  build_coinbase_parts-joined before after paid reads written =
      let (pre, tail) = script_sig-placeholder template.height (unwrap_flags flags) in
      let version = b.encode_version template_coinbase.version in
      let rest =
        b.encode_outputs template_coinbase.output
        ++ b.encode_lock_time template_coinbase.lock_time in
      let whole : serialize_no_witness b template_coinbase
          ≡ (version ++ (before ++ pre)) ++ (sv1_extranonce_placeholder ++ (after ++ rest)) =
        ap (λ ins. version ++ (ins ++ rest))
          (written ∙ ap (λ (sig : Bytes). before ++ (sig ++ after)) tail)
        ∙ regroup version before pre sv1_extranonce_placeholder after rest in
      let (part1, part2, made) = split-infix (serialize_no_witness b template_coinbase) _ _ whole in
      (
        part1,
        part2,
        parts-made paid reads part1 part2 made,
        split_at_placeholder-joined _ part1 part2 made,
      )
