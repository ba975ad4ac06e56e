-- ===== src/Coin/Daemon/Refusal.antt =====
-- What becomes of the daemon's refusals.
use Prim.Native.Char.{Char, code}
use Prim.Native.String.{◌++◌}
use mathlib.Core.Option.{some-injective}
use text.Mathlib.TextLemmas.{cons-append}
use azcoin_stratum_pool.Prelude.{
  String, Bool, true, false, none, some, [], ◌∷◌, Result, ok, err, map_err, ◌>>=◌, >>=-ok, ◌≡◌, ◌≢◌,
  refl, sym, ap, ◌∙◌, inl, inr, Bool-cases, Option-cases, Result-cases, arith, string_eq, nat_eq,
  ◌==◌,
}
use azcoin_stratum_pool.Prelude.Text.{strip_prefix, format}
use azcoin_stratum_pool.PoolCore.Types.{Bytes, Job, BlockAssemblyData}
use azcoin_stratum_pool.Coin.Coinbase.{
  PoolError, config, daemon, storage, protocol, internal, Bitcoin,
}
use azcoin_stratum_pool.Coin.RawBlock.{build_raw_block}
use azcoin_stratum_pool.Coin.Candidate.{
  rejected, local_error, error_text, read_answer, block_candidate, block_coinbase,
  reconstruct_miner_coinbase, submit_raw, submit_block_candidate,
}
use azcoin_stratum_pool.Coin.Http.{HttpResponse, Send, JsonValue}
use azcoin_stratum_pool.Coin.Daemon.{DaemonClient, read_response, read_submission, submit_candidate}
use azcoin_stratum_pool.Coin.Daemon.Laws.{
  submit_answer, submission, submit_candidate_answer, read_submission_not_false,
}

strip_prefix-first :
    (c d : Char) (p q s : String)
    → (code c == code d) ≡ false
    → strip_prefix (String.◌∷◌ c p) (String.◌∷◌ d q ++ s) ≡ none
unfolding strip_prefix
strip_prefix-first c d p q s h = rw (cons-append) (rw (h) refl)

strip_prefix-second :
    (a b c d : Char) (p q s : String)
    → (code c == code d) ≡ false
    → strip_prefix (String.◌∷◌ a (String.◌∷◌ c p)) (String.◌∷◌ b (String.◌∷◌ d q) ++ s) ≡ none
unfolding strip_prefix
strip_prefix-second a b c d p q s h = elim (Bool-cases (code a == code b)) [
  | inl e ↦ rw (cons-append) (rw (e) (rw (cons-append) (rw (h) refl)))
  | inr e ↦ rw (cons-append) (rw (e) refl)
]

-- The text of an error begins with the kind of the error.
error_text_kept : (e : PoolError) → strip_prefix "submitblock rejected: " (error_text e) ≡ none
unfolding error_text
error_text_kept (config s) = strip_prefix-first "s" "c" _ "onfiguration error: " (s ++ "") refl
error_text_kept (daemon s) = strip_prefix-first "s" "d" _ "aemon/RPC error: " (s ++ "") refl
error_text_kept (storage s) = strip_prefix-second "s" "s" "u" "t" _ "orage error: " (s ++ "") refl
error_text_kept (protocol s) = strip_prefix-first "s" "p" _ "rotocol error: " (s ++ "") refl
error_text_kept (internal s) = strip_prefix-first "s" "i" _ "nternal error: " (s ++ "") refl

read_answer-not_rejected :
    (a : Result Bool PoolError) (reason : String)
    → a ≢ ok false
    → read_answer (map_err error_text a) ≢ rejected reason
unfolding read_answer
read_answer-not_rejected (ok true) reason h e = cc
read_answer-not_rejected (ok false) reason h e = h refl
read_answer-not_rejected (err e) reason h k =
    let same : read_answer (err (error_text e)) ≡ local_error (error_text e) =
      rw (error_text_kept e, read_answer) refl in
    absurd (ground (arith, same, k))

module _ {N V : Type 0} (json : JsonValue V) (send : Send N V) (client : DaemonClient)
    (hex_encode : Bytes → String) where
  answer_not_false :
      (r : Result (HttpResponse V) String)
      → ((map_err (λ e. daemon (format ("daemon request failed: " ∷ e ∷ []))) r
            >>= read_response json)
          >>= read_submission json)
        ≢ ok false
  answer_not_false r h =
      let answered = >>=-ok _ (read_submission json) false h in
      read_submission_not_false json answered.0 answered.2

  submit_raw-not_rejected :
      (b : Bitcoin) (n n' : N) (a : BlockAssemblyData) (raw : Result Bytes PoolError)
      (reason : String)
      → submit_raw (submit_candidate json send client hex_encode) b n a raw ≢ (n', rejected reason)
  unfolding submit_raw submit_answer
  submit_raw-not_rejected b n n' a (err e) reason h = cc
  submit_raw-not_rejected b n n' a (ok raw) reason h =
      read_answer-not_rejected _ reason
        (answer_not_false (send n (submission json client hex_encode (block_candidate a raw))).1)
        (ap read_answer
            (sym (submit_candidate_answer json send client hex_encode n (block_candidate a raw)))
          ∙ ap (λ x. x.1) h)

  -- Where the submitter is the one that asks the daemon, no candidate comes out as rejected, whatever
  -- the daemon answers and whatever reason it gives.
  pub candidate_not_rejected :
      (b : Bitcoin) (n n' : N) (header : Bytes) (job : Job) (extranonce1 extra_nonce2 : Bytes)
      (reason : String)
      → submit_block_candidate
          (submit_candidate json send client hex_encode)
          b
          n
          header
          job
          extranonce1
          extra_nonce2
        ≢ some (n', rejected reason)
  unfolding submit_block_candidate
  candidate_not_rejected b n n' header job extranonce1 extra_nonce2 reason h =
      elim (Option-cases job.block_assembly) [
        | inl e ↦ absurd (ground (arith, h, e))
        | inr (a, e) ↦
            elim (Option-cases
              (block_coinbase b a (reconstruct_miner_coinbase job extranonce1 extra_nonce2))) [
                | inl f ↦ absurd (ground (arith, h, e, f))
                | inr (r, f) ↦ elim (Result-cases r) [
                  | inr (m, g) ↦ absurd (ground (arith, h, e, f, g))
                  | inl (c, g) ↦
                      submit_raw-not_rejected b n n' a
                        (build_raw_block b header c a.template_transactions) reason
                        (some-injective _ _
                          (sym (rw (e, submit_block_candidate) (rw (f) (rw (g) refl))) ∙ h))
                ]
              ]
      ]
