-- ===== src/Coin/ClientTests.antt =====
-- The theorems on the clients and the job sources at concrete inputs.
use Prim.Native.Char.{code}
use azcoin_stratum_pool.Prelude.{
  ℕ, zero, suc, ◌+◌, String, Bool, true, false, Option, none, some, [], ◌∷◌, Result, ok, ◌≡◌, ◌≢◌,
  refl, ap, ◌∙◌, ◌↔◌, arith, if◌then◌else◌, string_eq, nat_eq, ◌==◌, replicate,
}
use azcoin_stratum_pool.Prelude.Words.{le_value, le_bytes, be_value}
use azcoin_stratum_pool.Prelude.Text.{trim}
use azcoin_stratum_pool.PoolCore.Types.{Bytes, Job, BlockCandidate, block}
use azcoin_stratum_pool.Coin.Template.{BlockTemplate, decode_prev_hash, decode_bits}
use azcoin_stratum_pool.Coin.Candidate.{rejected, submit_block_candidate}
use azcoin_stratum_pool.Coin.Http.{HttpResponse, Send, JsonValue}
use azcoin_stratum_pool.Coin.Daemon.{
  DaemonClient, submit_candidate, get_block_template, rpc_call, read_response, rpc_error,
  rpc_status,
}
use azcoin_stratum_pool.Coin.Daemon.Laws.{Answered, Taken, submission, submit_candidate_iff}
use azcoin_stratum_pool.Coin.Daemon.Refusal.{candidate_not_rejected}
use azcoin_stratum_pool.Coin.NodeApi.{NodeApiTemplate, build_share_request, get_template_current}
use azcoin_stratum_pool.Coin.NodeApi.Laws.{ReadsAs, build_share_request-ReadsAs}
use azcoin_stratum_pool.Coin.ApiTemplate.{
  api_template_to_job, ntime_hex_to_u32, build_coinbase_parts,
}
use azcoin_stratum_pool.Coin.ApiTemplate.Laws.{ApiWellFormed, api_template_to_job-WellFormed}
use azcoin_stratum_pool.Coin.JobSource.{
  RpcJobSource, NodeApiJobSource, mapped, api_job, rpc_job, rpc_current_job, api_current_job,
}
use azcoin_stratum_pool.Coin.Tests.{no_hex, extranonce1, a_share, toy_bitcoin, solved_job}
use azcoin_stratum_pool.Coin.JobTests.{
  toy_decode, toy_decode_bytes, flat_bitcoin, a_template, paid_to, a_job, a_job_made,
}

-- JSON values that are null, a text, or an object with a result.
data Toy : Type 0 where
  null_value : Toy
  text : String → Toy
  reply : Toy → Toy

abbrev toy_get : Toy → String → Option Toy
toy_get null_value key = none
toy_get (text s) key = none
toy_get (reply result) key = if key == "result" then some result else none

abbrev toy_is_null : Toy → Bool
toy_is_null null_value = true
toy_is_null (text s) = false
toy_is_null (reply result) = false

abbrev toy_text : Toy → Option String
toy_text null_value = none
toy_text (text s) = some s
toy_text (reply result) = none

abbrev toy : JsonValue Toy
toy = record {
  string = text;
  array = λ items. null_value;
  object = λ fields. null_value;
  get = toy_get;
  is_null = toy_is_null;
  as_str = toy_text;
  to_text = λ v. "value";
}

-- A daemon that counts its calls and always answers the same.
abbrev answering : Toy → Send ℕ Toy
answering result n request =
    (suc n, ok (record { is_success = true; status = "200 OK"; json = ok (reply result) }))

abbrev client : DaemonClient
client = record { url = "http://127.0.0.1:8332"; rpc_user = ""; rpc_password = "" }

abbrev candidate : BlockCandidate
candidate = record { block_hash = []; height = 7; raw_block = 1 ∷ 2 ∷ [] }

submit_candidate_iff_example :
    ((submit_candidate toy (answering null_value) client no_hex 0 candidate).1 ≡ ok true) ↔ (
      (resp : HttpResponse Toy) × (result : Toy) × ((answering null_value 0
          (submission toy client no_hex candidate)).1
        ≡ ok resp)
      × Answered toy resp result
      × Taken toy result)
submit_candidate_iff_example =
    submit_candidate_iff toy (answering null_value) client no_hex 0 candidate

candidate_not_rejected_example :
    submit_block_candidate
      (submit_candidate toy (answering (text "bad-txnmrklroot")) client no_hex)
      toy_bitcoin
      0
      []
      solved_job
      extranonce1
      (1 ∷ [])
    ≢ some (1, rejected "bad-txnmrklroot")
candidate_not_rejected_example =
    candidate_not_rejected toy (answering (text "bad-txnmrklroot")) client no_hex toy_bitcoin 0 1 []
      solved_job extranonce1 (1 ∷ []) "bad-txnmrklroot"

abbrev pub an_api_template : NodeApiTemplate
an_api_template = record {
  job_id = "c68fdce62b92e2d8";
  prev_hash = "prev";
  version = 0x20000000;
  nbits = "bits";
  ntime = "bits";
  clean_jobs = true;
  height = 808523;
}

abbrev an_api_job : Job
an_api_job = record {
  job_id = "c68fdce62b92e2d8";
  prev_hash = replicate 32 0;
  coinbase_part1 = 1 ∷ 0 ∷ 0 ∷ 0 ∷ 0 ∷ 0x4b ∷ 0x56 ∷ 0x0c ∷ 0 ∷ 0 ∷ 0 ∷ 0 ∷ 0 ∷ [];
  coinbase_part2 = 0xff ∷ 0xff ∷ 0xff ∷ 0xff ∷ [];
  merkle_branch = [];
  version = 0x20000000;
  nbits = 0x01010101;
  ntime = 0x01010101;
  clean_jobs = true;
  block_assembly = none;
}

an_api_job_made : api_template_to_job toy_decode an_api_template ≡ ok an_api_job
unfolding api_template_to_job decode_prev_hash decode_bits ntime_hex_to_u32 build_coinbase_parts
    le_bytes le_value be_value trim
an_api_job_made = refl

api_template_to_job-WellFormed_example :
    ApiWellFormed toy_decode toy_decode_bytes an_api_template an_api_job
api_template_to_job-WellFormed_example =
    api_template_to_job-WellFormed toy_decode toy_decode_bytes an_api_template an_api_job
      an_api_job_made

abbrev api_source : NodeApiJobSource
api_source = record { client = record { base_url = "http://127.0.0.1:8080"; bearer_token = none } }

abbrev read_api : Toy → Result NodeApiTemplate String
read_api v = ok an_api_template

api_current :
    (api_current_job toy_decode (answering null_value) read_api api_source 0).1 ≡ some an_api_job
unfolding api_current_job get_template_current api_job mapped
api_current = rw (an_api_job_made) refl

abbrev rpc_source : RpcJobSource
rpc_source = record { daemon = client; payout_script_pubkey = some paid_to }

abbrev read_template : Toy → Result BlockTemplate String
read_template v = ok a_template

rpc_current :
    (rpc_current_job toy_decode
      (answering null_value)
      toy
      read_template
      flat_bitcoin
      rpc_source
      0).1
    ≡ some a_job
unfolding rpc_current_job get_block_template rpc_call read_response rpc_error rpc_status rpc_job
    mapped
rpc_current = rw (a_job_made) refl

-- Bytes in unary, each ended by a 0.
abbrev pub put : ℕ → String → String
put zero s = String.◌∷◌ "0" s
put (suc n) s = String.◌∷◌ "1" (put n s)

abbrev pub unary : Bytes → String
unary [] = ""
unary (b ∷ bs) = put b (unary bs)

abbrev pub read_unary : ℕ → String → Bytes
read_unary acc String.[] = []
read_unary acc (String.◌∷◌ c s) =
    let ended = read_unary 0 s in
    let more = read_unary (suc acc) s in if code c == b'0' then acc ∷ ended else more

read_put : (acc n : ℕ) (s : String) → read_unary acc (put n s) ≡ (acc + n) ∷ read_unary 0 s
read_put acc zero s = ap (λ k. k ∷ read_unary 0 s) (omega arith)
read_put acc (suc n) s = read_put (suc acc) n s ∙ ap (λ k. k ∷ read_unary 0 s) (omega arith)

pub read_all : (bs : Bytes) → read_unary 0 (unary bs) ≡ bs
read_all [] = refl
read_all (b ∷ bs) =
    read_put 0 b (unary bs)
    ∙ ap (λ k. k ∷ read_unary 0 (unary bs)) (omega arith)
    ∙ ap (λ rest. b ∷ rest) (read_all bs)

build_share_request-ReadsAs_example :
    ReadsAs
      (λ s. ok (read_unary 0 s))
      (build_share_request unary 1700000000 a_share block 1)
      a_share
      block
build_share_request-ReadsAs_example =
    build_share_request-ReadsAs unary (λ s. ok (read_unary 0 s)) (λ bs h. ap ok (read_all bs))
      1700000000 a_share block 1 (omega arith, (omega arith, (omega arith, (omega arith, tt))))
      (omega arith) (omega arith)
