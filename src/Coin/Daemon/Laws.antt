-- ===== src/Coin/Daemon/Laws.antt =====
-- When the submitter of src/block_submit.rs answers true.
use azcoin_stratum_pool.Prelude.{
  String, Bool, true, false, Option, none, some, [], ◌∷◌, Result, ok, err, map_err, ok_or, ◌>>=◌,
  >>=-ok, ◌≡◌, ◌≢◌, refl, ◌↔◌, ◌⊎◌, inl, inr, Bool-cases, Option-cases, arith, string_eq, nat_eq,
  ◌==◌,
}
use azcoin_stratum_pool.Prelude.Text.{trim, format}
use azcoin_stratum_pool.PoolCore.Types.{Bytes, BlockCandidate}
use azcoin_stratum_pool.Coin.Coinbase.{daemon}
use azcoin_stratum_pool.Coin.Candidate.{error_text}
use azcoin_stratum_pool.Coin.Http.{HttpRequest, HttpResponse, Send, JsonValue}
use azcoin_stratum_pool.Coin.Daemon.{
  DaemonClient, rpc_request, rpc_error, rpc_status, read_response, read_submission, rpc_call,
  submit_block, submit_candidate,
}

map_err-ok_iff :
    {A E F : Type 0} (f : E → F) (r : Result A E) (a : A) → (map_err f r ≡ ok a) ↔ (r ≡ ok a)
map_err-ok_iff f (ok x) a = ((λ h. cc), λ h. cc)
map_err-ok_iff f (err e) a = ((λ h. absurd cc), λ h. absurd cc)

ok_or-ok_iff : {A E : Type 0} (o : Option A) (e : E) (a : A) → (ok_or o e ≡ ok a) ↔ (o ≡ some a)
ok_or-ok_iff none e a = ((λ h. absurd cc), λ h. absurd cc)
ok_or-ok_iff (some x) e a = ((λ h. cc), λ h. cc)

module _ {V : Type 0} (json : JsonValue V) where
  -- No error, or one that is null.
  unfoldable pub NoError : V → Type 0
  NoError value =
      (json.get value "error" ≡ none)
      ⊎ ((e : V) × (json.get value "error" ≡ some e) × (json.is_null e ≡ true))

  -- A successful answer with a result.
  pub record Answered (resp : HttpResponse V) (result : V) : Type 0 where
    pub value : V
    pub parsed : resp.json ≡ ok value
    pub no_error : NoError value
    pub successful : resp.is_success ≡ true
    pub has_result : json.get value "result" ≡ some result

  -- Null, or a text of blanks.
  unfoldable pub Taken : V → Type 0
  Taken result =
      (json.is_null result ≡ true)
      ⊎ ((reason : String) × (json.as_str result ≡ some reason) × (trim reason ≡ ""))

  rpc_error_iff : (value : V) (u : Unit) → (rpc_error json value ≡ ok u) ↔ NoError value
  unfolding rpc_error NoError
  rpc_error_iff value u = elim (Option-cases (json.get value "error")) [
    | inl e ↦ simp (e, rpc_error) ((λ h. inl refl), λ h. refl)
    | inr (x, e) ↦ elim (Bool-cases (json.is_null x)) [
      | inl n ↦ simp (e, n, rpc_error) ((λ h. inr (x, refl, n)), λ h. refl)
      | inr n ↦
          simp (e, n, rpc_error)
            ((λ h. absurd cc), λ t. elim t [ inl h ↦ absurd cc | inr (y, h, k) ↦ absurd cc ])
    ]
  ]

  rpc_status_iff :
      (resp : HttpResponse V) (u : Unit) → (rpc_status json resp ≡ ok u) ↔ (resp.is_success ≡ true)
  unfolding rpc_status
  rpc_status_iff resp u = elim (Bool-cases resp.is_success) [
    | inl e ↦ simp (e, rpc_status) ((λ h. refl), λ h. refl)
    | inr e ↦ simp (e, rpc_status) ((λ h. absurd cc), λ h. absurd cc)
  ]

  read_response-Answered :
      (resp : HttpResponse V) (result : V)
      → read_response json resp ≡ ok result
      → Answered resp result
  unfolding read_response
  read_response-Answered resp result h =
      let parsed = >>=-ok (map_err _ resp.json) _ result h in
      let checked = >>=-ok (rpc_error json parsed.0) _ result parsed.2 in
      let status = >>=-ok (rpc_status json resp) _ result checked.2 in
      record {
        value = parsed.0;
        parsed = (map_err-ok_iff _ resp.json parsed.0).0 parsed.1;
        no_error = (rpc_error_iff parsed.0 checked.0).0 checked.1;
        successful = (rpc_status_iff resp status.0).0 status.1;
        has_result = (ok_or-ok_iff _ _ result).0 status.2;
      }

  Answered-read_response :
      (resp : HttpResponse V) (result : V)
      → Answered resp result
      → read_response json resp ≡ ok result
  unfolding read_response rpc_status
  Answered-read_response resp result a =
      rw (a.parsed, read_response)
        (rw ((rpc_error_iff a.value tt).1 a.no_error) (rw (a.successful, a.has_result) refl))

  read_submission_text :
      (value : V) (reason : String)
      → json.as_str value ≡ some reason
      → trim reason ≡ ""
      → read_submission json value ≡ ok true
  unfolding read_submission
  read_submission_text value reason e k =
      let blank = (string_eq.test_iff (trim reason) "").1 k in
      elim (Bool-cases (json.is_null value)) [
        | inl n ↦ rw (n, read_submission) refl
        | inr n ↦ rw (n, read_submission) (rw (e) (rw (blank) refl))
      ]

  read_submission-Taken : (value : V) → read_submission json value ≡ ok true → Taken value
  unfolding read_submission Taken
  read_submission-Taken value h = elim (Bool-cases (json.is_null value)) [
    | inl e ↦ inl e
    | inr e ↦ elim (Option-cases (json.as_str value)) [
      | inl f ↦ absurd (ground (arith, h, e, f))
      | inr (reason, f) ↦ elim (Bool-cases (trim reason == "")) [
        | inl k ↦ inr (reason, f, (string_eq.test_iff (trim reason) "").0 k)
        | inr k ↦ absurd (ground (arith, h, e, f, k))
      ]
    ]
  ]

  read_submission_iff : (value : V) → (read_submission json value ≡ ok true) ↔ Taken value
  unfolding read_submission Taken
  read_submission_iff value = (
    read_submission-Taken value,
    λ taken. elim taken [
      | inl n ↦ rw (n, read_submission) refl
      | inr (reason, e, k) ↦ read_submission_text value reason e k
    ],
  )

  pub read_submission_not_false : (value : V) → read_submission json value ≢ ok false
  unfolding read_submission
  read_submission_not_false value h = elim (Bool-cases (json.is_null value)) [
    | inl e ↦ absurd (ground (arith, h, e))
    | inr e ↦ elim (Option-cases (json.as_str value)) [
      | inl f ↦ absurd (ground (arith, h, e, f))
      | inr (reason, f) ↦ elim (Bool-cases (trim reason == "")) [
        | inl k ↦ absurd (ground (arith, h, e, f, k))
        | inr k ↦ absurd (ground (arith, h, e, f, k))
      ]
    ]
  ]

  -- The request that carries a block.
  unfoldable pub submission : DaemonClient → (Bytes → String) → BlockCandidate → HttpRequest V
  submission client hex_encode block =
      rpc_request json client "submitblock"
        (json.array (json.string (hex_encode block.raw_block) ∷ []))

  unfoldable pub submit_answer : Result (HttpResponse V) String → Result Bool String
  submit_answer r = map_err error_text (
      (map_err (λ e. daemon (format ("daemon request failed: " ∷ e ∷ []))) r >>= read_response json)
      >>= read_submission json)

module _ {N V : Type 0} (json : JsonValue V) (send : Send N V) (client : DaemonClient)
    (hex_encode : Bytes → String) where
  pub submit_candidate_answer :
      (n : N) (block : BlockCandidate)
      → (submit_candidate json send client hex_encode n block).1
        ≡ submit_answer json (send n (submission json client hex_encode block)).1
  unfolding submit_candidate submit_block rpc_call submission submit_answer
  submit_candidate_answer n block = refl

  -- The submitter answers true to a block exactly when its request is answered, in JSON, without an
  -- error that is not null, with a status of success and with a result, and that result is null or a
  -- text of blanks.
  pub submit_candidate_iff :
      (n : N) (block : BlockCandidate)
      → ((submit_candidate json send client hex_encode n block).1 ≡ ok true) ↔ (
          (resp : HttpResponse V) × (result : V) × ((send n
              (submission json client hex_encode block)).1
            ≡ ok resp)
          × Answered json resp result
          × Taken json result)
  unfolding submit_answer
  submit_candidate_iff n block = rw (submit_candidate_answer n block) (
      (
        (λ h.
            let inner = (map_err-ok_iff error_text _ true).0 h in
            let answered = >>=-ok _ (read_submission json) true inner in
            let sent =
              >>=-ok (map_err _ (send n (submission json client hex_encode block)).1)
                (read_response json) answered.0 answered.1 in
            (
              sent.0,
              answered.0,
              (map_err-ok_iff _ (send n (submission json client hex_encode block)).1 sent.0).0
                  sent.1,
              read_response-Answered json sent.0 answered.0 sent.2,
              (read_submission_iff json answered.0).0 answered.2,
            )),
        λ (resp, result, sent, answered, taken). rw (sent) (
            rw (Answered-read_response json resp result answered)
              (rw ((read_submission_iff json result).1 taken) refl)),
      ))
