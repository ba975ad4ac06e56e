-- ===== src/Sv2/Aggregation/Laws.antt =====
-- The counters of a miner as a summary of the history of the engine.
use azcoin_stratum_pool.Prelude.{
  ℕ, suc, ◌+◌, ◌%◌, ◌^◌, ◌<◌, ◌≤◌, Bool, true, false, ◌||◌, Option, none, some, List, [], ◌∷◌, ◌≡◌,
  refl, ap, ◌∙◌, ◌==◌, length, if◌then◌else◌, Bool-cases, Option-cases, inl, inr, arith,
}
use azcoin_stratum_pool.Prelude.HashMap
use azcoin_stratum_pool.Prelude.HashMap.{HashMap, lookup-insert}
use azcoin_stratum_pool.Sv2.Aggregation.{
  MinerId, MinerStats, ShareRecord, MinerEvent, no_stats, miner_eq, update, AggregationEngine,
  count_share, new, register_miner, record_event, record_share, get_stats,
}

-- The calls of an engine.
pub data Call (D : Type 0) : Type 0 where
  register : MinerId → Call D
  event : MinerId → MinerEvent D → Call D
  share : ShareRecord D → Call D

or_else : {V : Type 0} → V → Option V → V
or_else d none = d
or_else d (some v) = v

lookup-update :
    {V : Type 0} (k wanted : MinerId) (d : V) (f : V → V) (m : HashMap MinerId V)
    → HashMap.lookup wanted (update k d f m)
      ≡ (if k == wanted then some (f (or_else d (HashMap.lookup k m))) else HashMap.lookup wanted m)
unfolding update or_else
lookup-update k wanted d f m = elim (Option-cases (HashMap.lookup k m)) [
  | inl e ↦ rw (e, update) (lookup-insert k wanted (f d) m)
  | inr (v, e) ↦ rw (e, update) (lookup-insert k wanted (f v) m)
]

module _ {D : Type 0} where
  unfoldable pub step : AggregationEngine D → Call D → AggregationEngine D
  step engine (register m) = register_miner engine m
  step engine (event m e) = record_event engine m e
  step engine (share r) = record_share engine r

  -- The engine after a history, which has its newest call first.
  unfoldable pub run : List (Call D) → AggregationEngine D
  run [] = new
  run (c ∷ earlier) = step (run earlier) c

  -- The miner that a call is about.
  unfoldable pub subject : Call D → MinerId
  subject (register m) = m
  subject (event m e) = m
  subject (share r) = r.miner

  unfoldable pub mentioned : MinerId → List (Call D) → Bool
  mentioned m [] = false
  mentioned m (c ∷ earlier) = subject c == m || mentioned m earlier

  -- The shares of a miner, newest first.
  unfoldable pub shares_of : MinerId → List (Call D) → List (ShareRecord D)
  shares_of m [] = []
  shares_of m (register n ∷ earlier) = shares_of m earlier
  shares_of m (event n e ∷ earlier) = shares_of m earlier
  shares_of m (share r ∷ earlier) =
      let rest = shares_of m earlier in if r.miner == m then r ∷ rest else rest

  unfoldable pub accepted_count : List (ShareRecord D) → ℕ
  accepted_count [] = 0
  accepted_count (r ∷ rest) = if r.accepted then suc (accepted_count rest) else accepted_count rest

  unfoldable pub rejected_count : List (ShareRecord D) → ℕ
  rejected_count [] = 0
  rejected_count (r ∷ rest) = if r.accepted then rejected_count rest else suc (rejected_count rest)

  unfoldable pub last_time : List (ShareRecord D) → ℕ
  last_time [] = 0
  last_time (r ∷ rest) = r.timestamp

  unfoldable pub summary : List (ShareRecord D) → MinerStats
  summary rs = record {
    total_shares = length rs;
    accepted_shares = accepted_count rs;
    rejected_shares = rejected_count rs;
    last_share_time = last_time rs;
  }

  accepted_count-le : (rs : List (ShareRecord D)) → accepted_count rs ≤ length rs
  unfolding accepted_count
  accepted_count-le [] = omega arith
  accepted_count-le (r ∷ rs) = elim (Bool-cases r.accepted) [
    | inl e ↦ rw (e, accepted_count) (omega (arith, accepted_count-le rs))
    | inr e ↦ rw (e, accepted_count) (omega (arith, accepted_count-le rs))
  ]

  rejected_count-le : (rs : List (ShareRecord D)) → rejected_count rs ≤ length rs
  unfolding rejected_count
  rejected_count-le [] = omega arith
  rejected_count-le (r ∷ rs) = elim (Bool-cases r.accepted) [
    | inl e ↦ rw (e, rejected_count) (omega (arith, rejected_count-le rs))
    | inr e ↦ rw (e, rejected_count) (omega (arith, rejected_count-le rs))
  ]

  counted :
      (r : ShareRecord D) (rs : List (ShareRecord D))
      → suc (length rs) < 2 ^ 64
      → count_share r (summary rs) ≡ summary (r ∷ rs)
  unfolding count_share summary accepted_count rejected_count last_time
  counted r rs h =
      let t : (length rs + 1) % 2 ^ 64 ≡ suc (length rs) = omega arith in
      let u : (accepted_count rs + 1) % 2 ^ 64 ≡ suc (accepted_count rs) =
        omega (arith, accepted_count-le rs) in
      let v : (rejected_count rs + 1) % 2 ^ 64 ≡ suc (rejected_count rs) =
        omega (arith, rejected_count-le rs) in
      elim (Bool-cases r.accepted) [
        | inl e ↦ simp (e, t, u, count_share, accepted_count, rejected_count) refl
        | inr e ↦ simp (e, t, v, count_share, accepted_count, rejected_count) refl
      ]

  length-shares_of : (m : MinerId) (h : List (Call D)) → length (shares_of m h) ≤ length h
  unfolding shares_of
  length-shares_of m [] = omega arith
  length-shares_of m (register n ∷ h) = omega (arith, length-shares_of m h)
  length-shares_of m (event n e ∷ h) = omega (arith, length-shares_of m h)
  length-shares_of m (share r ∷ h) = elim (Bool-cases (r.miner == m)) [
    | inl e ↦ rw (e, shares_of) (omega (arith, length-shares_of m h))
    | inr e ↦ rw (e, shares_of) (omega (arith, length-shares_of m h))
  ]

  unmentioned : (m : MinerId) (h : List (Call D)) → mentioned m h ≡ false → shares_of m h ≡ []
  unfolding shares_of mentioned subject
  unmentioned m [] e = refl
  unmentioned m (register n ∷ h) e = unmentioned m h (ground (arith, e))
  unmentioned m (event n x ∷ h) e = unmentioned m h (ground (arith, e))
  unmentioned m (share r ∷ h) e =
      let other : (r.miner == m) ≡ false = ground (arith, e) in
      let rest = unmentioned m h (ground (arith, e)) in rw (other, shares_of) rest

  unfoldable pub known_stats : MinerId → List (Call D) → Option MinerStats
  known_stats m h = if mentioned m h then some (summary (shares_of m h)) else none

  held :
      (m : MinerId) (h : List (Call D))
      → get_stats (run h) m ≡ known_stats m h
      → or_else no_stats (get_stats (run h) m) ≡ summary (shares_of m h)
  unfolding known_stats or_else summary accepted_count rejected_count last_time
  held m h e = elim (Bool-cases (mentioned m h)) [
    | inl k ↦ rw (e) (rw (k, known_stats) refl)
    | inr k ↦ rw (e) (rw (k, known_stats) (rw (unmentioned m h k) refl))
  ]

  -- One more call about `k`, which changes its counters by `f`.
  called :
      (m k : MinerId) (h : List (Call D)) (f : MinerStats → MinerStats) (rs : List (ShareRecord D))
      → get_stats (run h) m ≡ known_stats m h
      → ((k == m) ≡ true → f (summary (shares_of m h)) ≡ summary rs)
      → ((k == m) ≡ false → shares_of m h ≡ rs)
      → HashMap.lookup m (update k no_stats f (run h).miners)
        ≡ (if k == m || mentioned m h then some (summary rs) else none)
  unfolding known_stats get_stats
  called m k h f rs e here there =
      lookup-update k m no_stats f (run h).miners ∙ elim (Bool-cases (k == m)) [
        | inl q ↦
            let same : k ≡ m = (miner_eq.test_iff k m).0 q in
            let change = ap (λ x. some (f (or_else no_stats (get_stats (run h) x)))) same in
            rw (q) (change ∙ ap (λ x. some (f x)) (held m h e) ∙ ap some (here q))
        | inr q ↦ rw (q) (e ∙ ap (λ x. if mentioned m h then some (summary x) else none) (there q))
      ]

  -- Below 2 ^ 64 calls, the counters of a miner are those of its history: a miner that no call is
  -- about has none, and every other one has the number of its shares, of the accepted and of the
  -- rejected ones, and the time of the last one, whatever the other miners do.
  pub get_stats-run :
      (m : MinerId) (h : List (Call D)) → length h < 2 ^ 64 → get_stats (run h) m ≡ known_stats m h
  unfolding run step register_miner record_event record_share new get_stats known_stats mentioned
      subject shares_of HashMap.lookup
  get_stats-run m [] bound = refl
  get_stats-run m (register n ∷ h) bound =
      called m n h (λ s. s) (shares_of m h) (get_stats-run m h (omega (arith, bound))) (λ q. refl)
        (λ q. refl)
  get_stats-run m (event n e ∷ h) bound =
      called m n h (λ s. s) (shares_of m h) (get_stats-run m h (omega (arith, bound))) (λ q. refl)
        (λ q. refl)
  get_stats-run m (share r ∷ h) bound =
      called m r.miner h (count_share r) (shares_of m (share r ∷ h))
        (get_stats-run m h (omega (arith, bound)))
        (λ q.
          counted r (shares_of m h) (omega (arith, bound, length-shares_of m h))
          ∙ rw (q, shares_of) refl)
        (λ q. rw (q, shares_of) refl)
