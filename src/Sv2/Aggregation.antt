-- ===== src/Sv2/Aggregation.antt =====
-- crates/sv2_scaffold/src/aggregation.rs: shares counted for each miner.
-- `D` stands for the type of difficulties, which no operation looks at. The counters are 64 bits wide
-- and wrap around, as in a build without overflow checks.
pub mod Laws
use azcoin_stratum_pool.Prelude.{
  ℕ, ◌+◌, ◌%◌, ◌^◌, String, Bool, true, false, ◌&&◌, Option, none, some, List, [], ◌∷◌, ◌++◌, ◌≡◌,
  ◌↔◌, refl, ap, PartialEq, string_eq, ◌==◌, if◌then◌else◌, Bool-cases, inl, inr, arith,
}
use azcoin_stratum_pool.Prelude.HashMap
use azcoin_stratum_pool.Prelude.HashMap.{HashMap}

pub record MinerId : Type 0 where
  pub username : String
  pub worker : String

-- The derived equality.
abbrev pub same_miner : MinerId → MinerId → Bool
same_miner a b = (a.username == b.username) && (a.worker == b.worker)

pub data RejectionReason : Type 0 where
  duplicate : RejectionReason
  stale_share : RejectionReason
  low_difficulty : RejectionReason
  other : String → RejectionReason

pub data MinerEventKind (D : Type 0) : Type 0 where
  registered : MinerEventKind D
  authorized : MinerEventKind D
  difficulty_assigned : D → MinerEventKind D
  job_observed : String → MinerEventKind D
  share_submitted : D → MinerEventKind D
  share_accepted : D → MinerEventKind D
  share_rejected : RejectionReason → MinerEventKind D

pub record ShareRecord (D : Type 0) : Type 0 where
  pub miner : MinerId
  pub difficulty : D
  pub timestamp : ℕ
  pub accepted : Bool

pub record MinerEvent (D : Type 0) : Type 0 where
  pub timestamp : ℕ
  pub kind : MinerEventKind D

pub record MinerStats : Type 0 where
  pub total_shares : ℕ
  pub accepted_shares : ℕ
  pub rejected_shares : ℕ
  pub last_share_time : ℕ

-- `MinerStats::default()`
abbrev pub no_stats : MinerStats
no_stats = record {
  total_shares = 0;
  accepted_shares = 0;
  rejected_shares = 0;
  last_share_time = 0;
}

pub same_miner_iff : (a b : MinerId) → (same_miner a b ≡ true) ↔ (a ≡ b)
same_miner_iff a b =
    let named = string_eq.test_iff a.username b.username in
    let working = string_eq.test_iff a.worker b.worker in
    (
      (λ h.
          let u : a.username ≡ b.username = ground (arith, h, named, working) in
          let w : a.worker ≡ b.worker = ground (arith, h, named, working) in
          λ i. record { username = u i; worker = w i }),
      λ e. rw (named.1 (ap (λ m. m.username) e), working.1 (ap (λ m. m.worker) e)) refl,
    )

instance abbrev pub miner_eq : PartialEq MinerId
miner_eq = record { test_iff = same_miner_iff; test = same_miner }

-- `entry(k).or_default()`, changed by `f`.
unfoldable pub update : {V : Type 0} → MinerId → V → (V → V) → HashMap MinerId V → HashMap MinerId V
update k default f m = elim (HashMap.lookup k m) [
  | none ↦ HashMap.insert k (f default) m
  | some v ↦ HashMap.insert k (f v) m
]

pub record AggregationEngine (D : Type 0) : Type 0 where
  pub miners : HashMap MinerId MinerStats
  pub events : HashMap MinerId (List (MinerEvent D))

-- One more share in the counters.
unfoldable pub count_share : {D : Type 0} → ShareRecord D → MinerStats → MinerStats
count_share r stats =
    if r.accepted
    then record {
      total_shares = (stats.total_shares + 1) % 2 ^ 64;
      accepted_shares = (stats.accepted_shares + 1) % 2 ^ 64;
      rejected_shares = stats.rejected_shares;
      last_share_time = r.timestamp;
    }
    else record {
      total_shares = (stats.total_shares + 1) % 2 ^ 64;
      accepted_shares = stats.accepted_shares;
      rejected_shares = (stats.rejected_shares + 1) % 2 ^ 64;
      last_share_time = r.timestamp;
    }

module _ {D : Type 0} where
  unfoldable pub new : AggregationEngine D
  new = record { miners = []; events = [] }

  unfoldable pub register_miner : AggregationEngine D → MinerId → AggregationEngine D
  register_miner self miner = record {
    miners = update miner no_stats (λ s. s) self.miners;
    events = update miner [] (λ es. es) self.events;
  }

  unfoldable pub record_event : AggregationEngine D → MinerId → MinerEvent D → AggregationEngine D
  record_event self miner event = record {
    miners = update miner no_stats (λ s. s) self.miners;
    events = update miner [] (λ es. es ++ (event ∷ [])) self.events;
  }

  unfoldable pub record_share : AggregationEngine D → ShareRecord D → AggregationEngine D
  record_share self r = record {
    events = update r.miner [] (λ es. es) self.events;
    miners = update r.miner no_stats (count_share r) self.miners;
  }

  unfoldable pub get_stats : AggregationEngine D → MinerId → Option MinerStats
  get_stats self miner = HashMap.lookup miner self.miners

  unfoldable pub get_events : AggregationEngine D → MinerId → Option (List (MinerEvent D))
  get_events self miner = HashMap.lookup miner self.events
