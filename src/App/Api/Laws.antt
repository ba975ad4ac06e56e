-- ===== src/App/Api/Laws.antt =====
-- The workers that the API shows.
use azcoin_stratum_pool.Prelude.{
  ℕ, suc, String, Bool, false, ◌||◌, Option, List, [], ◌∷◌, map, length, if◌then◌else◌, string_eq,
  nat_eq, ◌==◌, ◌≡◌, refl, sym, ◌∙◌, arith, Bool-cases, inl, inr, All, length-map,
}
use azcoin_stratum_pool.Prelude.HashMap
use azcoin_stratum_pool.Prelude.HashMap.{HashMap}
use azcoin_stratum_pool.PoolCore.Types.{Job, WorkerIdentity}
use azcoin_stratum_pool.PoolCore.Worker
use azcoin_stratum_pool.PoolCore.Worker.{InMemoryWorkerRegistry}
use azcoin_stratum_pool.PoolCore.Stats.{snapshot}
use azcoin_stratum_pool.App.Handler.{Pool, on_authorize}
use azcoin_stratum_pool.App.Api.{WorkerSummary, summarize, pool_stats, pool_workers}

-- How often an id is shown.
unfoldable pub shown : String → List WorkerSummary → ℕ
shown u [] = 0
shown u (w ∷ rest) = if w.id == u then suc (shown u rest) else shown u rest

unfoldable pub named : String → List String → Bool
named u [] = false
named u (name ∷ rest) = name == u || named u rest

-- Each worker stands under its own id.
unfoldable pub Keyed : InMemoryWorkerRegistry → Type 0
Keyed = All (λ e. e.0 ≡ e.1.id)

unfoldable pub shown_in : String → InMemoryWorkerRegistry → ℕ
shown_in u m = shown u (map summarize (map (λ e. e.1) m))

pub Keyed-insert :
    (w : WorkerIdentity) (m : InMemoryWorkerRegistry) → Keyed m → Keyed (HashMap.insert w.id w m)
unfolding Keyed HashMap.insert
Keyed-insert w [] h = (refl, tt)
Keyed-insert w ((held, old) ∷ rest) (here, there) = elim (Bool-cases (held == w.id)) [
  | inl e ↦ rw (e, HashMap.insert) ((refl, there))
  | inr e ↦ rw (e, HashMap.insert) ((here, Keyed-insert w rest there))
]

pub shown-insert :
    (u : String) (w : WorkerIdentity) (m : InMemoryWorkerRegistry)
    → Keyed m
    → shown_in u (HashMap.insert w.id w m)
      ≡ (if w.id == u then (if shown_in u m == 0 then 1 else shown_in u m) else shown_in u m)
unfolding Keyed HashMap.insert shown_in shown summarize
shown-insert u w [] h = ground arith
shown-insert u w ((held, old) ∷ rest) (here, there) = ground (
  arith,
  here,
  string_eq.test_iff held w.id,
  string_eq.test_iff w.id u,
  string_eq.test_iff old.id u,
  shown-insert u w rest there,
)

module _ {N : Type 0} (current_job : N → N × Option Job) where
  -- The pool after the authorization of each name, the last of the list first.
  unfoldable pub authorize_all : Pool N → List String → Pool N
  authorize_all pool [] = pool
  authorize_all pool (name ∷ earlier) =
      (on_authorize current_job (authorize_all pool earlier) name).0

  all-Keyed :
      (pool : Pool N) (names : List String)
      → pool.worker_registry ≡ []
      → Keyed (authorize_all pool names).worker_registry
  unfolding authorize_all on_authorize Worker.register Worker.new Keyed
  all-Keyed pool [] h = rw h tt
  all-Keyed pool (name ∷ earlier) h = Keyed-insert (Worker.new name) _ (all-Keyed pool earlier h)

  all_shown :
      (pool : Pool N) (names : List String) (u : String)
      → pool.worker_registry ≡ []
      → shown_in u (authorize_all pool names).worker_registry ≡ (if named u names then 1 else 0)
  unfolding authorize_all on_authorize Worker.register Worker.new shown_in shown named
  all_shown pool [] u h = rw h refl
  all_shown pool (name ∷ earlier) u h =
      let ih = all_shown pool earlier u h in
      let step =
        shown-insert u (Worker.new name) (authorize_all pool earlier).worker_registry
          (all-Keyed pool earlier h) in
      step ∙ ground (arith, ih)

  -- From a pool without workers on, after any authorizations, the workers that the API shows are the
  -- authorized names, each once, and the count in its statistics is the length of that list.
  pub pool_workers_authorized :
      (pool : Pool N) (names : List String) (u : String)
      → pool.worker_registry ≡ []
      → let after = authorize_all pool names in
        (shown u (pool_workers after) ≡ (if named u names then 1 else 0))
        × ((pool_stats after).worker_count ≡ length (pool_workers after))
  unfolding pool_workers pool_stats Worker.list Worker.count shown_in snapshot
  pool_workers_authorized pool names u h =
      let entries = (authorize_all pool names).worker_registry in
      (
        all_shown pool names u h,
        sym (length-map summarize (map (λ e. e.1) entries) ∙ length-map (λ e. e.1) entries),
      )
