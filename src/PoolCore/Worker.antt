-- ===== src/PoolCore/Worker.antt =====
-- crates/pool_core/src/worker.rs, and the worker registry of services.rs.
use Prim.Native.Char.{code}
use Prim.Native.String.{◌++◌}
use azcoin_stratum_pool.Prelude.{
  ℕ, String, false, Option, none, some, List, map, ◌≡◌, refl, ◌≢◌, if◌then◌else◌, length, ◌==◌,
  nat_eq, string_eq, test-ne,
}
use azcoin_stratum_pool.Prelude.HashMap
use azcoin_stratum_pool.Prelude.HashMap.{HashMap}
use text.Mathlib.TextLemmas.{nil-append, cons-append}
use azcoin_stratum_pool.PoolCore.Types.{WorkerIdentity}

-- `str::split_once('.')`: the parts before and after the first dot.
pub split_once : String → Option (String × String)
split_once String.[] = none
split_once (String.◌∷◌ c s) =
    if code c == b'.'
    then some ("", s)
    else elim (split_once s) [ none ↦ none | some (u, w) ↦ some (String.◌∷◌ c u, w) ]

pub parse_worker_parts : String → Option String × Option String
unfolding split_once
parse_worker_parts id = elim (split_once id) [
  | none ↦ (some id, none)
  | some (u, w) ↦ (some u, if w == "" then none else some w)
]

unfoldable pub new : String → WorkerIdentity
unfolding parse_worker_parts
new id =
    let (username, worker_name) = parse_worker_parts id in
    record { id = id; username = username; worker_name = worker_name }

-- `InMemoryWorkerRegistry`: `workers` is a map from the id.
abbrev pub InMemoryWorkerRegistry : Type 0
InMemoryWorkerRegistry = HashMap String WorkerIdentity

unfoldable pub register : InMemoryWorkerRegistry → WorkerIdentity → InMemoryWorkerRegistry
register w worker = HashMap.insert worker.id worker w

unfoldable pub list : InMemoryWorkerRegistry → List WorkerIdentity
list w = map (λ e. e.1) w

unfoldable pub count : InMemoryWorkerRegistry → ℕ
count w = length w

-- A text without a dot.
abbrev NoDot : String → Type 0
NoDot String.[] = Unit
NoDot (String.◌∷◌ c s) = ((code c == b'.') ≡ false) × NoDot s

split_once-joined : (u w : String) → NoDot u → split_once (u ++ ("." ++ w)) ≡ some (u, w)
unfolding split_once
split_once-joined String.[] w h = rw (nil-append, cons-append, nil-append) refl
split_once-joined (String.◌∷◌ c u) w h = rw cons-append (rw (h.0, split_once-joined u w h.1))

split_once-NoDot : (id : String) → NoDot id → split_once id ≡ none
unfolding split_once
split_once-NoDot String.[] h = refl
split_once-NoDot (String.◌∷◌ c s) h = rw (h.0, split_once-NoDot s h.1)

-- "user.worker" is taken apart at its first dot; without a dot the whole id is the username, and an
-- empty worker part counts as none.
pub new_parts :
    (u w : String)
    → NoDot u
    → w ≢ ""
    → (new (u ++ ("." ++ w))
        ≡ record { id = u ++ ("." ++ w); username = some u; worker_name = some w })
      × (new u ≡ record { id = u; username = some u; worker_name = none })
      × (new (u ++ ("." ++ ""))
          ≡ record { id = u ++ ("." ++ ""); username = some u; worker_name = none })
unfolding new
new_parts u w h k = (
  rw (split_once-joined u w h, parse_worker_parts) (rw (test-ne w "" k)),
  rw (split_once-NoDot u h, parse_worker_parts),
  rw (split_once-joined u "" h, parse_worker_parts),
)
