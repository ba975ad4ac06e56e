-- ===== src/Prelude/HashMap.antt =====
-- `HashMap` as an association list, by its laws. No order of the entries is relied on.
use mathlib.Core.Path.{◌≡◌, refl}
use mathlib.Core.Bool.{Bool, true, false}
use mathlib.Core.List.{List, [], ◌∷◌}
use mathlib.Core.Option.{Option, none, some}
use native.Mathlib.Omega.{arith}
use azcoin_stratum_pool.Prelude.Tests.{if◌then◌else◌}
use azcoin_stratum_pool.Prelude.Equality.{PartialEq, ◌==◌}

abbrev pub HashMap : Type 0 → Type 0 → Type 0
HashMap K V = List (K × V)

module _ {K V : Type 0} ⦃e : PartialEq K⦄ where
  -- `get`
  unfoldable pub lookup : K → HashMap K V → Option V
  lookup key [] = none
  lookup key ((held, old) ∷ rest) = if held == key then some old else lookup key rest

  -- `insert` overwrites an entry that is there.
  unfoldable pub insert : K → V → HashMap K V → HashMap K V
  insert key new [] = (key, new) ∷ []
  insert key new ((held, old) ∷ rest) =
      if held == key then (key, new) ∷ rest else (held, old) ∷ insert key new rest

  unfoldable pub remove : K → HashMap K V → HashMap K V
  remove key [] = []
  remove key ((held, old) ∷ rest) =
      if held == key then remove key rest else (held, old) ∷ remove key rest

  unfoldable pub contains_key : K → HashMap K V → Bool
  unfolding lookup
  contains_key key entries = elim (lookup key entries) [ none ↦ false | some found ↦ true ]

  pub lookup-insert :
      (key wanted : K) (new : V) (entries : HashMap K V)
      → lookup wanted (insert key new entries)
        ≡ (if key == wanted then some new else lookup wanted entries)
  unfolding lookup insert
  lookup-insert key wanted new [] = refl
  lookup-insert key wanted new ((held, old) ∷ rest) =
      let same = e.test_iff key wanted in
      let here = e.test_iff held key in
      ground (arith, same, here, e.test_iff held wanted, lookup-insert key wanted new rest)

  pub lookup-remove :
      (key wanted : K) (entries : HashMap K V)
      → lookup wanted (remove key entries) ≡ (if key == wanted then none else lookup wanted entries)
  unfolding lookup remove
  lookup-remove key wanted [] = ground arith
  lookup-remove key wanted ((held, old) ∷ rest) =
      let same = e.test_iff key wanted in
      let here = e.test_iff held key in
      ground (arith, same, here, e.test_iff held wanted, lookup-remove key wanted rest)
