-- ===== src/Sv1/Server/Reach.antt =====
-- The server's runs, one accepted connection or one session's turn at a time, and extranonce1 in them.
use azcoin_stratum_pool.Prelude.{
  ℕ, suc, ◌+◌, ◌-◌, ◌^◌, ◌<◌, ◌≤◌, String, some, List, [], ◌∷◌, ◌++◌, Result, ◌≡◌, ◌≢◌, sym, ap,
  ◌∙◌, inl, inr, Bool-cases, arith, get_elem?, set, take, drop, All,
}
use azcoin_stratum_pool.Prelude.Text.{hex08, u32_from_hex}
use azcoin_stratum_pool.Prelude.Numerals.{u32_from_hex-hex08}
use azcoin_stratum_pool.PoolCore.Types.{Bytes}
use azcoin_stratum_pool.Sv1.Messages.{Json}
use azcoin_stratum_pool.Sv1.Session.{SessionState, SessionEventHandler, Shared}
use azcoin_stratum_pool.Sv1.Server.{Event, Turn, turn, Server, start, accept, after_turn}
use azcoin_stratum_pool.Sv1.Server.Distinct.{
  subscribed_ids, Distinct, removed-All, removed-Distinct, set-same, set-All, set-Distinct, opened,
}
use azcoin_stratum_pool.Sv1.Server.Ids.{Kept, Issued, Ids, turn-Ids}

module _ {W V O : Type 0} (handler : SessionEventHandler W) (initial_difficulty : ℕ)
    (json : Json V O) (hex_decode : String → Result Bytes String) where
  -- A connection, or a turn of one of the open sessions.
  pub data Step (server : Server W) : Server W → Type 0 where
    accepted : Step server (accept handler server)
    turned :
        (i : ℕ) (s : SessionState) (e : Event V)
        → get_elem? server.sessions i ≡ some s
        → Step server (
            after_turn handler server i
              (turn handler initial_difficulty json hex_decode e server.common s))

  -- What the server reaches in `n` steps.
  pub data Reach (world : W) : ℕ → Server W → Type 0 where
    begun : Reach world 0 (start handler world)
    next :
        {n : ℕ} {before after : Server W}
        → Reach world n before
        → Step before after
        → Reach world (suc n) after

-- An id that the counter has given.
unfoldable pub Given : ℕ → String → Type 0
Given n id = (k : ℕ) × (k < n) × (id ≡ hex08 k)

Given-mono : (n m : ℕ) (id : String) → n ≤ m → Given n id → Given m id
unfolding Given
Given-mono n m id h (k, lt, e) = (k, omega arith, e)

hex08-injective : (k n : ℕ) → k < 2 ^ 32 → n < 2 ^ 32 → hex08 k ≡ hex08 n → k ≡ n
hex08-injective k n hk hn e =
    let p = u32_from_hex-hex08 k hk in
    let q = u32_from_hex-hex08 n hn in cc (p, q, ap u32_from_hex e)

fresh : (n : ℕ) (id : String) → n < 2 ^ 32 → Given n id → hex08 n ≢ id
unfolding Given
fresh n id h (k, lt, e) same =
    let eq : n ≡ k = hex08-injective n k h (omega arith) (same ∙ e) in omega arith

All_imp :
    (P Q : String → Type 0) (xs : List String) → ((x : String) → P x → Q x) → All P xs → All Q xs
All_imp P Q [] f h = tt
All_imp P Q (x ∷ xs) f h = (f x h.0, All_imp P Q xs f h.1)

-- The counter after `n` steps, the ids it has given, and no id given twice.
unfoldable pub Inv : ℕ → ℕ → List SessionState → Type 0
Inv n next_extranonce1 sessions =
    (next_extranonce1 ≤ n + 1)
    × (All (Given next_extranonce1) (subscribed_ids sessions))
    × Distinct (subscribed_ids sessions)

Inv-Kept :
    (n c c' i : ℕ) (ss : List SessionState) (s s' : SessionState)
    → get_elem? ss i ≡ some s
    → Kept c s c' s'
    → Inv n c ss
    → Inv (suc n) c' (set ss i s')
unfolding Inv Kept
Inv-Kept n c c' i ss s s' at (same, sub, id) (le, given, distinct) =
    rw (set-same ss i s s' at sub id, same) ((omega arith, given, distinct))

Inv-Issued :
    (n c c' i : ℕ) (ss : List SessionState) (s' : SessionState)
    → suc n < 2 ^ 32 - 1
    → Issued c c' s'
    → Inv n c ss
    → Inv (suc n) c' (set ss i s')
unfolding Inv Issued Given
Inv-Issued n c c' i ss s' bound (raised, id) (le, given, distinct) = (
  omega arith,
  set-All (Given c') ss i s' (c, omega arith, id)
      (All_imp _ _ _ (λ x. Given-mono c c' x (omega arith)) given),
  set-Distinct ss i s' (All_imp _ _ _ (λ x h same. fresh c x (omega arith) h (sym id ∙ same)) given)
      distinct,
)

Inv-removed :
    (n c c' i : ℕ) (ss : List SessionState)
    → c ≤ c'
    → c' ≤ suc n + 1
    → Inv n c ss
    → Inv (suc n) c' (take i ss ++ drop (suc i) ss)
unfolding Inv
Inv-removed n c c' i ss up le (le0, given, distinct) = (
  le,
  removed-All _ ss i (All_imp _ _ _ (λ x. Given-mono c c' x up) given),
  removed-Distinct ss i distinct,
)

module _ {W V O : Type 0} (handler : SessionEventHandler W) (initial_difficulty : ℕ)
    (json : Json V O) (hex_decode : String → Result Bytes String) where
  Ids-raised :
      (n : ℕ) (g : Shared W) (s : SessionState) (g' : Shared W) (s' : SessionState)
      → suc n < 2 ^ 32 - 1
      → g.next_extranonce1 ≤ n + 1
      → Ids handler g s g' s'
      → (g.next_extranonce1 ≤ g'.next_extranonce1) × (g'.next_extranonce1 ≤ suc n + 1)
  unfolding Ids Kept Issued
  Ids-raised n g s g' s' bound le (inl kept) = (omega (arith, kept.0), omega (arith, kept.0))
  Ids-raised n g s g' s' bound le (inr issued) = (omega (arith, issued.0), omega (arith, issued.0))

  after_turn-Inv :
      (n i : ℕ) (server : Server W) (s : SessionState) (t : Turn W)
      → suc n < 2 ^ 32 - 1
      → get_elem? server.sessions i ≡ some s
      → Ids handler server.common s t.shared t.session_state
      → Inv n server.common.next_extranonce1 server.sessions
      → let server' = after_turn handler server i t in
        Inv (suc n) server'.common.next_extranonce1 server'.sessions
  unfolding after_turn Ids Inv
  after_turn-Inv n i server s t bound at ids inv = elim (Bool-cases t.is_open) [
    | inl e ↦
        simp (e, after_turn)
          (elim ids [
            | inl kept ↦ Inv-Kept n _ _ i server.sessions s t.session_state at kept inv
            | inr issued ↦ Inv-Issued n _ _ i server.sessions t.session_state bound issued inv
          ])
    | inr e ↦
        let raised = Ids-raised n server.common s t.shared t.session_state bound inv.0 ids in
        simp (e, after_turn) (Inv-removed n _ _ i server.sessions raised.0 raised.1 inv)
  ]

  Reach-Inv :
      (world : W) (n : ℕ) (server : Server W)
      → n < 2 ^ 32 - 1
      → Reach handler initial_difficulty json hex_decode world n server
      → Inv n server.common.next_extranonce1 server.sessions
  unfolding start accept Inv subscribed_ids Distinct
  Reach-Inv world n server bound begun = (omega arith, tt, tt)
  Reach-Inv world n server bound (next {n = m} {before = before} r accepted) =
      let ih = Reach-Inv world m before (omega arith) r in
      rw (opened before.sessions) ((omega (arith, ih.0), ih.1, ih.2))
  Reach-Inv world n server bound (next {n = m} {before = before} r (turned i s e at)) =
      after_turn-Inv m i before s _ bound at
        (turn-Ids handler initial_difficulty json hex_decode e before.common s)
        (Reach-Inv world m before (omega arith) r)

  -- Within fewer than 2 ^ 32 - 1 steps, connections and turns together, no two open sessions that
  -- are subscribed have the same extranonce1, whatever they are sent and whatever the handler does.
  pub Reach-Distinct :
      (world : W) (n : ℕ) (server : Server W)
      → n < 2 ^ 32 - 1
      → Reach handler initial_difficulty json hex_decode world n server
      → Distinct (subscribed_ids server.sessions)
  unfolding Inv
  Reach-Distinct world n server bound r = (Reach-Inv world n server bound r).2
