-- ===== src/Sv1/Server/Counted.antt =====
-- The sessions that the handler counts: the open ones, and those that a panic has ended.
use azcoin_stratum_pool.Prelude.{
  ℕ, zero, suc, ◌+◌, some, List, [], ◌∷◌, ◌++◌, String, Result, ◌≡◌, inl, inr, subst, arith,
  Bool-cases, length, length-append, length-set, get_elem?, take, drop,
}
use azcoin_stratum_pool.PoolCore.Types.{Bytes, Job}
use azcoin_stratum_pool.Sv1.Messages.{Json}
use azcoin_stratum_pool.Sv1.Session.{SessionState, new_session, SessionEventHandler}
use azcoin_stratum_pool.Sv1.Server.{Event, Turn, turn, Server, accept, after_loop, after_turn}
use azcoin_stratum_pool.Sv1.Server.Keeps.{Keeps, Carries, turn-Keeps}

unfoldable pub counted : {W : Type 0} → Server W → ℕ
counted server = length server.sessions + server.crashed

length-removed :
    (ss : List SessionState) (i : ℕ) (s : SessionState)
    → get_elem? ss i ≡ some s
    → suc (length (take i ss ++ drop (suc i) ss)) ≡ length ss
length-removed [] i s at = absurd cc
length-removed (x ∷ ss) zero s at = omega arith
length-removed (x ∷ ss) (suc i) s at = omega (arith, length-removed ss i s at)

module _ {W : Type 0} (handler : SessionEventHandler W) (J : W → Job → Type 0) (P : ℕ → W → Type 0)
    (keeps : Keeps handler J P) where
  pub accept-Keeps :
      (server : Server W)
      → P (counted server) server.common.world
      → let server' = accept handler server in P (counted server') server'.common.world
  unfolding counted accept
  accept-Keeps server h =
      let more : suc (length server.sessions + server.crashed)
          ≡ length (server.sessions ++ (new_session ∷ [])) + server.crashed =
        omega (arith, length-append server.sessions (new_session ∷ [])) in
      subst (λ n. P n (handler.on_connect server.common.world)) more (keeps.connect _ _ h)

  after_turn-Keeps :
      (server : Server W) (i : ℕ) (s : SessionState) (t : Turn W)
      → get_elem? server.sessions i ≡ some s
      → P (counted server) t.shared.world
      → let server' = after_turn handler server i t in P (counted server') server'.common.world
  unfolding counted after_turn after_loop
  after_turn-Keeps server i s t at h = elim (Bool-cases t.is_open) [
    | inl e ↦ simp (e, after_turn, length-set) h
    | inr e ↦
        let left = length-removed server.sessions i s at in
        elim (Bool-cases t.panicked) [
          | inl f ↦
              let same : length server.sessions + server.crashed
                  ≡ length (take i server.sessions ++ drop (suc i) server.sessions)
                    + suc server.crashed =
                omega (arith, left) in
              simp (e, f, after_turn, after_loop) (subst (λ n. P n t.shared.world) same h)
          | inr f ↦
              let fewer : length server.sessions + server.crashed
                  ≡ suc (
                      length (take i server.sessions ++ drop (suc i) server.sessions)
                      + server.crashed) =
                omega (arith, left) in
              simp (e, f, after_turn, after_loop)
                (keeps.disconnect _ _ (subst (λ n. P n t.shared.world) fewer h))
        ]
  ]

  pub turned-Keeps :
      {V O : Type 0} (initial_difficulty : ℕ) (json : Json V O)
      (hex_decode : String → Result Bytes String) (server : Server W) (i : ℕ) (s : SessionState)
      (e : Event V)
      → get_elem? server.sessions i ≡ some s
      → Carries (J server.common.world) e
      → P (counted server) server.common.world
      → let t = turn handler initial_difficulty json hex_decode e server.common s in
        let server' = after_turn handler server i t in P (counted server') server'.common.world
  turned-Keeps initial_difficulty json hex_decode server i s e at j h =
      after_turn-Keeps server i s _ at
        (turn-Keeps handler J P keeps _ initial_difficulty json hex_decode e server.common s j h)
