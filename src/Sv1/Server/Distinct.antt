-- ===== src/Sv1/Server/Distinct.antt =====
-- extranonce1 of the subscribed sessions, as a list, when sessions open, change and close.
use azcoin_stratum_pool.Prelude.{
  ℕ, zero, suc, String, some, List, [], ◌∷◌, ◌++◌, if◌then◌else◌, ◌≡◌, ◌≢◌, refl, sym, ap, subst,
  ◌⊎◌, inl, inr, Bool-cases, get_elem?, set, take, drop, All,
}
use azcoin_stratum_pool.Sv1.Session.{SessionState, new_session}

unfoldable pub with_id : SessionState → List String → List String
with_id s rest = if s.subscribed then s.extranonce1 ∷ rest else rest

-- The extranonce1 of the subscribed sessions.
unfoldable pub subscribed_ids : List SessionState → List String
subscribed_ids [] = []
subscribed_ids (s ∷ rest) = with_id s (subscribed_ids rest)

unfoldable pub Distinct : List String → Type 0
Distinct [] = Unit
Distinct (x ∷ xs) = All (λ y. x ≢ y) xs × Distinct xs

with_id-cases :
    (s : SessionState)
    → ((xs : List String) → with_id s xs ≡ s.extranonce1 ∷ xs)
      ⊎ ((xs : List String) → with_id s xs ≡ xs)
unfolding with_id
with_id-cases s = elim (Bool-cases s.subscribed) [
  | inl e ↦ inl (λ xs. rw (e, with_id) refl)
  | inr e ↦ inr (λ xs. rw (e, with_id) refl)
]

with_id-All :
    (P : String → Type 0) (s : SessionState) (xs : List String)
    → P s.extranonce1
    → All P xs
    → All P (with_id s xs)
with_id-All P s xs p h = elim (with_id-cases s) [ inl e ↦ rw (e xs) (p, h) | inr e ↦ rw (e xs) h ]

with_id-All_mono :
    (P : String → Type 0) (s : SessionState) (xs ys : List String)
    → (All P xs → All P ys)
    → All P (with_id s xs)
    → All P (with_id s ys)
with_id-All_mono P s xs ys f = elim (with_id-cases s) [
  | inl e ↦ rw (e xs, e ys) (λ h. (h.0, f h.1))
  | inr e ↦ rw (e xs, e ys) f
]

with_id-All_tail :
    (P : String → Type 0) (s : SessionState) (xs : List String) → All P (with_id s xs) → All P xs
with_id-All_tail P s xs = elim (with_id-cases s) [
  | inl e ↦ rw (e xs) (λ h. h.1)
  | inr e ↦ rw (e xs) (λ h. h)
]

with_id-Distinct_tail :
    (s : SessionState) (xs : List String) → Distinct (with_id s xs) → Distinct xs
unfolding Distinct
with_id-Distinct_tail s xs = elim (with_id-cases s) [
  | inl e ↦ rw (e xs) (λ h. h.1)
  | inr e ↦ rw (e xs) (λ h. h)
]

-- Closing a session.
pub removed-All :
    (P : String → Type 0) (ss : List SessionState) (i : ℕ)
    → All P (subscribed_ids ss)
    → All P (subscribed_ids (take i ss ++ drop (suc i) ss))
unfolding subscribed_ids
removed-All P [] zero h = h
removed-All P [] (suc i) h = h
removed-All P (s ∷ ss) zero h = with_id-All_tail P s (subscribed_ids ss) h
removed-All P (s ∷ ss) (suc i) h = with_id-All_mono P s _ _ (removed-All P ss i) h

with_id-Distinct_mono :
    (s : SessionState) (xs ys : List String)
    → (All (λ y. s.extranonce1 ≢ y) xs → All (λ y. s.extranonce1 ≢ y) ys)
    → (Distinct xs → Distinct ys)
    → Distinct (with_id s xs)
    → Distinct (with_id s ys)
unfolding Distinct
with_id-Distinct_mono s xs ys f g = elim (with_id-cases s) [
  | inl e ↦ rw (e xs, e ys) (λ h. (f h.0, g h.1))
  | inr e ↦ rw (e xs, e ys) g
]

pub removed-Distinct :
    (ss : List SessionState) (i : ℕ)
    → Distinct (subscribed_ids ss)
    → Distinct (subscribed_ids (take i ss ++ drop (suc i) ss))
unfolding subscribed_ids
removed-Distinct [] zero h = h
removed-Distinct [] (suc i) h = h
removed-Distinct (s ∷ ss) zero h = with_id-Distinct_tail s (subscribed_ids ss) h
removed-Distinct (s ∷ ss) (suc i) h =
    with_id-Distinct_mono s _ _ (removed-All _ ss i) (removed-Distinct ss i) h

-- A session that keeps its id.
pub set-same :
    (ss : List SessionState) (i : ℕ) (s s' : SessionState)
    → get_elem? ss i ≡ some s
    → s'.subscribed ≡ s.subscribed
    → s'.extranonce1 ≡ s.extranonce1
    → subscribed_ids (set ss i s') ≡ subscribed_ids ss
unfolding subscribed_ids with_id
set-same [] i s s' at h k = refl
set-same (x ∷ ss) zero s s' at h k = let e : x ≡ s = cc in rw e (simp (h, k, with_id) refl)
set-same (x ∷ ss) (suc i) s s' at h k = ap (with_id x) (set-same ss i s s' at h k)

-- A session that takes an id which no other has.
pub set-All :
    (P : String → Type 0) (ss : List SessionState) (i : ℕ) (s' : SessionState)
    → P s'.extranonce1
    → All P (subscribed_ids ss)
    → All P (subscribed_ids (set ss i s'))
unfolding subscribed_ids
set-All P [] i s' p h = h
set-All P (x ∷ ss) zero s' p h = with_id-All P s' _ p (with_id-All_tail P x _ h)
set-All P (x ∷ ss) (suc i) s' p h = with_id-All_mono P x _ _ (set-All P ss i s' p) h

with_id-Distinct :
    (s : SessionState) (xs : List String)
    → All (λ y. s.extranonce1 ≢ y) xs
    → Distinct xs
    → Distinct (with_id s xs)
unfolding Distinct
with_id-Distinct s xs h d = elim (with_id-cases s) [
  | inl e ↦ rw (e xs) (h, d)
  | inr e ↦ rw (e xs) d
]

pub set-Distinct :
    (ss : List SessionState) (i : ℕ) (s' : SessionState)
    → All (λ y. s'.extranonce1 ≢ y) (subscribed_ids ss)
    → Distinct (subscribed_ids ss)
    → Distinct (subscribed_ids (set ss i s'))
unfolding subscribed_ids Distinct
set-Distinct [] i s' h d = d
set-Distinct (x ∷ ss) zero s' h d =
    with_id-Distinct s' _ (with_id-All_tail _ x _ h) (with_id-Distinct_tail x _ d)
set-Distinct (x ∷ ss) (suc i) s' h d = elim (with_id-cases x) [
  | inr e ↦ rw (e (subscribed_ids (set ss i s'))) (
      set-Distinct ss i s' (subst (All _) (e (subscribed_ids ss)) h)
        (subst Distinct (e (subscribed_ids ss)) d))
  | inl e ↦
      let h' = subst (All _) (e (subscribed_ids ss)) h in
      let d' = subst Distinct (e (subscribed_ids ss)) d in
      rw (e (subscribed_ids (set ss i s')))
        (set-All _ ss i s' (λ q. h'.0 (sym q)) d'.0, set-Distinct ss i s' h'.1 d'.1)
]

-- A new session has no id yet.
pub opened :
    (ss : List SessionState) → subscribed_ids (ss ++ (new_session ∷ [])) ≡ subscribed_ids ss
unfolding subscribed_ids with_id
opened [] = refl
opened (s ∷ ss) = ap (with_id s) (opened ss)
