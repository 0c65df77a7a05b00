-- ===== src/ControlPlane/Health/Classified.antt =====
-- crates/control-plane/src/health.rs: the state of a node after a sequence of heartbeats.
use rust_proxy.Base.{
  ℕ, ◌*◌, ◌^◌, ◌≤◌, ◌<◌, ◌≡◌, ◌≢◌, refl, sym, ◌∙◌, true, ◌↔◌, ◌⊎◌, inl, inr, List, [], ◌∷◌, ◌++◌,
  ◌==◌, arith, false, Bool-cases, true-false, ==_iff,
}
use rust_proxy.ControlPlane.Float.{Float}
use rust_proxy.ControlPlane.Model.{NodeState, healthy, degraded, draining, offline}
use rust_proxy.ControlPlane.Health.{HealthPolicy, utilization, reclassify_after_heartbeat}

module _ (float : Float) (policy : HealthPolicy (float.F)) where
  open float use {F, of_int, one, div, ge}

  -- A node that is neither draining nor offline, by the comparison of its load.
  pub reclassify_live :
      (s : NodeState) (a m : ℕ)
      → s ≢ draining
      → s ≢ offline
      → ((ge (utilization float a m) policy.degraded_threshold ≡ true)
          × (reclassify_after_heartbeat float s a m policy ≡ degraded))
        ⊎ ((ge (utilization float a m) policy.degraded_threshold ≡ false)
            × (reclassify_after_heartbeat float s a m policy ≡ healthy))
  unfolding reclassify_after_heartbeat
  reclassify_live draining a m up live = absurd (up refl)
  reclassify_live offline a m up live = absurd (live refl)
  reclassify_live _ a m up live =
      elim (Bool-cases (ge (utilization float a m) policy.degraded_threshold)) [
        | inl e ↦ inl (e, rw e refl)
        | inr e ↦ inr (e, rw e refl)
      ]

  -- The state after heartbeats, each with the connections reported and the limit of the node; the
  -- oldest comes first.
  pub reported : NodeState → List (ℕ × ℕ) → NodeState
  reported s [] = s
  reported s ((a, m) ∷ rest) = reported (reclassify_after_heartbeat float s a m policy) rest

  reported-append :
      (s : NodeState) (before : List (ℕ × ℕ)) (a m : ℕ)
      → reported s (before ++ (a, m) ∷ [])
        ≡ reclassify_after_heartbeat float (reported s before) a m policy
  unfolding reported
  reported-append s [] a m = refl
  reported-append s ((b, k) ∷ before) a m =
      reported-append (reclassify_after_heartbeat float s b k policy) before a m

  -- Draining and offline nodes stay as they are, and no other node becomes one.
  reported-draining : (rs : List (ℕ × ℕ)) → reported draining rs ≡ draining
  unfolding reported reclassify_after_heartbeat
  reported-draining [] = refl
  reported-draining ((a, m) ∷ rs) = reported-draining rs

  reported-offline : (rs : List (ℕ × ℕ)) → reported offline rs ≡ offline
  unfolding reported reclassify_after_heartbeat
  reported-offline [] = refl
  reported-offline ((a, m) ∷ rs) = reported-offline rs

  reported-live :
      (s : NodeState) (rs : List (ℕ × ℕ))
      → s ≢ draining
      → s ≢ offline
      → (reported s rs ≢ draining) × (reported s rs ≢ offline)
  unfolding reported
  reported-live s [] up live = (up, live)
  reported-live s ((a, m) ∷ rs) up live = elim (reclassify_live s a m up live) [
    | inl (_, e) ↦ rw e (reported-live degraded rs (λ h. cc) (λ h. cc))
    | inr (_, e) ↦ rw e (reported-live healthy rs (λ h. cc) (λ h. cc))
  ]

  module _ (p q : ℕ)
      (exact : (a m : ℕ)
        → m ≢ 0
        → a < 2 ^ 32
        → m < 2 ^ 32
        → (ge (div (of_int a) (of_int m)) policy.degraded_threshold ≡ true) ↔ (p * m ≤ q * a))
      (full : ge one policy.degraded_threshold ≡ true) where
    -- The comparison of the code, for every limit.
    overloaded :
        (a m : ℕ)
        → a < 2 ^ 32
        → m < 2 ^ 32
        → (ge (utilization float a m) policy.degraded_threshold ≡ true) ↔ (p * m ≤ q * a)
    unfolding utilization
    overloaded a m fit fit' = elim (Bool-cases (m == 0)) [
      | inl e ↦ rw e (λ _. rw ((==_iff m 0).0 e) (omega arith), λ _. full)
      | inr e ↦ rw e (exact a m (λ h. true-false (sym ((==_iff m 0).1 h) ∙ e)) fit fit')
    ]

    -- The threshold stands for the ratio `p / q` in the comparisons with the load of 32-bit counts,
    -- and is at most 1. After any heartbeats, the last of them with `a` connections of `m`, a node
    -- that was draining or offline is so still, and any other node is degraded exactly if `a / m` is
    -- at least `p / q`, and healthy exactly if it is less; a limit of 0 counts as full.
    pub reports_classified :
        (s : NodeState) (before : List (ℕ × ℕ)) (a m : ℕ)
        → a < 2 ^ 32
        → m < 2 ^ 32
        → let s' = reported s (before ++ (a, m) ∷ []) in
          ((s ≡ draining) ⊎ (s ≡ offline) → s' ≡ s)
          × (s ≢ draining
              → s ≢ offline
              → ((s' ≡ degraded) ↔ (p * m ≤ q * a)) × ((s' ≡ healthy) ↔ (q * a < p * m)))
    reports_classified s before a m fit fit' = (kept, classified)
      where
        kept : (s ≡ draining) ⊎ (s ≡ offline) → reported s (before ++ (a, m) ∷ []) ≡ s
        kept (inl e) = rw e (reported-draining (before ++ (a, m) ∷ []))
        kept (inr e) = rw e (reported-offline (before ++ (a, m) ∷ []))

        classified :
            s ≢ draining
            → s ≢ offline
            → ((reported s (before ++ (a, m) ∷ []) ≡ degraded) ↔ (p * m ≤ q * a))
              × ((reported s (before ++ (a, m) ∷ []) ≡ healthy) ↔ (q * a < p * m))
        classified up live =
            let (up', live') = reported-live s before up live in
            rw (reported-append s before a m)
              (elim (reclassify_live (reported s before) a m up' live') [
                | inl (g, e) ↦
                    (let le = (overloaded a m fit fit').0 g in
                      rw e ((λ _. le, λ _. refl), (λ h. cc, λ h. absurd (omega arith))))
                | inr (g, e) ↦ rw e (
                  (λ h. cc, λ h. absurd (true-false (sym ((overloaded a m fit fit').1 h) ∙ g))),
                  (
                    λ _. below (λ h. true-false (sym ((overloaded a m fit fit').1 h) ∙ g)),
                    λ _. refl,
                  ),
                )
              ])
          where
            below : ((p * m ≤ q * a) → ⊥) → q * a < p * m
            below h = omega arith
