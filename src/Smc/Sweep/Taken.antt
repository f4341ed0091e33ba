-- ===== src/Smc/Sweep/Taken.antt =====
-- The setup that a sweep of one level makes, and the first of the setups on several levels.
use shamarx_app.Prelude.{
  ℕ, ◌+◌, ◌≡◌, ◌⊎◌, refl, sym, subst, inl, inr, Bool, true, false, Option, none, some, List, [],
  ◌∷◌, arith, All, Bool-cases,
}
use shamarx_app.Double.{Double, ◌⊗◌}
use shamarx_app.Engine.{Side, buy, sell, BacktestCandle}
use shamarx_app.Smc.{SmcMode, D1Bias, AnchorType, PendingSetup, SmcPairConfig}
use shamarx_app.Smc.Sweep.{
  first_of, agrees, make, sweeps_high, sweeps_low, sell_setup, buy_setup, first_anchor,
}

module _ {W : Type 0} ⦃d : Double W⦄ (bar : BacktestCandle W) (atr : W) (h1_idx : ℕ) (bias : D1Bias)
    (mode : SmcMode) (cfg : SmcPairConfig W) where
  -- The bar takes out the level by the buffer, closes back inside, and the setup describes it.
  pub record IsSweep (p : PendingSetup W) : Type 0 where
    pub takes_out :
        (elim p.direction [
          | sell ↦ sweeps_high bar p.sweep_level (atr ⊗ cfg.sweep_buffer_atr)
          | buy ↦ sweeps_low bar p.sweep_level (atr ⊗ cfg.sweep_buffer_atr)
        ])
        ≡ true
    pub wick : p.sweep_wick ≡ (elim p.direction [ sell ↦ bar.high | buy ↦ bar.low ])
    pub allowed : agrees mode bias p.direction ≡ true
    pub is_mode : p.mode ≡ mode
    pub detected : p.detected_at_h1_idx ≡ h1_idx
    pub expires : p.expires_at_h1_idx ≡ h1_idx + cfg.setup_expiry_h1_bars
    pub swept_at : p.sweep_time ≡ bar.open_time

  make-IsSweep :
      (direction : Side) (level : W) (wick : W) (anchor : Option AnchorType)
      → (elim direction [
        | sell ↦ sweeps_high bar level (atr ⊗ cfg.sweep_buffer_atr)
        | buy ↦ sweeps_low bar level (atr ⊗ cfg.sweep_buffer_atr)
      ])
        ≡ true
      → wick ≡ (elim direction [ sell ↦ bar.high | buy ↦ bar.low ])
      → agrees mode bias direction ≡ true
      → IsSweep (make direction level wick anchor bar atr h1_idx mode cfg)
  make-IsSweep direction level wick anchor takes w allowed = record {
    takes_out = takes;
    wick = w;
    allowed = allowed;
    is_mode = refl;
    detected = refl;
    expires = refl;
    swept_at = refl;
  }

  pub sell_setup-IsSweep :
      (level : Option W) (anchor : Option AnchorType) (p : PendingSetup W)
      → agrees mode bias sell ≡ true
      → sell_setup level anchor bar atr h1_idx mode cfg ≡ some p
      → IsSweep p × (p.direction ≡ sell) × (level ≡ some p.sweep_level) × (p.anchor_type ≡ anchor)
  unfolding sell_setup
  sell_setup-IsSweep none anchor p allowed h = absurd (ground arith)
  sell_setup-IsSweep (some level) anchor p allowed h =
      elim (Bool-cases (sweeps_high bar level (atr ⊗ cfg.sweep_buffer_atr))) [
        | inl sweeps ↦
            let same : make sell level bar.high anchor bar atr h1_idx mode cfg ≡ p = ground arith in
            subst
              (λ q.
                IsSweep q
                × (q.direction ≡ sell)
                × (some level ≡ some q.sweep_level)
                × (q.anchor_type ≡ anchor))
              same (make-IsSweep sell level bar.high anchor sweeps refl allowed, refl, refl, refl)
        | inr not_swept ↦ absurd (ground arith)
      ]

  pub buy_setup-IsSweep :
      (level : Option W) (anchor : Option AnchorType) (p : PendingSetup W)
      → agrees mode bias buy ≡ true
      → buy_setup level anchor bar atr h1_idx mode cfg ≡ some p
      → IsSweep p × (p.direction ≡ buy) × (level ≡ some p.sweep_level) × (p.anchor_type ≡ anchor)
  unfolding buy_setup
  buy_setup-IsSweep none anchor p allowed h = absurd (ground arith)
  buy_setup-IsSweep (some level) anchor p allowed h =
      elim (Bool-cases (sweeps_low bar level (atr ⊗ cfg.sweep_buffer_atr))) [
        | inl sweeps ↦
            let same : make buy level bar.low anchor bar atr h1_idx mode cfg ≡ p = ground arith in
            subst
              (λ q.
                IsSweep q
                × (q.direction ≡ buy)
                × (some level ≡ some q.sweep_level)
                × (q.anchor_type ≡ anchor))
              same (make-IsSweep buy level bar.low anchor sweeps refl allowed, refl, refl, refl)
        | inr not_swept ↦ absurd (ground arith)
      ]

pub first_of-some {ℓ} :
    {A : Type ℓ} (a b : Option A) (x : A) → first_of a b ≡ some x → (a ≡ some x) ⊎ (b ≡ some x)
first_of-some none b x h = inr h
first_of-some (some a) b x h = inl h

module _ {W : Type 0} ⦃d : Double W⦄ where
  -- A setup on an anchor is the setup of one of the levels, and the direction is allowed.
  pub first_anchor-some :
      (setup : Option W → Option AnchorType → Option (PendingSetup W)) (allowed : Bool)
      (level_of : AnchorType → Option W) (levels : List (Option W × AnchorType))
      (p : PendingSetup W)
      → All (λ (l : Option W × AnchorType). level_of l.1 ≡ l.0) levels
      → first_anchor setup allowed levels ≡ some p
      → (allowed ≡ true)
        × ((anchor : AnchorType) × (setup (level_of anchor) (some anchor) ≡ some p))
  unfolding first_anchor
  first_anchor-some setup allowed level_of [] p listed h = absurd (ground arith)
  first_anchor-some setup true level_of ((level, anchor) ∷ rest) p (at, listed) h =
      elim (first_of-some (setup level (some anchor)) (first_anchor setup true rest) p h) [
        | inl found ↦ (refl, (anchor, subst (λ l. setup l (some anchor) ≡ some p) (sym at) found))
        | inr later ↦ first_anchor-some setup true level_of rest p listed later
      ]
  first_anchor-some setup false level_of ((level, anchor) ∷ rest) p (at, listed) h =
      first_anchor-some setup false level_of rest p listed (ground arith)
