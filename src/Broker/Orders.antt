-- ===== src/Broker/Orders.antt =====
-- `placeOrder`, `fillAt` and `processPendingLimits` of `SimulatedBroker`: how positions open.
pub mod Expiry
use shamarx_app.Prelude.{
  ℕ, suc, ◌+◌, ◌-◌, Bool, true, false, Option, none, some, List, [], ◌∷◌, ◌++◌, String, ltb,
  if◌then◌else◌, includes, items, set_items, delete_items, max, length,
}
use shamarx_app.Double.{Double, ◌⊕◌, ◌⊖◌, ◌⊗◌, ◌⊘◌, ◌⊴◌, num, dec, cents}
use shamarx_app.Engine.{Side, buy, sell, BacktestCandle, weak_trend}
use shamarx_app.Broker.{
  SimulatedBroker, SmcLiveSignal, Leg, BrokerPosition, PendingLimit, smc_tp1_trail,
  total_open_count,
}

abbrev bias_of : Side → String
bias_of buy = "BULLISH"
bias_of sell = "BEARISH"

module _ {W : Type 0} ⦃d : Double W⦄ where
  -- The limit price, the given distance from the entry towards the stop.
  abbrev limit_at : Side → W → W → W
  limit_at buy entry_price back = entry_price ⊖ back
  limit_at sell entry_price back = entry_price ⊕ back

  -- The bar has reached the limit.
  pub touches : PendingLimit W → BacktestCandle W → Bool
  touches p candle = elim p.signal.side [
    | buy ↦ candle.low ⊴ p.limit_price
    | sell ↦ p.limit_price ⊴ candle.high
  ]

  unfoldable pub store_limits :
      String → SimulatedBroker W × List (PendingLimit W) → SimulatedBroker W
  store_limits symbol (b, []) = record b { pending_limits = delete_items symbol b.pending_limits }
  store_limits symbol (b, p ∷ rest) = record b {
    pending_limits = set_items symbol (p ∷ rest) b.pending_limits;
  }

module _ {W : Type 0} ⦃d : Double W⦄ (uuid : ℕ → String) where
  -- The position of one leg, with the id of the given number.
  pub open_leg : SimulatedBroker W → SmcLiveSignal W → W → ℕ → W → ℕ → Leg W → BrokerPosition W
  open_leg b signal entry_price open_time lot_scale number leg = record {
    base = record {
      side = signal.side;
      entry_price = entry_price;
      sl_price = signal.sl_price;
      tp_price = some leg.tp_price;
      original_sl_price = signal.sl_price;
      breakeven_activated = false;
      peak_favorable_price = entry_price;
      lot_size = cents (leg.lot_size ⊗ lot_scale);
      entry_time = open_time;
      entry_index = 0;
      setup_tags = leg.setup_tags;
      h1_bias = bias_of signal.side;
      rsi_at_entry = num 50;
      atr_at_entry = num 0;
      trail_config = some (if includes leg.setup_tags "TP1" then smc_tp1_trail else b.runner_trail);
      regime_at_entry = some weak_trend;
      is_scale_in = none;
      parent_entry_price = none;
      has_scale_in = none;
    };
    id = uuid number;
    symbol = signal.symbol;
    opened_at = open_time;
    mode = signal.mode;
    reason = signal.reason;
    smc_context = signal.smc_context;
  }

  -- The loop over the legs, from the given id number.
  unfoldable pub open_legs :
      SimulatedBroker W → SmcLiveSignal W → W → ℕ → W → ℕ → List (Leg W) → List (BrokerPosition W)
  open_legs b signal entry_price open_time lot_scale number [] = []
  open_legs b signal entry_price open_time lot_scale number (leg ∷ legs) =
      open_leg b signal entry_price open_time lot_scale number leg
      ∷ open_legs b signal entry_price open_time lot_scale (suc number) legs

  unfoldable pub fill_at :
      SimulatedBroker W → SmcLiveSignal W → W → ℕ → W → SimulatedBroker W × List (BrokerPosition W)
  fill_at b signal entry_price open_time lot_scale =
      let opened = open_legs b signal entry_price open_time lot_scale b.issued signal.legs in
      let filled = record b {
        positions = set_items signal.symbol (items signal.symbol b.positions ++ opened) b.positions;
        issued = b.issued + length opened;
      } in
      (
        record filled { max_concurrent = max filled.max_concurrent (total_open_count filled) },
        opened,
      )

  unfoldable pub place_order :
      SimulatedBroker W → SmcLiveSignal W → ℕ → SimulatedBroker W × List (BrokerPosition W)
  place_order b signal open_time = elim b.retrace_entry [
    | none ↦ fill_at b signal signal.entry_price open_time (num 1)
    | some r ↦
        let dist = d.abs (signal.entry_price ⊖ signal.sl_price) in
        let limit : PendingLimit W = record {
          signal = signal;
          limit_price = limit_at signal.side signal.entry_price (dist ⊗ r.frac);
          scale = num 1 ⊘ (num 1 ⊖ r.frac);
          bars_left = r.expiry_bars;
        } in
        (
          record b {
            pending_limits =
                set_items signal.symbol (items signal.symbol b.pending_limits ++ limit ∷ [])
                  b.pending_limits;
          },
          [],
        )
  ]

  -- The loop over the parked limits: the broker after the fills, and the limits that remain.
  unfoldable pub fill_or_expire :
      SimulatedBroker W
      → BacktestCandle W
      → List (PendingLimit W)
      → SimulatedBroker W × List (PendingLimit W)
  fill_or_expire b candle [] = (b, [])
  fill_or_expire b candle (p ∷ rest) =
      let touched = touches p candle in
      let left = record p { bars_left = p.bars_left - 1 } in
      let next =
        if touched then (fill_at b p.signal p.limit_price candle.open_time p.scale).0 else b in
      let (after, remaining) = fill_or_expire next candle rest in
      (
        after,
        if touched then remaining else if ltb 0 left.bars_left then left ∷ remaining else remaining,
      )

  unfoldable pub pending_or_same :
      SimulatedBroker W → String → BacktestCandle W → List (PendingLimit W) → SimulatedBroker W
  pending_or_same b symbol candle [] = b
  pending_or_same b symbol candle (p ∷ rest) =
      store_limits symbol (fill_or_expire b candle (p ∷ rest))

  unfoldable pub process_pending_limits :
      SimulatedBroker W → String → BacktestCandle W → SimulatedBroker W
  process_pending_limits b symbol candle =
      pending_or_same b symbol candle (items symbol b.pending_limits)
