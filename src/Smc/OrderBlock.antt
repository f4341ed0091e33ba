-- ===== src/Smc/OrderBlock.antt =====
-- src/backtest/engine/smc/order-block-detector.ts: order blocks, the last candles before an
-- impulsive move the other way. The bars that the loops read are all in range.
pub mod Impulse
use shamarx_app.Prelude.{
  ℕ, zero, suc, ◌+◌, ◌-◌, Bool, true, false, not, ◌&&◌, ◌||◌, Option, none, some, List, [], ◌∷◌,
  get_elem?, length, ltb, leb, max, or_else, is_some, if◌then◌else◌,
}
use shamarx_app.Double.{Double, ◌⊖◌, ◌⊗◌, ◌⊲◌, ◌⊴◌, num, dec}
use shamarx_app.Engine.{Side, BacktestCandle}
use shamarx_app.Smc.Scan.{
  collect, last_where, end_of, is_buy, same, first_reentry, atr_at, is_inside,
}
use shamarx_app.Smc.Swing.{oldest, swept_side}

pub record OrderBlock (W : Type 0) : Type 0 where
  pub top : W
  pub bottom : W
  pub candle_time : ℕ
  pub candle_idx : ℕ
  pub is_bullish : Bool
  pub displacement : W
  pub mitigated : Bool
  pub mitigated_at_idx : Option ℕ

pub record DetectObOptions (W : Type 0) : Type 0 where
  pub end_idx : Option ℕ
  pub look_forward_max : Option ℕ
  pub displacement_atr_mult : Option W
  pub atr : Option (List W)

-- How many bars from `i + 1` to the nearer of `i + look_forward` and the end.
abbrev pub bars_ahead : ℕ → ℕ → ℕ → ℕ
bars_ahead i look_forward end_idx =
    if leb (i + look_forward) end_idx then look_forward else end_idx - i

module _ {W : Type 0} ⦃d : Double W⦄ where
  unfoldable pub make_ob :
      List (BacktestCandle W) → BacktestCandle W → ℕ → Bool → W → ℕ → OrderBlock W
  make_ob candles c candle_idx is_bullish displacement end_idx =
      let at =
        first_reentry is_bullish c.high c.low candles (candle_idx + 2)
          (end_idx + 1 - (candle_idx + 2)) in
      record {
        top = c.high;
        bottom = c.low;
        candle_time = c.open_time;
        candle_idx = candle_idx;
        is_bullish = is_bullish;
        displacement = displacement;
        mitigated = is_some at;
        mitigated_at_idx = at;
      }

  abbrev pub is_down : BacktestCandle W → Bool
  is_down c = c.close ⊲ c.opening

  abbrev pub is_up : BacktestCandle W → Bool
  is_up c = c.opening ⊲ c.close

  -- How far `fwd` moves away from `c`: up from a candle that falls, down from one that rises.
  abbrev pub move_away : BacktestCandle W → BacktestCandle W → W
  move_away c fwd = if is_down c then fwd.high ⊖ c.low else c.high ⊖ fwd.low

  abbrev pub move_if : W → W → Option W
  move_if threshold move = if threshold ⊴ move then some move else none

  abbrev pub move_to : W → BacktestCandle W → Option (BacktestCandle W) → Option W
  move_to threshold c none = none
  move_to threshold c (some fwd) = move_if threshold (move_away c fwd)

  abbrev pub or_later : Option W → Option W → Option W
  or_later none later = later
  or_later (some x) later = some x

  -- The loop over the bars `k`, …, `k + n - 1`: the move of the first that goes far enough.
  unfoldable pub first_impulse : List (BacktestCandle W) → BacktestCandle W → W → ℕ → ℕ → Option W
  first_impulse candles c threshold k zero = none
  first_impulse candles c threshold k (suc n) =
      or_later (move_to threshold c (get_elem? candles k))
        (first_impulse candles c threshold (k + 1) n)

  abbrev pub block_of :
      List (BacktestCandle W) → BacktestCandle W → ℕ → ℕ → Option W → Option (OrderBlock W)
  block_of candles c i end_idx none = none
  block_of candles c i end_idx (some move) = some (make_ob candles c i (is_down c) move end_idx)

  abbrev pub candidate_at :
      List (BacktestCandle W) → ℕ → ℕ → W → W → ℕ → BacktestCandle W → Option (OrderBlock W)
  candidate_at candles end_idx look_forward mult local_atr i c =
      let move =
        first_impulse candles c (mult ⊗ local_atr) (i + 1) (bars_ahead i look_forward end_idx) in
      if not (is_down c) && not (is_up c)
      then none
      else if (local_atr ⊴ num 0) && (num 0 ⊲ mult)
      then none
      else block_of candles c i end_idx move

  -- The body of the loop of `detectOrderBlocks`.
  unfoldable pub block_at :
      List (BacktestCandle W) → ℕ → ℕ → W → Option (List W) → ℕ → Option (OrderBlock W)
  block_at candles end_idx look_forward mult atr i = elim (get_elem? candles i) [
    | none ↦ none
    | some c ↦ candidate_at candles end_idx look_forward mult (atr_at atr i) i c
  ]

  unfoldable pub detect_order_blocks :
      List (BacktestCandle W) → DetectObOptions W → List (OrderBlock W)
  detect_order_blocks candles options =
      let end_idx = end_of options.end_idx (length candles) in
      collect
        (block_at candles end_idx (or_else options.look_forward_max 4)
          (or_else options.displacement_atr_mult (dec 15 1)) options.atr)
        1 (end_idx - 1)

  abbrev pub backs : Side → OrderBlock W → Bool
  backs side ob = not ob.mitigated && same ob.is_bullish (is_buy side)

  unfoldable pub nearest_unmitigated_ob :
      List (BacktestCandle W) → Side → DetectObOptions W → Option (OrderBlock W)
  nearest_unmitigated_ob candles side options =
      last_where (backs side) (detect_order_blocks candles options)

  abbrev is_near : OrderBlock W → W → W → W → Bool
  is_near ob entry_price max_distance_atr local_atr =
      let distance =
        if ob.top ⊲ entry_price then entry_price ⊖ ob.top else ob.bottom ⊖ entry_price in
      is_inside entry_price ob.bottom ob.top
      || (local_atr ⊴ num 0)
      || (distance ⊴ max_distance_atr ⊗ local_atr)

  pub has_supporting_ob :
      List (BacktestCandle W) → Side → W → W → List W → ℕ → Option (OrderBlock W)
  has_supporting_ob candles side entry_price max_distance_atr atr end_idx =
      let options : DetectObOptions W = record {
        end_idx = some end_idx;
        look_forward_max = none;
        displacement_atr_mult = none;
        atr = some atr;
      } in
      elim (nearest_unmitigated_ob candles side options) [
        | none ↦ none
        | some ob ↦
            if is_near ob entry_price max_distance_atr (atr_at (some atr) end_idx)
            then some ob
            else none
      ]

  -- The candle at `k` starts the move that made the swing at `level`.
  fresh_at : Side → W → W → List W → ℕ → BacktestCandle W → Option (OrderBlock W)
  fresh_at side level mult atr k c =
      let c_atr = atr_at (some atr) k in
      let impulse_size = if is_buy side then c.high ⊖ level else level ⊖ c.low in
      let opposes = if is_buy side then is_up c else is_down c in
      if (c_atr ⊴ num 0)
        || not opposes
        || (impulse_size ⊲ num 0)
        || not (mult ⊗ c_atr ⊴ impulse_size)
      then none
      else some record {
        top = c.high;
        bottom = c.low;
        candle_time = c.open_time;
        candle_idx = k;
        is_bullish = not (is_buy side);
        displacement = impulse_size;
        mitigated = false;
        mitigated_at_idx = none;
      }

  fresh_or : Option (OrderBlock W) → Option (OrderBlock W) → Option (OrderBlock W)
  fresh_or none older = older
  fresh_or (some ob) older = some ob

  -- The loop down from `lo + n - 1` to `lo`.
  find_fresh : List (BacktestCandle W) → Side → W → W → List W → ℕ → ℕ → Option (OrderBlock W)
  find_fresh candles side level mult atr lo zero = none
  find_fresh candles side level mult atr lo (suc n) =
      let here : Option (OrderBlock W) = elim (get_elem? candles (lo + n)) [
        | none ↦ none
        | some c ↦ fresh_at side level mult atr (lo + n) c
      ] in
      fresh_or here (find_fresh candles side level mult atr lo n)

  pub has_fresh_ob_at_swept_level :
      List (BacktestCandle W) → ℕ → Side → ℕ → List W → W → Option (OrderBlock W)
  unfolding fresh_at fresh_or find_fresh
  has_fresh_ob_at_swept_level candles swing_idx side lookback atr displacement_atr_mult =
      let lo = oldest swing_idx lookback in
      elim (get_elem? candles swing_idx) [
        | none ↦ none
        | some swing ↦
            if ltb swing_idx 1
            then none
            else find_fresh candles side (swept_side side swing) displacement_atr_mult atr lo
                (swing_idx - lo)
      ]
