-- ===== src/Config/Valid.antt =====
-- What a configuration without errors satisfies, and that nothing else is asked of it.
use moex_tinvest_bot.Base.{
  Bool, true, false, ◌&&◌, ◌==◌, List, [], ◌∷◌, ◌≡◌, ◌≢◌, ◌≤◌, ◌<◌, ◌↔◌, ◌⊎◌, inl, inr, refl, arith,
  leb, all, append-eq-nil, Bool-cases, errors_of,
}
use moex_tinvest_bot.Base.Int.{ℤ, pos, negsuc, ◌≤ℤ◌}
use moex_tinvest_bot.Domain.{Nanos}
use moex_tinvest_bot.Config.Windows.{IsAbove, IsUnique, windows_lem, unique_lem, hours_lem}
use moex_tinvest_bot.Config.{
  BotConfig, StrategyConfig, ConfigError, live_mode, validate, limit_errors, signal_errors,
  short_errors, target_errors, limit_tests, target_tests, one_hour, one_day,
}

-- In (0, 1], in nanos.
abbrev pub IsShare : Nanos → Type 0
IsShare w = (0 < w) × (w ≤ 1_000_000_000)

-- In [-1, 1], in nanos.
abbrev pub IsSignedShare : ℤ → Type 0
IsSignedShare w = (negsuc 999_999_999 ≤ℤ w) × (w ≤ℤ pos 1_000_000_000)

pub record IsUsable (c : BotConfig) : Type 0 where
  pub currency : c.base_currency ≡ 1
  pub data_age : 0 < c.max_data_age_seconds
  pub position : IsShare c.max_position_weight
  pub gross : IsShare c.max_gross_exposure
  pub reserve : c.min_cash_reserve_weight ≤ 1_000_000_000
  pub sector : IsShare c.max_sector_weight
  pub cluster : IsShare c.max_risk_cluster_weight
  pub notionals :
      (0 < c.min_trade_notional)
      × (c.min_trade_notional ≤ c.max_order_notional)
      × (c.max_order_notional ≤ c.max_daily_turnover)
  pub slots : 0 < c.max_open_orders
  pub margin_for_shorts : c.allow_margin ≡ c.strategy.shorts_enabled
  pub not_live : (c.mode ≢ live_mode) × (c.live_interlock ≡ false)

-- The windows and hours of the strategy, its targets and the thresholds on order flow.
pub record IsUsableStrategy (s : StrategyConfig) : Type 0 where
  pub some_names : 0 < s.top_n
  -- above -1
  pub momentum : negsuc 999_999_998 ≤ℤ s.min_momentum
  pub candle : (s.candle_period ≡ one_hour) ⊎ (s.candle_period ≡ one_day)
  pub windows : (s.momentum_windows ≢ []) × IsAbove 0 s.momentum_windows
  pub windows_long : (2 ≤ s.trend_window) × (2 ≤ s.volatility_window)
  pub floor : 0 < s.volatility_floor
  pub hours :
      (s.rebalance_hours_moscow ≢ []) × (all (λ h. leb h 23) s.rebalance_hours_moscow ≡ true)
  pub hours_unique : IsUnique s.rebalance_hours_moscow
  pub targets : (s.long_target_gross ≤ 1_000_000_000) × (s.short_target_gross ≤ 1_000_000_000)
  pub flow :
      IsSignedShare s.flow_min_trade_imbalance
      × IsSignedShare s.flow_min_order_flow
      × IsSignedShare s.flow_min_book_imbalance
  pub spread : (0 < s.flow_max_spread_bbo) × (s.flow_max_spread_bbo ≤ 100_000_000_000)

-- Short positions are wanted with limits of their own, or not at all; the short limits are free then.
pub record IsUsableShort (c : BotConfig) : Type 0 where
  pub wanted :
      c.strategy.shorts_enabled ≡ true
      → (0 < c.strategy.short_top_n)
        × (c.strategy.max_short_momentum ≤ℤ negsuc 0)
        × IsShare c.max_short_position_weight
        × IsShare c.max_short_gross_exposure
        × (0 < c.strategy.short_target_gross)
  pub unwanted :
      c.strategy.shorts_enabled ≡ false
      → (c.strategy.short_top_n ≡ 0) × (c.strategy.short_target_gross ≡ 0)

-- Every test of a list of messages fails.
data AllPass : List (Bool × ConfigError) → Type 0 where
  no_tests : AllPass []
  passed :
      {test : Bool} {e : ConfigError} {cs : List (Bool × ConfigError)}
      → test ≡ false
      → AllPass cs
      → AllPass ((test, e) ∷ cs)

errors_of-none : (cs : List (Bool × ConfigError)) → AllPass cs → errors_of cs ≡ []
errors_of-none [] AllPass.no_tests = refl
errors_of-none ((test, e) ∷ cs) (AllPass.passed h rest) = ground (arith, h, errors_of-none cs rest)

limits_pass : (c : BotConfig) → (limit_errors c ≡ []) ↔ IsUsable c
unfolding limit_errors
limits_pass c = (
  λ h. record {
    currency = ground (arith, h);
    data_age = ground (arith, h);
    position = ground (arith, h);
    gross = ground (arith, h);
    reserve = ground (arith, h);
    sector = ground (arith, h);
    cluster = ground (arith, h);
    notionals = ground (arith, h);
    slots = ground (arith, h);
    margin_for_shorts = ground (arith, h);
    not_live = ground (arith, h);
  },
  λ u. errors_of-none (limit_tests c) (
      AllPass.passed (ground (arith, u.currency)) (
        AllPass.passed (ground (arith, u.data_age)) (
          AllPass.passed (ground (arith, u.position)) (
            AllPass.passed (ground (arith, u.gross)) (
              AllPass.passed (ground (arith, u.reserve)) (
                AllPass.passed (ground (arith, u.sector)) (
                  AllPass.passed (ground (arith, u.cluster)) (
                    AllPass.passed (ground (arith, u.notionals)) (
                      AllPass.passed (ground (arith, u.notionals)) (
                        AllPass.passed (ground (arith, u.notionals)) (
                          AllPass.passed (ground (arith, u.notionals)) (
                            AllPass.passed (ground (arith, u.notionals)) (
                              AllPass.passed (ground (arith, u.slots)) (
                                AllPass.passed (ground (arith, u.margin_for_shorts)) (
                                  AllPass.passed (ground (arith, u.margin_for_shorts)) (
                                    AllPass.passed (ground (arith, u.not_live)) (
                                      AllPass.passed (ground (arith, u.not_live))
                                        AllPass.no_tests))))))))))))))))),
)

signals_pass :
    (s : StrategyConfig) → signal_errors s ≡ [] → target_errors s ≡ [] → IsUsableStrategy s
unfolding signal_errors target_errors
signals_pass s h k = record {
  some_names = ground (arith, h);
  momentum = ground (arith, h);
  candle = ground (arith, h);
  windows = (windows_lem s.momentum_windows).0 (ground (arith, h), ground (arith, h));
  windows_long = ground (arith, h);
  floor = ground (arith, h);
  hours = (hours_lem s.rebalance_hours_moscow).0 (ground (arith, h));
  hours_unique = (unique_lem s.rebalance_hours_moscow).0 (ground (arith, h));
  targets = ground (arith, k);
  flow = ground (arith, k);
  spread = ground (arith, k);
}

shorts_pass :
    (c : BotConfig) → short_errors c ≡ [] → target_errors c.strategy ≡ [] → IsUsableShort c
unfolding short_errors target_errors
shorts_pass c h k = record {
  wanted = λ on. ground (arith, h, k, on);
  unwanted = λ off. ground (arith, h, k, off);
}

signals_back : (s : StrategyConfig) → IsUsableStrategy s → signal_errors s ≡ []
unfolding signal_errors
signals_back s u = ground (
  arith,
  u.some_names,
  u.momentum,
  u.candle,
  (windows_lem s.momentum_windows).1 u.windows,
  u.windows_long,
  u.floor,
  (hours_lem s.rebalance_hours_moscow).1 u.hours,
  (unique_lem s.rebalance_hours_moscow).1 u.hours_unique,
)

short_target :
    (c : BotConfig)
    → IsUsableShort c
    → (c.strategy.shorts_enabled && c.strategy.short_target_gross == 0) ≡ false
short_target c w = elim (Bool-cases c.strategy.shorts_enabled) [
  | inl on ↦ ground (arith, on, w.wanted on)
  | inr off ↦ ground (arith, off)
]

targets_back :
    (c : BotConfig) → IsUsableStrategy c.strategy → IsUsableShort c → target_errors c.strategy ≡ []
unfolding target_errors
targets_back c u w = errors_of-none (target_tests c.strategy) (
    AllPass.passed (ground (arith, u.targets)) (
      AllPass.passed (ground (arith, u.targets)) (
        AllPass.passed (ground (arith, short_target c w)) (
          AllPass.passed (ground (arith, u.flow)) (
            AllPass.passed (ground (arith, u.flow)) (
              AllPass.passed (ground (arith, u.flow))
                (AllPass.passed (ground (arith, u.spread)) AllPass.no_tests)))))))

shorts_back : (c : BotConfig) → IsUsableShort c → short_errors c ≡ []
unfolding short_errors
shorts_back c w = elim (Bool-cases c.strategy.shorts_enabled) [
  | inl on ↦ ground (arith, on, w.wanted on)
  | inr off ↦ ground (arith, off, w.unwanted off)
]

-- A configuration has no error exactly when all of these hold. The currency is the ruble and the data may
-- have some age; the weights of a position, a sector, a cluster and the gross exposure are within (0, 1], and the
-- cash reserve is at most 1; the notionals are positive and nest, and there is a slot for an order; it is neither
-- of the live mode nor interlocked. The strategy takes some names, from a momentum above -1; its candles are of
-- an hour or a day; it has momentum windows, positive and increasing, other windows of at least 2, a positive
-- floor, and hours of the day without a repetition; its targets are at most 1, the limits on the order flow within
-- [-1, 1], and the spread positive and at most 100. Margin is allowed exactly where short positions are
-- wanted; they then have a number, a negative momentum, weights within (0, 1] and a positive target,
-- and otherwise no number and no target.
pub validate-IsUsable :
    (c : BotConfig)
    → (validate c ≡ []) ↔ (IsUsable c × IsUsableStrategy c.strategy × IsUsableShort c)
unfolding validate
validate-IsUsable c = (
  λ h.
      let (limits, h1) = append-eq-nil (limit_errors c) _ h in
      let (signals, h2) = append-eq-nil (signal_errors c.strategy) _ h1 in
      let (shorts, targets) = append-eq-nil (short_errors c) _ h2 in
      (
        (limits_pass c).0 limits,
        signals_pass c.strategy signals targets,
        shorts_pass c shorts targets,
      ),
  λ (usable, strategy, shorts). ground (
    arith,
    (limits_pass c).1 usable,
    signals_back c.strategy strategy,
    shorts_back c shorts,
    targets_back c strategy shorts,
  ),
)
