-- ===== src/LiveManager/Accounts.antt =====
-- `manageSymbol`, `manageSymbolForAccount` and `manageSymbolAllAccounts` of
-- live-position-manager.service.ts: the management of the open trades of a symbol, of one account or
-- of each.
use shamarx_app.Prelude.{
  ℕ, Bool, false, Option, none, some, List, [], ◌∷◌, map, String, ◌is◌, filter,
}
use shamarx_app.Double.{Double}
use shamarx_app.Engine.{BacktestCandle}
use shamarx_app.Engine.Instrument.{get_spread}
use shamarx_app.LiveManager.{ManagedTrade, LivePosition, Modify, manage_trades}

module _ {W : Type 0} ⦃d : Double W⦄ where
  -- `manageSymbol`, on the open trades of the symbol that have a ticket; `latest` is the last M15 bar,
  -- if there is one, and `positions` the broker's answer. None where the spread throws.
  unfoldable pub manage_symbol :
      String
      → (ℕ → Bool)
      → Option (BacktestCandle W)
      → List (LivePosition W)
      → List (ManagedTrade W)
      → Option (List (ManagedTrade W) × List (Modify W))
  manage_symbol symbol accepts latest positions [] = some ([], [])
  manage_symbol symbol accepts none positions (trade ∷ rest) = some (trade ∷ rest, [])
  manage_symbol symbol accepts (some candle) positions (trade ∷ rest) =
      elim (get_spread symbol candle.open_time) [
        | none ↦ none
        | some spread ↦ some (manage_trades symbol accepts candle spread positions (trade ∷ rest))
      ]

  -- The rows of the account.
  abbrev pub of_account : String → ManagedTrade W → Bool
  of_account account trade = elim trade.account_id [ none ↦ false | some id ↦ id is account ]

  -- `manageSymbolForAccount`: the same on the account's trades, with its broker.
  unfoldable pub manage_symbol_for_account :
      String
      → String
      → (ℕ → Bool)
      → Option (BacktestCandle W)
      → List (LivePosition W)
      → List (ManagedTrade W)
      → Option (List (ManagedTrade W) × List (Modify W))
  manage_symbol_for_account symbol account accepts latest positions trades =
      manage_symbol symbol accepts latest positions (filter (of_account account) trades)

  -- `manageSymbolAllAccounts`, over the enabled accounts with what the broker answers for each. A
  -- failure of one, which is logged, leaves the others as they are.
  unfoldable pub manage_symbol_all_accounts :
      String
      → Option (BacktestCandle W)
      → List (ManagedTrade W)
      → List (String × (ℕ → Bool) × List (LivePosition W))
      → List (Option (List (ManagedTrade W) × List (Modify W)))
  manage_symbol_all_accounts symbol latest trades accounts =
      map
        (λ (a : String × (ℕ → Bool) × List (LivePosition W)).
          manage_symbol_for_account symbol a.0 a.1 latest a.2 trades)
        accounts
