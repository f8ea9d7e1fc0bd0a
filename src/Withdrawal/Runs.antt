-- ===== src/Withdrawal/Runs.antt =====
-- Sequences of calls of the methods of `WithdrawalService` in app/services/operations.py.
use arima_executive_os.Common.{ℕ, Bool, String}
use arima_executive_os.Ledger.Tables.{Runtime}
use arima_executive_os.Identity.{User}
use arima_executive_os.Withdrawal.Tables.{State, CircuitState, Store, WithdrawalData}
use arima_executive_os.Withdrawal.Service.{Texts, transition}
use arima_executive_os.Withdrawal.Retry.{Attempt, create}
use arima_executive_os.Withdrawal.Circuit.{change_circuit}
use arima_executive_os.Withdrawal.Books.{
  BooksBalanced, RaceKeepsBooks, transition-BooksBalanced, create-BooksBalanced,
  change_circuit-BooksBalanced,
}

-- The runs of the service: any sequence of calls of its methods, by anyone.
pub data Run (rt : Runtime) (texts : Texts) : Store → Store → Type 0 where
  stop : (s : Store) → Run rt texts s s
  then_create :
      (s t : Store) (attempts : ℕ → Attempt) (x : WithdrawalData) (user : User)
      → ((n : ℕ) → RaceKeepsBooks (attempts n).environment.race)
      → Run rt texts s t
      → Run rt texts s (create rt texts attempts x user t).1
  then_transition :
      (s t : Store) (id : ℕ) (target : State) (actor : User) (reason : String) (c : Bool)
      → Run rt texts s t
      → Run rt texts s (transition rt texts id target actor reason c t).1
  then_change_circuit :
      (s t : Store) (ws : ℕ) (state : CircuitState) (reason : String) (actor : User) (b : Bool)
      → Run rt texts s t
      → Run rt texts s (change_circuit rt ws state reason actor b t).1

-- From balanced books, every run of the withdrawal service's methods leads to balanced books: each
-- transaction and each asset still sums to zero, whatever fails, is retried or loses a race to a
-- session that keeps its own books balanced.
pub Run-BooksBalanced :
    (rt : Runtime) (texts : Texts) (s t : Store)
    → Run rt texts s t
    → BooksBalanced s
    → BooksBalanced t
Run-BooksBalanced rt texts s t (stop _) h = h
Run-BooksBalanced rt texts s _ (then_create _ t attempts x user race run) h =
    create-BooksBalanced rt texts attempts x user t race (Run-BooksBalanced rt texts s t run h)
Run-BooksBalanced rt texts s _ (then_transition _ t id target actor reason c run) h =
    transition-BooksBalanced rt texts id target actor reason c t
      (Run-BooksBalanced rt texts s t run h)
Run-BooksBalanced rt texts s _ (then_change_circuit _ t ws state reason actor b run) h =
    change_circuit-BooksBalanced rt ws state reason actor b t (Run-BooksBalanced rt texts s t run h)
