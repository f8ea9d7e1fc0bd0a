-- ===== src/Withdrawal/Tests.antt =====
-- Withdrawals of 30 out of the 100 dollars of the ledger's runs.
use arima_executive_os.Common.{
  ℕ, ◌≡◌, ◌≤◌, ◌⊎◌, refl, ◌==◌, true, none, some, List, [], ◌∷◌, pos, ◌+ℤ◌, ◌-ℤ◌, neg, arith,
  if◌then◌else◌, ok, err,
}
use mathlib.Core.List.{Memᴰ}
use arima_executive_os.Ledger.Tables.{customer, Db, Account}
use arima_executive_os.Decimals.{round_half_even, digits, significant, in_context}
use arima_executive_os.Ledger.Service.{
  inserted, post, account, insert_rows, post_new, one_asset, direction_total, add_lines,
  ledger_request_fingerprint,
}
use arima_executive_os.Ledger.Movements.{
  sum_where, signed, settled, balance, transfer_request, transfer_bucket,
}
use arima_executive_os.Ledger.Tests.{runtime, funded, funded-IsBalanced}
use arima_executive_os.Withdrawal.Replay.{create_once_again}
use arima_executive_os.Withdrawal.Retry.{Attempt, IsTried, create_from, create, create-IsTried}
use arima_executive_os.Withdrawal.Books.{BooksBalanced}
use arima_executive_os.Withdrawal.Runs.{Run, stop, then_create, then_transition, Run-BooksBalanced}
use arima_executive_os.Identity.{
  Directory, Workspace, has_founder_control_access, resolve, resolve_members,
}
use arima_executive_os.Identity.Tests.{customer as owner, founder, directory}
use arima_executive_os.Withdrawal.Tables.{
  approved, rejected, cancelled, enabled, emergency_stop, CircuitBreaker, WithdrawalRequest, Store,
  OperationsError, invalid_transition, ambiguous_workspace, WithdrawalData,
}
use arima_executive_os.Withdrawal.Service.{
  Texts, find_circuit, find_request, check_actor, check_move, moved_request, moved_store,
  release_transfer, release, move, transition, write_request,
}
use arima_executive_os.Withdrawal.Create.{
  Environment, ledger_source, no_service, withdrawal_request_fingerprint, available_balance,
  reservation_transfer, new_request, created_store, reserve_and_insert, create_in, create_for,
  create_once,
}
use arima_executive_os.Withdrawal.Workspaces.{workspace_rows, workspace_for, workspace_for_shared}
use arima_executive_os.Withdrawal.Transitions.{IsAllowed, transition_sound}
use arima_executive_os.Withdrawal.Once.{Call, count_releases, release_once}
use arima_executive_os.Withdrawal.Circuit.{
  changed_circuit, write_circuit, change_circuit, change_circuit_sets, stopped_blocks_approval,
}

abbrev texts : Texts
texts = record {
  show_id = λ n. "id";
  release_key = λ n s. "release";
  reservation_key = λ k. "reservation";
}

abbrev environment : Environment
environment = record {
  within_rate = true;
  casefold = λ s. s;
  lower = λ s. s;
  digest = λ p. p.network;
  source = ledger_source;
  mail = no_service;
  require_context = true;
  race = none;
}

abbrev data_30 : WithdrawalData
data_30 = record {
  first_name = "Ada";
  last_name = "Byron";
  amount = pos 30;
  currency = "USD";
  destination_wallet_address = "0xabc";
  network = "ethereum";
  risk_acknowledgement = true;
  idempotency_key = "withdrawal-1";
}

abbrev open_store : Store
open_store = record {
  ledger = funded;
  directory = directory;
  requests = [];
  circuits =
      record {
        id = 15;
        workspace_id = 7;
        state = enabled;
        reason = none;
        changed_by_id = none;
        changed_at = 0;
      }
      ∷ [];
}

abbrev reserved_ledger : Db
reserved_ledger =
    inserted runtime (transfer_request (reservation_transfer texts data_30 5 7) 1)
      "withdrawal_reservation" 5 funded

abbrev request_30 : WithdrawalRequest
request_30 = new_request data_30 5 7 "ethereum" no_service reserved_ledger.next_id

abbrev requested_store : Store
requested_store = created_store request_30 no_service reserved_ledger open_store

created_30 :
    create_once runtime texts environment data_30 owner open_store
    ≡ (ok request_30, requested_store)
unfolding create_once create_for create_in workspace_for workspace_rows resolve resolve_members
    has_founder_control_access available_balance reserve_and_insert withdrawal_request_fingerprint
    transfer_bucket account post post_new insert_rows one_asset direction_total add_lines in_context
    significant digits round_half_even ledger_request_fingerprint balance sum_where signed settled
    neg ◌+ℤ◌ ◌-ℤ◌
created_30 = refl

abbrev dollars : Account
dollars = record { id = 1; workspace_id = 7; user_id = some 5; asset = "USD"; kind = customer }

abbrev home : Workspace
home = record { id = 7; owner_id = 5; tenant_id = some 1 }

one_workspace : workspace_for directory 5 ≡ ok home
unfolding workspace_for workspace_rows
one_workspace = refl

abbrev rejected_ledger : Db
rejected_ledger =
    inserted runtime (transfer_request (release_transfer texts request_30 rejected founder) 1)
      "withdrawal_reservation_release" 9 requested_store.ledger

abbrev rejected_request : WithdrawalRequest
rejected_request = moved_request runtime request_30 rejected founder "suspicious"

abbrev rejected_store : Store
rejected_store =
    moved_store runtime request_30 rejected founder "suspicious" rejected_ledger requested_store

rejected_30 :
    transition runtime texts request_30.id rejected founder "suspicious" true requested_store
    ≡ (ok rejected_request, rejected_store)
unfolding transition check_actor check_move release move write_request resolve resolve_members
    has_founder_control_access transfer_bucket account post post_new insert_rows one_asset
    direction_total add_lines in_context significant digits round_half_even
    ledger_request_fingerprint balance sum_where signed settled neg ◌+ℤ◌ ◌-ℤ◌
rejected_30 = refl

transition_sound_example :
    (r : WithdrawalRequest) × (find_request request_30.id requested_store ≡ some r)
    × IsAllowed requested_store r rejected founder
    × ((9 ≡ r.user_id) ⊎ (has_founder_control_access directory founder ≡ true))
    × (rejected_request.state ≡ rejected)
transition_sound_example =
    transition_sound runtime texts request_30.id rejected founder "suspicious" true requested_store
      rejected_request rejected_store rejected_30

-- A second rejection, of the rejected request.
rejected_again :
    transition runtime texts request_30.id cancelled owner "again" true rejected_store
    ≡ (err invalid_transition, rejected_store)
unfolding transition check_actor check_move move write_request resolve resolve_members
    has_founder_control_access
rejected_again = refl

abbrev calls : List Call
calls =
    record {
      id = request_30.id;
      target = rejected;
      actor = founder;
      reason = "suspicious";
      require_context = true;
    }
    ∷ record {
      id = request_30.id;
      target = cancelled;
      actor = owner;
      reason = "again";
      require_context = true;
    }
    ∷ []

release_once_example : count_releases runtime texts request_30.id calls requested_store ≤ 1
release_once_example = release_once runtime texts request_30.id calls requested_store

abbrev stopped : CircuitBreaker
stopped = changed_circuit runtime 15 7 emergency_stop "incident" founder

abbrev stopped_store : Store
stopped_store = (change_circuit runtime 7 emergency_stop "incident" founder true requested_store).1

stopped_7 :
    change_circuit runtime 7 emergency_stop "incident" founder true requested_store
    ≡ (ok stopped, stopped_store)
unfolding change_circuit write_circuit resolve resolve_members has_founder_control_access
stopped_7 = refl

change_circuit_sets_example :
    (has_founder_control_access directory founder ≡ true)
    × (find_circuit 7 stopped_store
        ≡ (if 7 == 7 then some stopped else find_circuit 7 requested_store))
change_circuit_sets_example =
    change_circuit_sets runtime 7 7 emergency_stop "incident" founder true requested_store stopped
      stopped_store stopped_7

still_there : find_request request_30.id stopped_store ≡ some request_30
unfolding change_circuit write_circuit resolve resolve_members has_founder_control_access
still_there = refl

stopped_blocks_approval_example : ¬ (
    transition runtime texts request_30.id approved founder "fine" true stopped_store
    ≡ (ok (moved_request runtime request_30 approved founder "fine"), stopped_store))
stopped_blocks_approval_example =
    stopped_blocks_approval runtime texts 7 emergency_stop "incident" "fine" founder founder true
      true requested_store stopped stopped_store stopped_store request_30.id request_30
      (moved_request runtime request_30 approved founder "fine") refl stopped_7 still_there refl

abbrev shared_directory : Directory
shared_directory = record directory {
  memberships =
      record { workspace_id = 7; user_id = 6 } ∷ record { workspace_id = 7; user_id = 9 } ∷ [];
}

workspace_for_shared_example : workspace_for shared_directory 5 ≡ err ambiguous_workspace
workspace_for_shared_example =
    workspace_for_shared shared_directory home (Memᴰ.head refl) (omega arith)

create_once_again_example :
    create_once runtime texts environment data_30 owner requested_store
    ≡ (ok request_30, requested_store)
unfolding withdrawal_request_fingerprint
create_once_again_example =
    create_once_again runtime texts environment data_30 owner home open_store request_30
      requested_store refl refl one_workspace refl created_30

-- The first attempt meets a serialisation failure, the second one runs.
abbrev attempts : ℕ → Attempt
attempts n = record { environment = environment; driver_error = if n == 0 then some true else none }

create-IsTried_example :
    IsTried runtime texts attempts data_30 owner open_store
      (create runtime texts attempts data_30 owner open_store)
    ⊎ ((e : OperationsError) × (create runtime texts attempts data_30 owner open_store
          ≡ (err e, open_store)))
create-IsTried_example = create-IsTried runtime texts attempts data_30 owner open_store

retried_30 :
    create runtime texts attempts data_30 owner open_store ≡ (ok request_30, requested_store)
unfolding create_from
retried_30 = created_30

abbrev last_store : Store
last_store =
    (transition runtime texts 12 rejected founder "suspicious" true
      (create runtime texts attempts data_30 owner open_store).1).1

created_then_rejected : Run runtime texts open_store last_store
created_then_rejected =
    then_transition open_store (create runtime texts attempts data_30 owner open_store).1 12
      rejected founder "suspicious" true
      (then_create open_store open_store attempts data_30 owner (λ n. tt) (stop open_store))

Run-BooksBalanced_example : BooksBalanced last_store
Run-BooksBalanced_example =
    Run-BooksBalanced runtime texts open_store last_store created_then_rejected (record {
      by_transaction = funded-IsBalanced.by_transaction;
      by_asset = funded-IsBalanced.by_asset;
    })
