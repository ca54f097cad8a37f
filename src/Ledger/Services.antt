-- ===== src/Ledger/Services.antt =====
-- app/domain/ledger/services.py.
use instant_payment_ledger_a.Prelude.{ℕ, Bool, true, false, Option, List, [], ◌∷◌, if◌then◌else◌}
use instant_payment_ledger_a.Entities.Ledger.{JournalEntry, account_ids}
use instant_payment_ledger_a.Entities.Errors.{concurrent_modification}
use instant_payment_ledger_a.Database.Session.{Action, pure, lift, ◌>>=◌, ◌>>◌}
use instant_payment_ledger_a.Repositories.Ledger.{
  get_account_versions, insert_journal_entry, bump_account_version,
}
use instant_payment_ledger_a.Concurrency.{retry, give_up, succeed}
use instant_payment_ledger_a.Ledger.Invariants.{validate_journal_entry}

-- The loop over `account_ids` with its `break`: whether some version had moved. The dictionary
-- `versions` has exactly these keys, so the loop runs over its items.
unfoldable pub bump_accounts : List (ℕ × ℕ) → Action Bool
bump_accounts [] = pure false
bump_accounts ((account_id, version) ∷ rest) = do
  bumped ← bump_account_version account_id version
  if bumped then bump_accounts rest else pure true

-- One round of the loop in `post_journal_entry`.
unfoldable pub posting_attempt : JournalEntry → Action (Option ℕ)
unfolding bump_accounts give_up succeed
posting_attempt entry = do
  versions ← get_account_versions (account_ids entry)
  entry_id ← insert_journal_entry entry
  conflict ← bump_accounts versions
  if conflict then give_up else succeed entry_id

unfoldable pub post_journal_entry : JournalEntry → ℕ → Action ℕ
unfolding posting_attempt retry
post_journal_entry entry max_attempts = do
  lift (validate_journal_entry entry.lines)
  retry max_attempts (posting_attempt entry)
      (concurrent_modification (account_ids entry) max_attempts)
