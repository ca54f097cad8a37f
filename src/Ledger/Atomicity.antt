-- ===== src/Ledger/Atomicity.antt =====
-- app/domain/ledger/services.py: what a call that raises has committed.
use instant_payment_ledger_a.Prelude.{ℕ, List, [], ◌∷◌}
use instant_payment_ledger_a.Entities.Ledger.{JournalEntry}
use instant_payment_ledger_a.Database.Leaves.{
  Leaves, Always, IsErr, IsUndone, Leaves-statement, Leaves-lift, Leaves-then, Leaves-pure,
  Leaves-if, Leaves-bind,
}
use instant_payment_ledger_a.Repositories.Ledger.{
  get_account_versions, insert_journal_entry, bump_account_version,
}
use instant_payment_ledger_a.Concurrency.Rules.{Leaves-retry, undone_rules}
use instant_payment_ledger_a.Ledger.Services.{bump_accounts, posting_attempt, post_journal_entry}

pub get_account_versions-Leaves : (is : List ℕ) → Leaves Always (get_account_versions is)
unfolding get_account_versions
get_account_versions-Leaves is = search undone_rules

pub insert_journal_entry-Leaves :
    (entry : JournalEntry) → Leaves Always (insert_journal_entry entry)
unfolding insert_journal_entry
insert_journal_entry-Leaves entry = Leaves-statement _

bump_account_version-Leaves : (i v : ℕ) → Leaves Always (bump_account_version i v)
unfolding bump_account_version
bump_account_version-Leaves i v = Leaves-statement _

pub bump_accounts-Leaves : (vs : List (ℕ × ℕ)) → Leaves Always (bump_accounts vs)
unfolding bump_accounts
bump_accounts-Leaves [] = Leaves-pure _
bump_accounts-Leaves ((i, v) ∷ vs) =
    Leaves-bind _ _ (bump_account_version-Leaves i v)
      λ bumped. Leaves-if bumped _ _ (bump_accounts-Leaves vs) (Leaves-pure _)

posting_attempt-Leaves : (entry : JournalEntry) → Leaves IsUndone (posting_attempt entry)
unfolding posting_attempt
posting_attempt-Leaves entry =
    search
      (undone_rules, get_account_versions-Leaves, insert_journal_entry-Leaves, bump_accounts-Leaves)
      depth 9

-- If posting an entry raises, be it refused or beaten in every attempt, the committed rows are those
-- of before with the commits of others that came in between.
pub post_journal_entry-Leaves :
    (entry : JournalEntry) (max_attempts : ℕ) → Leaves IsErr (post_journal_entry entry max_attempts)
unfolding post_journal_entry
post_journal_entry-Leaves entry max_attempts =
    Leaves-then _ _ (Leaves-lift _)
      (Leaves-retry max_attempts (posting_attempt entry) _ (posting_attempt-Leaves entry))
