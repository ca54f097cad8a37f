-- ===== src/Ledger/Alone.antt =====
-- post_journal_entry of app/domain/ledger/services.py with nobody else at work, step by step.
use native.Mathlib.Omega.{arith}
use instant_payment_ledger_a.Prelude.{ℕ, ◌≡◌, refl, ap, ◌∙◌, true, false, List, [], ◌∷◌}
use instant_payment_ledger_a.Entities.Ledger.{JournalEntry}
use instant_payment_ledger_a.Entities.Errors.{ok}
use instant_payment_ledger_a.Database.Tables.{Db}
use instant_payment_ledger_a.Database.Session.{statement, query, pure, ◌>>=◌}
use instant_payment_ledger_a.Database.Run.{quiet}
use instant_payment_ledger_a.Repositories.Ledger.{
  fresh, versions_of, version_is_current, bump_version, get_account_versions, insert_journal_entry,
  add_entry, bump_account_version,
}
use instant_payment_ledger_a.Repositories.Ledger.Accounts.{
  IsDistinct, bump_all, versions_of-cons, versions_of-bump_version, version_is_current_lem,
}
use instant_payment_ledger_a.Ledger.Services.{bump_accounts}

bump_account_version_alone :
    (i n : ℕ) (v c : Db)
    → version_is_current i n v.accounts ≡ true
    → bump_account_version i n (quiet v c)
      ≡ (ok true, quiet (record v { accounts = bump_version i n v.accounts }) c)
unfolding bump_account_version statement
bump_account_version_alone i n v c e =
    ap (λ b. (ok b, quiet (record v { accounts = bump_version i n v.accounts }) c)) e

-- No version has moved since it was read.
pub bump_accounts_alone :
    (is : List ℕ) (v c : Db) {vs : List (ℕ × ℕ)}
    → IsDistinct is
    → versions_of is v.accounts ≡ ok vs
    → bump_accounts vs (quiet v c)
      ≡ (ok false, quiet (record v { accounts = bump_all vs v.accounts }) c)
unfolding bump_accounts bump_all versions_of pure ◌>>=◌
bump_accounts_alone [] v c {vs} d e = let none_left : vs ≡ [] = ground arith in rw none_left refl
bump_accounts_alone (i ∷ is) v c d e =
    let (a, rest, found, later, split) = versions_of-cons i is v.accounts e in
    rw
      (
        split,
        bump_account_version_alone i a.version v c (version_is_current_lem i v.accounts found),
      )
      (bump_accounts_alone is (record v { accounts = bump_version i a.version v.accounts }) c d.1
        (versions_of-bump_version i a.version is v.accounts d.0 ∙ later))

-- The database after an entry has been posted.
unfoldable pub posted : JournalEntry → List (ℕ × ℕ) → Db → Db
unfolding add_entry
posted entry vs db = record (add_entry entry db) { accounts = bump_all vs db.accounts }

-- The reads and the writes of a posting, one by one.
pub get_account_versions_alone :
    (is : List ℕ) (v c : Db) {vs : List (ℕ × ℕ)}
    → versions_of is v.accounts ≡ ok vs
    → get_account_versions is (quiet v c) ≡ (ok vs, quiet v c)
unfolding get_account_versions query statement
get_account_versions_alone is v c e = ap (λ r. (r, quiet v c)) e

pub insert_journal_entry_alone :
    (entry : JournalEntry) (v c : Db)
    → insert_journal_entry entry (quiet v c) ≡ (ok (fresh v), quiet (add_entry entry v) c)
unfolding insert_journal_entry statement
insert_journal_entry_alone entry v c = refl
