-- ===== src/Ledger/Conservation.antt =====
-- The sum of all journal lines in each currency. The rules for the
-- repositories and for app/domain/ledger/services.py; those for payments are in Payments/Conservation.
use instant_payment_ledger_a.Prelude.{
  ℕ, String, ◌≡◌, refl, sym, ◌∙◌, ap, ℤ, pos, ◌+ℤ◌, int_laws, zero-+ℤ, List, [], ◌∷◌, ◌++◌, map,
  arith, str_eq, if◌then◌else◌,
}
use instant_payment_ledger_a.Entities.Ledger.{JournalLine, JournalEntry, signed}
use instant_payment_ledger_a.Entities.Errors.{Result}
use instant_payment_ledger_a.Database.Tables.{Db, JournalLineRow}
use instant_payment_ledger_a.Database.Session.{statement, execute}
use instant_payment_ledger_a.Database.Keeps.{
  Keeps, Keeps-statement, Keeps-execute, Keeps-then_lift, Keeps-pure, Keeps-bind, Keeps-if,
  keeps_rules,
}
use instant_payment_ledger_a.Repositories.Ledger.{
  line_row, add_entry, insert_journal_entry, get_account_versions, bump_account_version,
}
use instant_payment_ledger_a.Concurrency.Rules.{Keeps-retry, attempt_rules}
use instant_payment_ledger_a.Ledger.Invariants.{validate_journal_entry}
use instant_payment_ledger_a.Ledger.Invariants.Exact.{net, IsDoubleEntry, validate_iff}
use instant_payment_ledger_a.Ledger.Services.{bump_accounts, posting_attempt, post_journal_entry}

-- The signed sum of all lines in one currency, over all accounts.
unfoldable pub total : String → List JournalLineRow → ℤ
total c [] = pos 0
total c (l ∷ ls) =
    let rest = total c ls in
    if str_eq l.currency c then signed l.direction l.amount +ℤ rest else rest

abbrev pub IsConserved : Db → Type 0
IsConserved db = (c : String) → total c db.journal_lines ≡ pos 0

+ℤ_assoc : (a b c : ℤ) → a +ℤ b +ℤ c ≡ a +ℤ (b +ℤ c)
+ℤ_assoc a b c = omega int_laws

total-map-append :
    (c : String) (i : ℕ) (ls : List JournalLine) (rows : List JournalLineRow)
    → total c (map (line_row i) ls ++ rows) ≡ net c ls +ℤ total c rows
unfolding total net
total-map-append c i [] rows = sym (zero-+ℤ (total c rows))
total-map-append c i (l ∷ ls) rows = ground (
  arith,
  total-map-append c i ls rows,
  +ℤ_assoc (signed l.direction l.amount) (net c ls) (total c rows),
)

add_entry-IsConserved :
    (entry : JournalEntry)
    → IsDoubleEntry entry.lines
    → (db : Db) → IsConserved db
    → IsConserved (add_entry entry db)
unfolding add_entry
add_entry-IsConserved entry d db h c =
    total-map-append c (db.uuid4 db.draws) entry.lines db.journal_lines
    ∙ rw (d.2 c, h c) (omega int_laws)

pub insert_journal_entry-IsConserved :
    (entry : JournalEntry)
    → IsDoubleEntry entry.lines
    → Keeps IsConserved (insert_journal_entry entry)
unfolding insert_journal_entry
insert_journal_entry-IsConserved entry d = Keeps-statement _ (add_entry-IsConserved entry d)

-- A statement that does not write journal lines.
pub Keeps-lines :
    {A : Type 0} (f : Db → Result A × Db)
    → ((db : Db) → (f db).1.journal_lines ≡ db.journal_lines)
    → Keeps IsConserved (statement f)
Keeps-lines f e = Keeps-statement f λ db h c. ap (total c) (e db) ∙ h c

pub Keeps-lines_execute :
    (f : Db → Db)
    → ((db : Db) → (f db).journal_lines ≡ db.journal_lines)
    → Keeps IsConserved (execute f)
Keeps-lines_execute f e = Keeps-execute f λ db h c. ap (total c) (e db) ∙ h c

pub get_account_versions-IsConserved : (is : List ℕ) → Keeps IsConserved (get_account_versions is)
unfolding get_account_versions
get_account_versions-IsConserved is = search keeps_rules

bump_account_version-IsConserved : (i v : ℕ) → Keeps IsConserved (bump_account_version i v)
unfolding bump_account_version
bump_account_version-IsConserved i v = Keeps-lines _ λ db. refl

pub bump_accounts-IsConserved : (vs : List (ℕ × ℕ)) → Keeps IsConserved (bump_accounts vs)
unfolding bump_accounts
bump_accounts-IsConserved [] = Keeps-pure _
bump_accounts-IsConserved ((i, v) ∷ vs) =
    Keeps-bind _ _ (bump_account_version-IsConserved i v)
      λ bumped. Keeps-if bumped _ _ (bump_accounts-IsConserved vs) (Keeps-pure _)

posting_attempt-IsConserved :
    (entry : JournalEntry)
    → Keeps IsConserved (insert_journal_entry entry)
    → Keeps IsConserved (posting_attempt entry)
unfolding posting_attempt
posting_attempt-IsConserved entry k =
    search (attempt_rules, get_account_versions-IsConserved, bump_accounts-IsConserved) depth 9

-- Posting an entry, whether it succeeds, loses its races or is refused, keeps every currency's sum
-- over the whole ledger at zero, if the commits of others do.
pub post_journal_entry-IsConserved :
    (entry : JournalEntry) (max_attempts : ℕ)
    → Keeps IsConserved (post_journal_entry entry max_attempts)
unfolding post_journal_entry
post_journal_entry-IsConserved entry max_attempts =
    Keeps-then_lift (validate_journal_entry entry.lines) _ λ u valid.
      Keeps-retry max_attempts (posting_attempt entry) _ (
        posting_attempt-IsConserved entry
          (insert_journal_entry-IsConserved entry ((validate_iff entry.lines).0 valid)))
