-- ===== src/Payments/Alone/Entry.antt =====
-- With nobody else at work: a transition with a journal entry, for any way of building its lines.
use instant_payment_ledger_a.Prelude.{ℕ, suc, ◌≡◌, true, none, some, List, ◌++◌, map, All}
use instant_payment_ledger_a.Entities.Ledger.{account_ids}
use instant_payment_ledger_a.Entities.Payments.{PaymentStatus, Payment}
use instant_payment_ledger_a.Entities.Errors.{ok}
use instant_payment_ledger_a.Database.Tables.{Db}
use instant_payment_ledger_a.Database.Session.{alone, lift, ◌>>=◌, ◌>>◌}
use instant_payment_ledger_a.Database.Run.{quiet, run_retry}
use instant_payment_ledger_a.Repositories.Ledger.{fresh, line_row, add_entry, versions_of}
use instant_payment_ledger_a.Repositories.Ledger.Bumped.{
  IsKept, IsAccount, bump_all-IsKept, versions_of-frozenset,
}
use instant_payment_ledger_a.Repositories.Payments.{find_payment, set_status, payment_is_current}
use instant_payment_ledger_a.Ledger.Invariants.Exact.{IsDoubleEntry, validate_iff}
use instant_payment_ledger_a.Ledger.Alone.{posted}
use instant_payment_ledger_a.Payments.StateMachine.Lifecycle.{Step, assert_transition_allowed_iff}
use instant_payment_ledger_a.Payments.Services.Lines.{BuildLines, BuildLinesResult}
use instant_payment_ledger_a.Payments.Services.Transition.{
  transitioned, entry_for, post_and_update, ledger_attempt, transition_with_ledger_entry,
}
use instant_payment_ledger_a.Payments.Alone.{completed_transition, write_entry-alone}
use instant_payment_ledger_a.Payments.Alone.Refused.{get_payment_alone}
use instant_payment_ledger_a.Payments.Alone.Status.{completed_transition-IsSameBooks}

-- The database after the transition, given the one that the lines were built in.
abbrev after_entry : ℕ → PaymentStatus → Payment → BuildLinesResult → List (ℕ × ℕ) → Db → Db
after_entry payment_id to_status payment built vs v =
    completed_transition payment_id payment to_status none built.field_overrides
      (record (posted (entry_for payment built) vs v) {
        payments = set_status payment_id payment.version to_status v.payments;
      })

module _ (payment_id : ℕ) (to_status : PaymentStatus) (db : Db) {payment : Payment}
    (found : find_payment payment_id db.payments ≡ some payment) (build_lines : BuildLines)
    (built : BuildLinesResult) (v : Db)
    (builds : build_lines payment (alone db) ≡ (ok built, quiet v db))
    (st : Step payment.status to_status) (double : IsDoubleEntry built.lines)
    (current : payment_is_current payment_id payment.version v.payments ≡ true) where
  ledger_attempt-alone :
      {vs : List (ℕ × ℕ)}
      → versions_of (account_ids (entry_for payment built)) v.accounts ≡ ok vs
      → ledger_attempt payment_id to_status build_lines (alone db) ≡ (
        ok (some (transitioned payment to_status built.field_overrides)),
        alone (after_entry payment_id to_status payment built vs v),
      )
  unfolding ledger_attempt post_and_update lift ◌>>=◌ ◌>>◌
  ledger_attempt-alone e =
      rw
        (
          get_payment_alone payment_id db db found,
          (assert_transition_allowed_iff payment.status to_status).1 st,
          builds,
          (validate_iff built.lines).1 double,
        )
        (write_entry-alone payment_id payment to_status (entry_for payment built)
          built.field_overrides v db e current)

  -- A balanced entry on accounts that exist is posted in the first attempt.
  pub transition_with_ledger_entry-alone :
      (n : ℕ)
      → All (IsAccount v.accounts) (map (λ line. line.account_id) built.lines)
      → (db' : Db) × (transition_with_ledger_entry payment_id to_status build_lines
            (suc n)
            (alone db)
          ≡ (ok (transitioned payment to_status built.field_overrides), alone db'))
        × (db'.payments ≡ set_status payment_id payment.version to_status v.payments)
        × (db'.journal_lines ≡ map (line_row (fresh v)) built.lines ++ v.journal_lines)
        × IsKept v.accounts db'.accounts
  unfolding transition_with_ledger_entry account_ids posted add_entry
  transition_with_ledger_entry-alone n exist =
      let (vs, e) =
        versions_of-frozenset v.accounts (map (λ line. line.account_id) built.lines) exist in
      let kept =
        completed_transition-IsSameBooks payment_id payment to_status none built.field_overrides
          (record (posted (entry_for payment built) vs v) {
            payments = set_status payment_id payment.version to_status v.payments;
          }) in
      (
        after_entry payment_id to_status payment built vs v,
        run_retry n (ledger_attempt payment_id to_status build_lines) _ (ledger_attempt-alone e),
        kept.0,
        kept.1,
        rw kept.2 (bump_all-IsKept vs v.accounts),
      )
