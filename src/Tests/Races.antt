-- ===== src/Tests/Races.antt =====
-- The theorems on lost races: payment 103 is authorised by others while it is marked as failed.
use instant_payment_ledger_a.Prelude.{pos, ◌≡◌, refl, List, [], ◌∷◌, none, some}
use instant_payment_ledger_a.Entities.Errors.{ok, err, concurrent_payment_modification}
use instant_payment_ledger_a.Entities.Payments.{PaymentStatus, Payment}
use instant_payment_ledger_a.Database.Tables.{Db}
use instant_payment_ledger_a.Database.Session.{alone}
use instant_payment_ledger_a.Repositories.Payments.{find_payment, set_status}
use instant_payment_ledger_a.Payments.StateMachine.Lifecycle.{Step}
use instant_payment_ledger_a.Payments.Services.Transition.{transitioned, transition_status_only}
use instant_payment_ledger_a.Payments.Races.{
  Overtakes, Beaten, among, transition_status_only-Beaten, transition_status_only_after_races,
}
use instant_payment_ledger_a.Tests.Data.{payment_of, start}

abbrev as_new : Payment
as_new = payment_of 103 2 (pos 40) PaymentStatus.initiated

abbrev nothing : Db → Db
nothing db = db

abbrev authorises_it : Db → Db
authorises_it db = record db {
  payments = set_status 103 as_new.version PaymentStatus.authorised db.payments;
}

abbrev in_between : List (Db → Db)
in_between = nothing ∷ authorises_it ∷ []

abbrev as_authorised : Payment
as_authorised = transitioned as_new PaymentStatus.authorised none

ahead : Overtakes 103 PaymentStatus.failed start nothing authorises_it
unfolding find_payment set_status
ahead = record {
  before = as_new;
  after = as_authorised;
  read = refl;
  allowed = Step.fails_early;
  changed = refl;
  overtaken = refl;
}

lost_once : Beaten 103 PaymentStatus.failed 1 start in_between (authorises_it start) []
lost_once = Beaten.beaten_again nothing authorises_it ahead Beaten.not_beaten

transition_status_only-Beaten_example :
    transition_status_only 103 PaymentStatus.failed none 1 (among start in_between)
    ≡ (err (concurrent_payment_modification 103 1), alone (authorises_it start))
transition_status_only-Beaten_example =
    transition_status_only-Beaten 103 PaymentStatus.failed none 1 lost_once

transition_status_only_after_races_example :
    (done : Db) × (transition_status_only 103 PaymentStatus.failed none 5 (among start in_between)
      ≡ (ok (transitioned as_authorised PaymentStatus.failed none), alone done))
    × (find_payment 103 done.payments ≡ some (transitioned as_authorised PaymentStatus.failed none))
    × (done.journal_lines ≡ [])
    × (done.accounts ≡ start.accounts)
    × (done.fx_rates ≡ start.fx_rates)
unfolding find_payment set_status
transition_status_only_after_races_example =
    transition_status_only_after_races 103 PaymentStatus.failed none 1 3 {payment = as_authorised}
      lost_once refl Step.fails_late refl
