-- ===== src/Repositories/Fx.antt =====
-- app/infra/db/repositories/fx_repository.py.
pub mod Latest
use instant_payment_ledger_a.Prelude.{
  String, Bool, ◌&&◌, Option, none, some, List, [], ◌∷◌, ltb, str_eq, if◌then◌else◌,
}
use instant_payment_ledger_a.Entities.Ledger.{FxRate}
use instant_payment_ledger_a.Entities.Errors.{Result, ok, err, fx_rate_not_found}
use instant_payment_ledger_a.Database.Session.{Action, query}

abbrev pub is_pair : String → String → FxRate → Bool
is_pair base quote r = str_eq r.base_currency base && str_eq r.quote_currency quote

-- The later of two rates; of two booked at one time the database may return either.
abbrev pub later : FxRate → Option FxRate → FxRate
later r none = r
later r (some s) = if ltb r.booked_at s.booked_at then s else r

-- `WHERE base_currency = ... AND quote_currency = ... ORDER BY booked_at DESC LIMIT 1`
unfoldable pub latest : String → String → List FxRate → Option FxRate
latest base quote [] = none
latest base quote (r ∷ rs) =
    let rest = latest base quote rs in if is_pair base quote r then some (later r rest) else rest

abbrev pub or_no_rate : String → String → Option FxRate → Result FxRate
or_no_rate base quote (some r) = ok r
or_no_rate base quote none = err (fx_rate_not_found base quote)

unfoldable pub get_latest_rate : String → String → Action FxRate
unfolding latest
get_latest_rate base_currency quote_currency =
    query λ db.
      or_no_rate base_currency quote_currency (latest base_currency quote_currency db.fx_rates)
