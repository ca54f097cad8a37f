-- ===== src/Repositories/Fx/Latest.antt =====
-- app/infra/db/repositories/fx_repository.py: which rate the query for the latest one gives.
use instant_payment_ledger_a.Prelude.{
  ◌≤◌, String, ◌≡◌, ◌≢◌, ◌⊎◌, refl, true, false, Option, none, some, List, [], ◌∷◌, All, arith, ltb,
  Bool-cases, inl, inr, text_cases,
}
use instant_payment_ledger_a.Entities.Ledger.{FxRate}
use instant_payment_ledger_a.Repositories.Fx.{is_pair, later, latest}

abbrev pub IsOneOf : FxRate → List FxRate → Type 0
IsOneOf r [] = ⊥
IsOneOf r (s ∷ ss) = (r ≡ s) ⊎ IsOneOf r ss

module _ (base quote : String) where
  data IsOther (r : FxRate) : Type 0 where
    of_base : r.base_currency ≢ base → IsOther r
    of_quote : r.quote_currency ≢ quote → IsOther r

  -- A rate of another pair, or one that was not booked later than `r`.
  pub data IsNotNewer (r s : FxRate) : Type 0 where
    other_base : s.base_currency ≢ base → IsNotNewer r s
    other_quote : s.quote_currency ≢ quote → IsNotNewer r s
    not_later : s.booked_at ≤ r.booked_at → IsNotNewer r s

  -- A rate of the list and of the pair, than which no rate of the pair is newer.
  pub record IsLatest (rates : List FxRate) (r : FxRate) : Type 0 where
    pub listed : IsOneOf r rates
    pub of_base : r.base_currency ≡ base
    pub of_quote : r.quote_currency ≡ quote
    pub newest : All (IsNotNewer r) rates

  Found : List FxRate → Option FxRate → Type 0
  Found rates none = All IsOther rates
  Found rates (some r) = IsLatest rates r

  no_other_is_newer :
      (r : FxRate) (rates : List FxRate) → All IsOther rates → All (IsNotNewer r) rates
  no_other_is_newer r [] h = tt
  no_other_is_newer r (s ∷ ss) (h, hs) =
      (elim h [ of_base e ↦ other_base e | of_quote e ↦ other_quote e ], no_other_is_newer r ss hs)

  than_a_newer_one :
      (r s : FxRate) (rates : List FxRate)
      → s.booked_at ≤ r.booked_at
      → All (IsNotNewer s) rates
      → All (IsNotNewer r) rates
  than_a_newer_one r s [] k h = tt
  than_a_newer_one r s (t ∷ ts) k (h, hs) = (
    elim h [
      | other_base e ↦ other_base e
      | other_quote e ↦ other_quote e
      | not_later e ↦ not_later (omega arith)
    ],
    than_a_newer_one r s ts k hs,
  )

  pair_cases :
      (r : FxRate)
      → ((is_pair base quote r ≡ true) × (r.base_currency ≡ base) × (r.quote_currency ≡ quote))
        ⊎ ((is_pair base quote r ≡ false) × IsOther r)
  pair_cases r = elim (text_cases r.base_currency base) [
    | inr (differ, miss) ↦ inr (rw miss refl, of_base differ)
    | inl (same, hit) ↦ elim (text_cases r.quote_currency quote) [
      | inr (differ, miss) ↦ inr (rw (hit, miss) refl, of_quote differ)
      | inl (same', hit') ↦ inl (rw (hit, hit') refl, same, same')
    ]
  ]

  skip :
      (r : FxRate) (rates : List FxRate) (o : Option FxRate)
      → IsOther r
      → Found rates o
      → Found (r ∷ rates) o
  unfolding Found
  skip r rates none h f = (h, f)
  skip r rates (some s) h f = record {
    listed = inr f.listed;
    of_base = f.of_base;
    of_quote = f.of_quote;
    newest = (elim h [ of_base e ↦ other_base e | of_quote e ↦ other_quote e ], f.newest);
  }

  take_later :
      (r : FxRate) (rates : List FxRate) (o : Option FxRate)
      → r.base_currency ≡ base
      → r.quote_currency ≡ quote
      → Found rates o
      → IsLatest (r ∷ rates) (later r o)
  unfolding Found
  take_later r rates none b q f = record {
    listed = inl refl;
    of_base = b;
    of_quote = q;
    newest = (not_later (omega arith), no_other_is_newer r rates f);
  }
  take_later r rates (some s) b q f = elim (Bool-cases (ltb r.booked_at s.booked_at)) [
    | inl before ↦ rw before (record {
      listed = inr f.listed;
      of_base = f.of_base;
      of_quote = f.of_quote;
      newest = (not_later (ground arith), f.newest);
    })
    | inr after ↦ rw after (record {
      listed = inl refl;
      of_base = b;
      of_quote = q;
      newest = (not_later (omega arith), than_a_newer_one r s rates (ground arith) f.newest);
    })
  ]

  latest-Found : (rates : List FxRate) → Found rates (latest base quote rates)
  unfolding Found latest
  latest-Found [] = tt
  latest-Found (r ∷ rs) = elim (pair_cases r) [
    | inl (hit, b, q) ↦ rw hit (take_later r rs (latest base quote rs) b q (latest-Found rs))
    | inr (miss, other) ↦ rw miss (skip r rs (latest base quote rs) other (latest-Found rs))
  ]

  pub latest-IsLatest :
      (rates : List FxRate) {r : FxRate} → latest base quote rates ≡ some r → IsLatest rates r
  unfolding Found
  latest-IsLatest rates {r} h =
      let found : Found rates (some r) = rw h at (latest-Found rates) in found
