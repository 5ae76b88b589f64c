-- ===== src/Attribution/Metrics/Values.antt =====
-- The value of a metric in `metricRuns` of packages/attribution-core/src/evaluator.ts, by the calculation that its definition
-- names; `Counts` is that of `event_count`.
pub mod Laws
use open_mmp.Common.{
  ℕ, ◌+◌, ◌-◌, ◌*◌, ◌/◌, ◌^◌, Bool, true, false, not, ◌&&◌, ◌||◌, List, [], ◌∷◌, ◌++◌, map, Option,
  none, some, String, str_eq, opt_eq, any, filter, find, length, leb, ◌==◌, or_else, optional_eq,
  if◌then◌else◌, Outcome, ok, throw, ◌>>=◌, ◌>>◌, ℤ, pos, ◌*ℤ◌, ◌+ℤ◌,
}
use open_mmp.Common.Unique.{unique}
use open_mmp.Instant.{day_ms}
use open_mmp.Money
use open_mmp.Money.{Amount, FxPolicy, round_half_even, convert_money, scale_money}
use open_mmp.Attribution.Types.{CandidateAttempt}
use open_mmp.Attribution.Errors.{Error, time}
use open_mmp.Attribution.Metrics.Definitions.{MetricDefinition, CostRecord, contains}
use open_mmp.Attribution.Metrics.Cohorts.{eligible_revenue}

pub data RunError : Type 0 where
  attribution_failed : Error → RunError
  money_failed : Money.Error → RunError
  not_one_rate : RunError
  unknown_metric unsupported_calculation metric_date_reserved : String → RunError
  unsupported_grouping : String → List String → RunError
  cost_currency_mismatch : String → RunError
  metric_date_required event_name_unsupported utc_required status_forbidden : String → RunError
  event_mismatch bucket_required bucket_reserved bucket_without_aggregate : String → RunError
  status_not_of_event : String → RunError

abbrev pub of_attribution {ℓ} : {A : Type ℓ} → Outcome Error A → Outcome RunError A
of_attribution (ok a) = ok a
of_attribution (throw e) = throw (attribution_failed e)

abbrev pub of_money : Outcome Money.Error ℤ → Outcome RunError ℤ
of_money (ok a) = ok a
of_money (throw e) = throw (money_failed e)

pub data UndefinedReason : Type 0 where
  no_attributed_cost empty_cohort : UndefinedReason

pub data MetricValue : Type 0 where
  defined : ℤ → MetricValue
  undefined : UndefinedReason → MetricValue

-- The installations that fraud excludes.
abbrev pub Excluded : Type 0
Excluded = List (Option String)

abbrev pub is_excluded : Excluded → CandidateAttempt → Bool
is_excluded excluded a = any (λ id. opt_eq id a.event.payload.installation_id) excluded

unfoldable pub eligible_installs :
    MetricDefinition → Excluded → List CandidateAttempt → List CandidateAttempt
eligible_installs d excluded installs =
    if d.fraud_net then filter (λ a. not (is_excluded excluded a)) installs else installs

-- The installation of an event, in its tenant and app.
abbrev pub is_installation_of : CandidateAttempt → CandidateAttempt → Bool
is_installation_of item candidate =
    str_eq candidate.server.tenant_id item.server.tenant_id
    && str_eq candidate.server.app_id item.server.app_id
    && opt_eq candidate.event.payload.installation_id item.event.payload.installation_id

abbrev pub installation_for : List CandidateAttempt → CandidateAttempt → Option CandidateAttempt
installation_for installs item = find (is_installation_of item) installs

abbrev pub add_revenue :
    MetricDefinition
    → FxPolicy
    → CandidateAttempt
    → ℤ
    → Option CandidateAttempt
    → Outcome RunError ℤ
add_revenue d fx item sum none = ok sum
add_revenue d fx item sum (some installation) = do
  eligible ← of_attribution (eligible_revenue d installation.event item.event)
  if eligible
      then (do amount ← of_money (convert_money item.event.payload.amount fx); ok (sum +ℤ amount))
      else ok sum

-- The `reduce` of `revenueValue`.
unfoldable pub revenue_value :
    MetricDefinition
    → FxPolicy
    → List CandidateAttempt
    → ℤ
    → List CandidateAttempt
    → Outcome RunError ℤ
unfolding eligible_revenue convert_money
revenue_value d fx installs sum [] = ok sum
revenue_value d fx installs sum (item ∷ revenue) = do
  next ← add_revenue d fx item sum (installation_for installs item)
  revenue_value d fx installs next revenue

abbrev pub installation_ids : List CandidateAttempt → List (Option String)
installation_ids installs = map (λ a. a.event.payload.installation_id) installs

-- `cohortSize`.
unfoldable pub cohort_size : List CandidateAttempt → ℕ
cohort_size installs = length (unique ⦃e = optional_eq⦄ (installation_ids installs))

-- The sum of the current costs.
unfoldable pub cost_sum : String → ℕ → ℤ → List CostRecord → Outcome RunError ℤ
unfolding scale_money
cost_sum currency scale sum [] = ok sum
cost_sum currency scale sum (c ∷ costs) = do
  if str_eq c.amount.currency currency
      then ok tt
      else throw (cost_currency_mismatch c.cost_record_id)
  amount ← of_money (scale_money c.amount scale)
  cost_sum currency scale (sum +ℤ amount) costs

-- `dayIndex === day`, of a time that is not before the install.
abbrev pub is_on_day : ℕ → ℕ → ℕ → Bool
is_on_day day installed seen = leb installed seen && ((seen - installed) / day_ms == day)

abbrev pub active_of :
    MetricDefinition
    → CandidateAttempt
    → Option CandidateAttempt
    → Outcome RunError (List (Option String))
active_of d session none = ok []
active_of d session (some installation) = do
  seen ← of_attribution (time (some session.event.occurred_at) "occurred_at")
  installed ← of_attribution (time (some installation.event.occurred_at) "occurred_at")
  ok (
      if is_on_day d.window_day installed seen
      then installation.event.payload.installation_id ∷ []
      else [])

-- The loop that adds to `active`; what is added twice is still there twice.
unfoldable pub active_ids :
    MetricDefinition
    → List CandidateAttempt
    → List CandidateAttempt
    → Outcome RunError (List (Option String))
active_ids d installs [] = ok []
active_ids d installs (session ∷ sessions) = do
  ids ← active_of d session (installation_for installs session)
  rest ← active_ids d installs sessions
  ok (ids ++ rest)

abbrev pub is_activity : MetricDefinition → CandidateAttempt → Bool
is_activity d a = contains a.event.event_name (or_else d.activity_events ("session_start" ∷ []))

abbrev pub scale_factor : MetricDefinition → ℕ
scale_factor d = 10 ^ or_else d.ratio_scale 6

-- `active_installations_over_cohort`: the sessions are looked up among all installs of the group, the cohort has the eligible ones.
unfoldable pub activity_value :
    MetricDefinition
    → List CandidateAttempt
    → ℕ
    → List CandidateAttempt
    → Outcome RunError MetricValue
activity_value d installs cohort activities =
    if cohort == 0 then ok (undefined empty_cohort) else (do
      ids ← active_ids d installs (filter (is_activity d) activities)
      value ← of_money (
          round_half_even (pos (length (unique ⦃e = optional_eq⦄ ids) * scale_factor d))
            (pos cohort))
      ok (defined value))

abbrev pub is_zero : ℤ → Bool
is_zero (pos n) = n == 0
is_zero _ = false

-- `revenue_over_cost`.
unfoldable pub return_value : MetricDefinition → ℤ → ℤ → Outcome RunError MetricValue
unfolding round_half_even
return_value d revenue cost = if is_zero cost then ok (undefined no_attributed_cost) else (do
  value ← of_money (round_half_even (revenue *ℤ pos (scale_factor d)) cost)
  ok (defined value))

-- `revenue_over_cohort`.
unfoldable pub average_value : ℤ → ℕ → Outcome RunError MetricValue
unfolding round_half_even
average_value revenue cohort =
    if cohort == 0
    then ok (undefined empty_cohort)
    else (do value ← of_money (round_half_even revenue (pos cohort)); ok (defined value))
