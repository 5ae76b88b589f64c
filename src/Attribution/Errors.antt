-- ===== src/Attribution/Errors.antt =====
-- What the functions of packages/attribution-core/src/evaluator.ts throw.
use open_mmp.Common.{ℕ, Option, none, some, String, Outcome, ok, throw}
use open_mmp.Instant.{to_instant}

pub data Error : Type 0 where
  timestamp_invalid : (field : String) → Option String → Error  -- TimestampInvalidError
  stale_policy_digest_mismatch click_policy_digest_mismatch : Error
  meta_context_missing : Error  -- the TypeError on `meta_referrer_context`
  first_missing : Error  -- the TypeError on the first attempt of an empty scope
  missing_decision : String → Error
  ambiguous_installation_anchor : Option String → Error
  invalid_reinstall_anchor : String → Error
  invalid_time_value : Error  -- the RangeError of `toISOString`
  missing_prior_anchor first_install_names_prior : String → Error

abbrev pub known_or : Error → Option ℕ → Outcome Error ℕ
known_or e none = throw e
known_or e (some t) = ok t

-- `time`: the empty text is no timestamp either.
unfoldable pub time : Option String → String → Outcome Error ℕ
time none field = throw (timestamp_invalid field none)
time (some value) field = known_or (timestamp_invalid field (some value)) (to_instant value)
