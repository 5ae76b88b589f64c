-- ===== src/Lib.antt =====
-- The core of open-mmp: what becomes of a delivered record, to which click an install is
-- attributed, which rules of fraud it meets, how amounts of money are converted, which parameters
-- of a link the redirector takes over, how the API limits the rate of requests, and which SQL it
-- makes of a query of reports.
--
-- Parts, and where they are:
--   Instant        the ISO timestamps of packages/attribution-core/src/evaluator.ts (`time`) as
--                  milliseconds from the earliest `Date`, by the calendar of ECMA-262
--     Dates        the date of an instant, as `dateAt` writes it
--   Attribution    packages/attribution-core/src/evaluator.ts
--     Types        records, server contexts and attempts, with the fields that the code reads
--     Candidates   `FixtureArrayCandidateProvider` and `IndexedCandidateProvider`
--     Consent      `consentDecision` and the reason that `timestampInvalidDecision` gives
--     Decide       `decide`: duplicates, the ladder of rejections, the payload's disposition
--     Results      attributions, evidence and its lifecycle, `decisionFor`
--     Verdicts     the branches of `makeAttribution` that match no click
--     Install      `makeAttribution`
--     Lifecycle    `privacyIndex`
--     Engagement   `makeAggregatePostbackAttribution` and `makeDeepLinkAttribution`
--     Anchors      `assertInstallationAnchors`
--     Evaluate     the decisions of `evaluate`, their map, and the attempts that count
--     Order        `compareText`, `sortByKey` and `sortCandidateAttempts`
--     Inputs       the checks of an input, `assertScopedReferences` among them
--     Outputs      raw records, deliveries, logical events, corrections, tombstones, rejections;
--                  Outputs.Ledger is the body of `evaluate` that computes them
--     FraudDecisions  the decisions on fraud of `evaluate`, and the attributions that they take away
--     Metrics      `metricDefinitions` with its checks, `costRecords`, and `metricRuns`: Cohorts
--                  (`matchesGrouping`, `eligibleRevenue`), Selection, Values, Counts and Runs
--     Reconcile    `reconciliationResults` and `importedReconciliationInputs`
--     Referrer     `mapInstallReferrer` of packages/attribution-core/src/install-referrer-mapping.ts
--   Fraud          packages/fraud-rules/src/index.ts
--     Value        the values that a bundle is made of, and numbers
--     Bundle       the default bundle, `fraudNumberParameter` and `fraudRuleAction`
--     Assert       `assertFraudBundle` and `fraudBundleHash`
--     Install      `evaluateInstallRules`
--   Money          `roundHalfEven`, `convertMoney` and `scaleMoney` of
--                  packages/attribution-core/src/evaluator.ts
--   Postback       `skanSignedMessage` and `verifySkAdNetworkPostback` of
--                  packages/apple-postback/src/index.ts
--     Kit          `verifyAdAttributionKitPostback`
--   RateLimit      apps/api/src/rate-limit.ts
--     Bucket       `TokenBucket`
--     Keyed        `KeyedTokenBucket`
--   Reports        apps/api/src/report-query.ts
--     Query        queries, errors, and the tests on texts
--     Filters      each filter of a request, read and checked by itself
--     Series       the checks on metrics of aggregate postbacks
--     Cursor       `parseCursor` and `encodeMetricCursor`
--     Parse        `parseMetricQuery`
--     Sql          `buildMetricQuery` and `buildDifferenceQuery`
--   Redirector     packages/redirector-core/src/index.ts
--     Parameters   `bindDeepLinkParameters`
--     Referrer     `encodeInstallReferrer`, `assertDeepLinkValue`, `buildDeferredReferrer`
--     Resolve      `fallbackResponse`, `resolveRedirect`, `prefetchEvidence`
--     Client       `classifyClientClass` of packages/redirector-core/src/client-class.ts
-- Common holds what they share: Boolean tests, lists, dictionaries, integers, and `Outcome`, a value
-- or what was thrown. Each part has its laws below it and its runs in a module Tests.
--
-- How they interact: `decide` asks a provider of candidates and the consent decision;
-- `makeAttribution` asks a provider for clicks and counts those whose decision, looked up by its
-- decision key, is accepted and unique; the map of decisions is that of `decide` over all attempts
-- of an evaluation. `evaluate` sorts the attempts, checks the input, decides each attempt, and
-- makes the ledger of the decisions and of the privacy index. The evaluator is stateless, so its
-- maps are arguments; the limiters are states that `allow` returns anew.
--
-- Bounds: every loop is structural, so there is no fuel. Numbers are natural, amounts of money
-- integers, of arbitrary size as in the source. A parameter of fraud, the threshold of a policy too,
-- is a ratio of whole numbers, and its products are exact, where the platform rounds them to 53
-- bits. A timestamp is a count from the start of the range of `Date`, in which the difference of
-- two instants is the source's. A token is counted in thousandths, with rates and bursts in whole tokens and clocks in whole milliseconds, so that no
-- rounding of floating point is modelled.
--
-- Parameters: the SHA-256 digests over canonical JSON come from packages outside the repository
-- and are functions in the records `Digests`, `OutputDigests` and `FraudDigests`, or arguments of
-- their own, of which nothing is assumed. So are the URLs of the platform (`Urls`), its queries,
-- the order and the lower case of its locale, the check of a signature by its cryptography, its
-- `Number`, and its JSON in base64url, of which the round trip
-- of cursors assumes that it parses what it printed.
--
-- Not modelled: the constant fields of an output, rejections that were made before ingestion, the
-- rule of fraud over the days of a source, which divides counts,
-- the check of a destination's URL by the redirector, the SDK, and the
-- services around them, which are HTTP handlers, SQL and files.
mod Common
pub mod Instant
pub mod Attribution
pub mod Fraud
pub mod Money
pub mod RateLimit
pub mod Redirector
pub mod Reports
pub mod Postback
