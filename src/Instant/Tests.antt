-- ===== src/Instant/Tests.antt =====
-- Timestamps against what `Date.parse` of ECMA-262 gives for them.
use open_mmp.Common.{ℕ, ◌+◌, ◌*◌, ◌≡◌, refl, none, some}
use open_mmp.Instant.{to_instant, reach, day_ms}

-- `Date.parse` of the same texts, from the earliest `Date`.
instants :
    (to_instant "1970-01-01T00:00:00.000Z" ≡ some (reach * day_ms))
    × (to_instant "2026-08-20T12:00:00.250Z" ≡ some (8640000000000000 + 1787227200250))
    × (to_instant "2024-02-29T23:59:59.999Z" ≡ some (8640000000000000 + 1709251199999))
    × (to_instant "-271821-04-20T00:00:00.000Z" ≡ some 0)
    × (to_instant "+275760-09-13T00:00:00.000Z" ≡ some (2 * reach * day_ms))
unfolding to_instant
instants = (refl, refl, refl, refl, refl)

refusals :
    (to_instant "2026-08-20T12:00:00Z" ≡ none)
    × (to_instant "2023-02-29T00:00:00.000Z" ≡ none)
    × (to_instant "+275760-09-13T00:00:00.001Z" ≡ none)
    × (to_instant "+002026-08-20T12:00:00.000Z" ≡ none)
    × (to_instant "2026-08-20T24:00:00.000Z" ≡ none)
    × (to_instant "" ≡ none)
unfolding to_instant
refusals = (refl, refl, refl, refl, refl, refl)

abbrev noon : ℕ
noon = 8640000000000000 + 1787227200000
