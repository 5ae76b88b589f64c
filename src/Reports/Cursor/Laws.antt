-- ===== src/Reports/Cursor/Laws.antt =====
-- Cursors that are written and read again.
use open_mmp.Common.{
  ◌≡◌, ◌↔◌, refl, inl, inr, true, ◌&&◌, List, map, Option, some, String, Bool-cases, arith, ok,
}
use open_mmp.Common.Sorting.{insert_sorted, sort}
use open_mmp.Attribution.Order.{units, compare_text}
use open_mmp.Reports.Query.{MetricCursor, is_metric_name, is_digest, is_identifier}
use open_mmp.Reports.Cursor.{Entries, cursor_entries, parse_cursor, encode_metric_cursor}

abbrev pub IsCursor : MetricCursor → Type 0
IsCursor c =
    (is_metric_name c.metric_name ≡ true)
    × (is_digest c.grouping_digest ≡ true)
    × (is_identifier c.metric_run_id ≡ true)

-- The entries of a JSON object of texts.
abbrev pub as_parsed : List (String × String) → Entries
as_parsed entries = map (λ e. (e.0, some e.1)) entries

-- A cursor that is encoded and parsed again comes back exactly if its metric's name, its digest and its identifier are of
-- their forms, where the platform parses the object that was encoded as that object.
pub parse_cursor-encode_iff :
    (encode : List (String × String) → String) (decode : String → Option Entries) (c : MetricCursor)
    → decode (encode (cursor_entries c)) ≡ some (as_parsed (cursor_entries c))
    → (parse_cursor decode (encode_metric_cursor encode c) ≡ ok c) ↔ IsCursor c
unfolding parse_cursor encode_metric_cursor compare_text sort insert_sorted units
parse_cursor-encode_iff encode decode c h =
    elim (Bool-cases (
      is_metric_name c.metric_name
      && is_digest c.grouping_digest
      && is_identifier c.metric_run_id)) [
        | inl t ↦ (
          λ e. (ground (arith, t), ground (arith, t), ground (arith, t)),
          λ (p, q, r). rw (h, t) refl,
        )
        | inr t ↦ (λ e. cc (rw (h, t) at e), λ (p, q, r). absurd (ground (arith, p, q, r, t)))
      ]
