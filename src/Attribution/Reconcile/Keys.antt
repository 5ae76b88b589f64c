-- ===== src/Attribution/Reconcile/Keys.antt =====
-- The inputs and results of a reconciliation, and `key`, by which keys are matched. A text that is
-- made of others is the list of its code points.
use open_mmp.Common.{
  ℕ, ◌+◌, Bool, true, false, ◌&&◌, ◌||◌, List, [], ◌∷◌, ◌++◌, map, Option, none, some, String,
  str_eq, leb, ◌==◌, if◌then◌else◌, list_eq, nat_eq,
}
use open_mmp.Common.Ordering.{lexicographic}
use Prim.Native.Nat.{compare, Ordering}
use open_mmp.Instant.{codes}
use open_mmp.Attribution.Order.{units}

abbrev pub Text : Type 0
Text = List ℕ

pub data Normalization : Type 0 where
  lowercase_ascii trim identity : Normalization

pub data WindowStatus : Type 0 where
  in_window out_of_window not_applicable : WindowStatus

pub data Freshness : Type 0 where
  current stale recalculated : Freshness

pub data DifferenceReason : Type 0 where
  matched redaction_caused_recalculation provider_modeled_conversion join_key_missing :
      DifferenceReason
  candidate_missing external_row_unmatched join_key_ambiguous candidate_excluded : DifferenceReason
  window_mismatch freshness_mismatch : DifferenceReason

pub record MatchingKey : Type 0 where
  pub key_type : String
  pub value : String
  pub normalization : Normalization
  pub one_to_one : Bool  -- cardinality === "one_to_one"
  pub value_encoding : Option String

pub record Candidate : Type 0 where
  pub candidate_id : String
  pub tenant_id : String
  pub app_id : String
  pub matching_keys : List MatchingKey
  pub window_status : WindowStatus
  pub freshness : Freshness
  pub excluded : Bool
  pub exclusion_reason : Option String

pub record ReconciliationInput : Type 0 where
  pub reconciliation_id : String
  pub tenant_id : String
  pub app_id : String
  pub input_snapshot_id : String
  pub external_snapshot_id : String
  pub matching_keys : List MatchingKey
  pub provider_modeled_without_candidate : Bool
  pub redacted : Bool  -- privacy_effect === "redaction"
  pub candidates : List Candidate
  pub freshness : Freshness

pub record Reconciliation : Type 0 where
  pub reconciliation_id : String
  pub tenant_id : String
  pub app_id : String
  pub input_snapshot_id : String
  pub external_snapshot_id : String
  pub difference_reason_code : DifferenceReason
  pub difference_reason_version : String
  pub matching_keys : List MatchingKey
  pub candidates : List String
  pub exclusions : List (Option String)
  pub windows : List Text
  pub joins : List Text
  pub freshness : Freshness

abbrev pub lower : ℕ → ℕ
lower c = if leb 65 c && leb c 90 then c + 32 else c

-- White space and line terminators of ECMA-262.
abbrev pub is_space : ℕ → Bool
is_space c =
    (leb 9 c && leb c 13)
    || (c == 32)
    || (c == 160)
    || (c == 5760)
    || (leb 8192 c && leb c 8202)
    || (c == 8232)
    || (c == 8233)
    || (c == 8239)
    || (c == 8287)
    || (c == 12288)
    || (c == 65279)

abbrev pub trim_start : Text → Text
trim_start [] = []
trim_start (c ∷ cs) = let rest = trim_start cs in if is_space c then rest else c ∷ cs

abbrev pub is_empty {ℓ} : {A : Type ℓ} → List A → Bool
is_empty [] = true
is_empty (x ∷ xs) = false

abbrev pub trim_end : Text → Text
trim_end [] = []
trim_end (c ∷ cs) = let rest = trim_end cs in if is_empty rest && is_space c then [] else c ∷ rest

abbrev pub normalize : Normalization → Text → Text
normalize lowercase_ascii t = map lower t
normalize trim t = trim_end (trim_start t)
normalize identity t = t

abbrev pub encoding_text : Option String → Text
encoding_text none = []
encoding_text (some e) = if str_eq e "" then [] else codes e ++ 58 ∷ []

-- `key`.
unfoldable pub key_text : MatchingKey → Text
key_text k =
    codes k.key_type
    ++ 58 ∷ (encoding_text k.value_encoding ++ normalize k.normalization (codes k.value))

abbrev pub text_beq : Text → Text → Bool
text_beq = (list_eq ⦃e = nat_eq⦄).beq

unfoldable pub compare_texts : Text → Text → Ordering
unfolding units lexicographic
compare_texts a b = lexicographic compare (units a) (units b)

abbrev pub compare_strings : String → String → Ordering
compare_strings a b = compare_texts (codes a) (codes b)
