-- ===== src/Postback.antt =====
-- The verification of postbacks in packages/apple-postback/src/index.ts: the message that SKAdNetwork signs, and what
-- is taken as authenticated. Signatures are checked by node:crypto, an argument, as is `Number` of a text. An error that the
-- functions throw is `none`: each is caught, and its text is lost.
pub mod Laws
pub mod Kit
mod Tests
use open_mmp.Common.{
  ℕ, suc, Bool, true, false, not, ◌||◌, List, [], ◌∷◌, ◌++◌, filter, Option, none, some, String,
  str_eq, lookup, string_eq, is_some, ◌==◌, if◌then◌else◌,
}
use open_mmp.Instant.{codes}
use open_mmp.Attribution.Metrics.Definitions.{contains}
use open_mmp.Attribution.Metrics.Counts.{decimal_codes}

pub data Json : Type 0 where
  text : String → Json
  integer : ℕ → Json  -- an integer from 0 to below 10 ^ 21, whose text has no exponent
  boolean : Bool → Json
  other : String → Json

abbrev pub JsonObject : Type 0
JsonObject = List (String × Json)

pub data Environment : Type 0 where
  production development : Environment

pub data FailureReason : Type 0 where
  malformed signature_invalid unknown_key development_postback_rejected : FailureReason

pub record Refusal : Type 0 where
  pub reason : FailureReason
  pub unsigned : JsonObject
  pub signing_key_environment : Option Environment
  pub unverified_claims : Option JsonObject

pub data VerificationResult : Type 0 where
  verified : (authenticated unsigned : JsonObject) → Environment → VerificationResult
  refused : Refusal → VerificationResult

infixl 5 ◌>>=◌
abbrev pub ◌>>=◌ : {A B : Type 0} → Option A → (A → Option B) → Option B
none >>= f = none
some a >>= f = f a

-- `requiredString`, `requiredInteger` and `requiredBoolean`, as codes.
abbrev pub required_string : Option Json → Option (List ℕ)
required_string (some (text s)) = if str_eq s "" then none else some (codes s)
required_string _ = none

abbrev pub required_integer : Option Json → Option (List ℕ)
unfolding decimal_codes
required_integer (some (integer n)) = some (decimal_codes (suc n) n)
required_integer _ = none

abbrev pub required_boolean : Option Json → Option (List ℕ)
required_boolean (some (boolean true)) = some (codes "true")
required_boolean (some (boolean false)) = some (codes "false")
required_boolean _ = none

-- The members of a body that a message can be made of.
pub record Signed : Type 0 where
  pub version : Option Json
  pub ad_network_id : Option Json
  pub campaign_id : Option Json
  pub source_identifier : Option Json
  pub app_id : Option Json
  pub transaction_id : Option Json
  pub redownload : Option Json
  pub source_app_id : Option Json
  pub source_domain : Option Json
  pub fidelity_type : Option Json
  pub did_win : Option Json
  pub postback_sequence_index : Option Json

abbrev pub signed_names : List String
signed_names =
    "version" ∷ "ad-network-id" ∷ "campaign-id" ∷ "source-identifier" ∷ "app-id" ∷ "transaction-id"
    ∷ "redownload" ∷ "source-app-id" ∷ "source-domain" ∷ "fidelity-type" ∷ "did-win"
    ∷ "postback-sequence-index" ∷ []

abbrev pub signed_of : JsonObject → Signed
signed_of body = record {
  version = lookup "version" body;
  ad_network_id = lookup "ad-network-id" body;
  campaign_id = lookup "campaign-id" body;
  source_identifier = lookup "source-identifier" body;
  app_id = lookup "app-id" body;
  transaction_id = lookup "transaction-id" body;
  redownload = lookup "redownload" body;
  source_app_id = lookup "source-app-id" body;
  source_domain = lookup "source-domain" body;
  fidelity_type = lookup "fidelity-type" body;
  did_win = lookup "did-win" body;
  postback_sequence_index = lookup "postback-sequence-index" body;
}

-- `fields.join(separator)`, with U+2063 between two.
abbrev pub join : List (List ℕ) → List ℕ
join [] = []
join (x ∷ []) = x
join (x ∷ y ∷ xs) = x ++ 8291 ∷ join (y ∷ xs)

-- The part of a text before its first point.
abbrev pub before_point : List ℕ → List ℕ
before_point [] = []
before_point (c ∷ cs) = let rest = before_point cs in if c == b'.' then [] else c ∷ rest

abbrev pub optional_field : Option Json → Option (List (List ℕ))
unfolding decimal_codes
optional_field none = some []
optional_field (some value) = do field ← required_integer (some value); some (field ∷ [])

unfoldable pub message_3 : Signed → List ℕ → List ℕ → Option (List ℕ)
unfolding decimal_codes
message_3 s version network = do
  campaign ← required_integer s.campaign_id
  app ← required_integer s.app_id
  transaction ← required_string s.transaction_id
  redownload ← required_boolean s.redownload
  source ← optional_field s.source_app_id
  fidelity ← required_integer s.fidelity_type
  won ← required_boolean s.did_win
  some (
      join (
        version
        ∷ network
        ∷ campaign
        ∷ app
        ∷ transaction
        ∷ redownload
        ∷ (source ++ fidelity ∷ won ∷ [])))

unfoldable pub message_4 : Signed → List ℕ → List ℕ → Option (List ℕ)
unfolding decimal_codes
message_4 s version network = do
  source ←
      if is_some s.source_app_id
      then required_integer s.source_app_id
      else required_string s.source_domain
  identifier ← required_string s.source_identifier
  app ← required_integer s.app_id
  transaction ← required_string s.transaction_id
  redownload ← required_boolean s.redownload
  fidelity ← required_integer s.fidelity_type
  won ← required_boolean s.did_win
  index ← required_integer s.postback_sequence_index
  some (
      join (
        version ∷ network ∷ identifier ∷ app ∷ transaction ∷ redownload ∷ source ∷ fidelity ∷ won
        ∷ index ∷ []))

abbrev pub is_major : ℕ → Option ℕ → Bool
is_major n none = false
is_major n (some m) = m == n

unfoldable pub message_of : (List ℕ → Option ℕ) → Signed → Option (List ℕ)
unfolding message_3 message_4
message_of number_of s = do
  version ← required_string s.version
  network ← required_string s.ad_network_id
  if is_major 3 (number_of (before_point version))
      then message_3 s version network
      else if is_major 4 (number_of (before_point version))
      then message_4 s version network
      else none

-- `skanSignedMessage`, as codes.
abbrev pub skan_signed_message : (List ℕ → Option ℕ) → JsonObject → Option (List ℕ)
skan_signed_message number_of body = message_of number_of (signed_of body)

abbrev pub skan_unsigned_fields : List String
skan_unsigned_fields = "conversion-value" ∷ "coarse-conversion-value" ∷ "country-code" ∷ []

-- The members of the names given, in their order.
abbrev pub member_if : String → Option Json → List (String × Json) → List (String × Json)
member_if name none rest = rest
member_if name (some value) rest = (name, value) ∷ rest

abbrev pub unsigned_of : List String → JsonObject → JsonObject
unsigned_of [] body = []
unsigned_of (name ∷ names) body = member_if name (lookup name body) (unsigned_of names body)

abbrev pub is_authenticated : String × Json → Bool
is_authenticated (name, value) =
    not (str_eq name "attribution-signature" || contains name skan_unsigned_fields)

-- The signature, the message and whether `verify` accepts the one for the other, if none of this throws.
unfoldable pub skan_valid :
    (List ℕ → Option ℕ) → (List ℕ → List ℕ → Option Bool) → JsonObject → Option Bool
skan_valid number_of verify body = do
  signature ← required_string (lookup "attribution-signature" body)
  message ← skan_signed_message number_of body
  verify message signature

abbrev pub skan_result : JsonObject → JsonObject → Option Bool → VerificationResult
skan_result body unsigned none = refused (record {
  reason = malformed;
  unsigned = unsigned;
  signing_key_environment = none;
  unverified_claims = none;
})
skan_result body unsigned (some false) = refused (record {
  reason = signature_invalid;
  unsigned = unsigned;
  signing_key_environment = some production;
  unverified_claims = none;
})
skan_result body unsigned (some true) = verified (filter is_authenticated body) unsigned production

-- `verifySkAdNetworkPostback`, with the public key in `verify`.
unfoldable pub verify_skan :
    (List ℕ → Option ℕ) → (List ℕ → List ℕ → Option Bool) → JsonObject → VerificationResult
unfolding skan_valid
verify_skan number_of verify body =
    skan_result body (unsigned_of skan_unsigned_fields body) (skan_valid number_of verify body)
