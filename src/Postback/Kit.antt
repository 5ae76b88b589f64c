-- ===== src/Postback/Kit.antt =====
-- `verifyAdAttributionKitPostback` of packages/apple-postback/src/index.ts. The decoding of a part from base64url and JSON is an
-- argument, `none` where it throws; so is the check of a signature under a key of the set of keys.
pub mod Laws
use open_mmp.Common.{
  ℕ, Bool, true, false, ◌&&◌, ◌||◌, List, [], ◌∷◌, ◌++◌, Option, none, some, String, str_eq, lookup,
  string_eq, ◌==◌, if◌then◌else◌,
}
use open_mmp.Postback.{
  ◌>>=◌, Json, text, JsonObject, Environment, production, development, FailureReason, malformed,
  signature_invalid, unknown_key, development_postback_rejected, refused, verified,
  VerificationResult, required_string, unsigned_of,
}

-- `text.split(".")`.
abbrev pub start_part : ℕ → List (List ℕ) → List (List ℕ)
start_part c [] = (c ∷ []) ∷ []
start_part c (part ∷ parts) = (c ∷ part) ∷ parts

abbrev pub split : List ℕ → List (List ℕ)
split [] = [] ∷ []
split (c ∷ cs) = let rest = split cs in if c == b'.' then [] ∷ rest else start_part c rest

-- What a text of three parts that are not empty says.
pub record Token : Type 0 where
  pub signed : List ℕ
  pub signature : List ℕ
  pub kid : String
  pub claims : JsonObject

abbrev pub three_parts : List (List ℕ) → Option (List ℕ × List ℕ × List ℕ)
three_parts ((a ∷ x) ∷ (b ∷ y) ∷ (c ∷ z) ∷ []) = some (a ∷ x, b ∷ y, c ∷ z)
three_parts _ = none

abbrev pub kid_of : Option Json → Option Json → Option String
kid_of (some (text algorithm)) (some (text kid)) =
    if str_eq algorithm "ES256" then some kid else none
kid_of _ _ = none

unfoldable pub kit_token : (List ℕ → Option JsonObject) → JsonObject → Option Token
kit_token decode body = do
  jws ← required_string (lookup "jws-string" body)
  (a, b, c) ← three_parts (split jws)
  header ← decode a
  claims ← decode b
  kid ← kid_of (lookup "alg" header) (lookup "kid" header)
  some (record { signed = a ++ b'.' ∷ b; signature = c; kid = kid; claims = claims })

abbrev pub key_environment : String → Option Environment
key_environment kid =
    if str_eq kid "apple-cas-identifier/0"
    then some production
    else if str_eq kid "apple-development-identifier/0"
        || str_eq kid "apple-development-identifier/1"
    then some development
    else none

abbrev pub aak_unsigned_fields : List String
aak_unsigned_fields =
    "conversion-value" ∷ "coarse-conversion-value" ∷ "ad-interaction-type" ∷ "country-code" ∷ []

abbrev pub refusal :
    FailureReason → JsonObject → Option Environment → Option JsonObject → VerificationResult
refusal reason unsigned environment claims = refused (record {
  reason = reason;
  unsigned = unsigned;
  signing_key_environment = environment;
  unverified_claims = claims;
})

abbrev pub is_accepted : Bool → Environment → Bool
is_accepted accepts production = true
is_accepted accepts development = accepts

abbrev pub kit_result : JsonObject → Environment → JsonObject → Option Bool → VerificationResult
kit_result unsigned environment claims none = refusal malformed unsigned none none
kit_result unsigned environment claims (some false) =
    refusal signature_invalid unsigned (some environment) (some claims)
kit_result unsigned environment claims (some true) = verified claims unsigned environment

module _ (keys : List (String × String)) (verify : String → List ℕ → List ℕ → Option Bool)
    (accepts : Bool) (unsigned : JsonObject) where
  abbrev pub verify_with : Token → Environment → Option String → VerificationResult
  verify_with t environment none = refusal unknown_key unsigned (some environment) (some t.claims)
  verify_with t environment (some key) =
      if str_eq key ""
      then refusal unknown_key unsigned (some environment) (some t.claims)
      else kit_result unsigned environment t.claims (verify key t.signed t.signature)

  abbrev pub verify_in : Token → Option Environment → VerificationResult
  verify_in t none = refusal unknown_key unsigned none (some t.claims)
  verify_in t (some environment) =
      if is_accepted accepts environment
      then verify_with t environment (lookup t.kid keys)
      else refusal development_postback_rejected unsigned (some environment) (some t.claims)

  abbrev pub verify_token : Option Token → VerificationResult
  verify_token none = refusal malformed unsigned none none
  verify_token (some t) = verify_in t (key_environment t.kid)

unfoldable pub verify_kit :
    List (String × String)
    → (String → List ℕ → List ℕ → Option Bool)
    → Bool
    → (List ℕ → Option JsonObject)
    → JsonObject
    → VerificationResult
unfolding kit_token
verify_kit keys verify accepts decode body =
    verify_token keys verify accepts (unsigned_of aak_unsigned_fields body) (kit_token decode body)
