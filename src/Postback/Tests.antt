-- ===== src/Postback/Tests.antt =====
-- Postbacks of packages/apple-postback/src/index.ts at concrete inputs, with keys that confirm one message each.
use open_mmp.Common.{
  ℕ, string_eq, String, str_eq, lookup, Bool, true, false, List, [], ◌∷◌, ◌++◌, filter, Option,
  none, some, map, ◌&&◌, ◌==◌, if◌then◌else◌, ◌≡◌, refl, ◌↔◌,
}
use open_mmp.Instant.{codes}
use open_mmp.Attribution.Metrics.Counts.{decimal_codes}
use open_mmp.Postback.{
  text, integer, boolean, JsonObject, verified, production, development,
  development_postback_rejected, message_4, message_of, skan_valid, verify_skan,
  skan_unsigned_fields, unsigned_of, is_authenticated, skan_signed_message,
}
use open_mmp.Postback.Kit.{
  Token, kit_token, verify_kit, key_environment, refusal, aak_unsigned_fields,
}
use open_mmp.Postback.Kit.Laws.{verify_kit-verified_iff}
use open_mmp.Postback.Laws.{IsSigned, verify_skan_iff, verify_skan-append}

abbrev number_of : List ℕ → Option ℕ
number_of (c ∷ []) = if c == b'4' then some 4 else none
number_of _ = none

abbrev body_4 : JsonObject
body_4 =
    ("version", text "4.0")
    ∷ ("ad-network-id", text "n.skadnetwork")
    ∷ ("source-identifier", text "5239")
    ∷ ("app-id", integer 525)
    ∷ ("transaction-id", text "6aafb7a5")
    ∷ ("redownload", boolean false)
    ∷ ("source-domain", text "example.com")
    ∷ ("fidelity-type", integer 1)
    ∷ ("did-win", boolean true)
    ∷ ("postback-sequence-index", integer 0)
    ∷ ("conversion-value", integer 20)
    ∷ ("attribution-signature", text "c2ln")
    ∷ []

-- The texts of the message, with `|` for the separator.
abbrev bar : ℕ → ℕ
bar c = if c == b'|' then 8291 else c

abbrev message_4_codes : List ℕ
message_4_codes = map bar (codes "4.0|n.skadnetwork|5239|525|6aafb7a5|false|example.com|1|true|0")

-- A key that has signed this message alone.
abbrev same_codes : List ℕ → List ℕ → Bool
same_codes [] [] = true
same_codes (a ∷ x) (b ∷ y) = a == b && same_codes x y
same_codes _ _ = false

abbrev verify_4 : List ℕ → List ℕ → Option Bool
verify_4 message signature =
    some (same_codes message message_4_codes && same_codes signature (codes "c2ln"))

skan_signed_message-test : skan_signed_message number_of body_4 ≡ some message_4_codes
unfolding message_4 message_of decimal_codes
skan_signed_message-test = refl

body_4-IsSigned : IsSigned number_of verify_4 body_4
unfolding message_4 message_of decimal_codes
body_4-IsSigned = (codes "c2ln", message_4_codes, refl, refl, refl)

verify_skan_iff_example :
    (verify_skan number_of verify_4 body_4
      ≡ verified
          (filter is_authenticated body_4)
          (unsigned_of skan_unsigned_fields body_4)
          production)
    ↔ IsSigned number_of verify_4 body_4
verify_skan_iff_example = verify_skan_iff number_of verify_4 body_4

-- A member that the message has no part of.
abbrev interaction : JsonObject
interaction = ("ad-interaction-type", text "click") ∷ []

valid_4 : skan_valid number_of verify_4 body_4 ≡ some true
unfolding skan_valid message_4 message_of decimal_codes
valid_4 = refl

verify_skan-append_example :
    verify_skan number_of verify_4 (body_4 ++ interaction)
    ≡ verified
        (filter is_authenticated body_4 ++ filter is_authenticated interaction)
        (unsigned_of skan_unsigned_fields (body_4 ++ interaction))
        production
verify_skan-append_example = verify_skan-append number_of verify_4 body_4 interaction valid_4 refl

interaction-test : filter is_authenticated interaction ≡ interaction
interaction-test = refl

-- A postback of AdAttributionKit whose parts are one letter each.
abbrev kit_body : JsonObject
kit_body = ("jws-string", text "h.c.s") ∷ ("conversion-value", integer 3) ∷ []

abbrev kit_claims : JsonObject
kit_claims = ("ad-network-identifier", text "n.kit") ∷ []

abbrev kit_decode : List ℕ → Option JsonObject
kit_decode (c ∷ []) =
    if c == b'h'
    then some (("alg", text "ES256") ∷ ("kid", text "apple-development-identifier/0") ∷ [])
    else if c == b'c'
    then some kit_claims
    else none
kit_decode _ = none

abbrev kit_keys : List (String × String)
kit_keys = ("apple-cas-identifier/0", "p") ∷ ("apple-development-identifier/0", "d") ∷ []

abbrev kit_verify : String → List ℕ → List ℕ → Option Bool
kit_verify key message signature =
    some (str_eq key "d" && same_codes message (codes "h.c") && same_codes signature (codes "s"))

abbrev kit_parsed : Token
kit_parsed = record {
  signed = codes "h.c";
  signature = codes "s";
  kid = "apple-development-identifier/0";
  claims = kit_claims;
}

kit_token-test : kit_token kit_decode kit_body ≡ some kit_parsed
unfolding kit_token
kit_token-test = refl

verify_kit-verified_iff_example :
    (verify_kit kit_keys kit_verify true kit_decode kit_body
      ≡ verified kit_claims (unsigned_of aak_unsigned_fields kit_body) development)
    ↔ ((key_environment "apple-development-identifier/0" ≡ some development)
        × (development ≡ development → true ≡ true)
        × ((key : String) × (lookup "apple-development-identifier/0" kit_keys ≡ some key)
            × (str_eq key "" ≡ false)
            × (kit_verify key (codes "h.c") (codes "s") ≡ some true)))
verify_kit-verified_iff_example =
    verify_kit-verified_iff kit_keys kit_verify true kit_decode kit_body kit_parsed development
      kit_token-test

verify_kit-tests :
    (verify_kit kit_keys kit_verify true kit_decode kit_body
      ≡ verified kit_claims (("conversion-value", integer 3) ∷ []) development)
    × (verify_kit kit_keys kit_verify false kit_decode kit_body
        ≡ refusal development_postback_rejected
            (("conversion-value", integer 3) ∷ [])
            (some development)
            (some kit_claims))
unfolding verify_kit kit_token
verify_kit-tests = (refl, refl)
