-- ===== src/Redirector/Referrer.antt =====
-- `encodeInstallReferrer`, `assertDeepLinkValue` and `buildDeferredReferrer` of
-- packages/redirector-core/src/index.ts. A text that is made of others is the list of its code points;
-- what is encoded is ASCII, so that they are its code units too.
pub mod Laws
use Prim.Native.String
use open_mmp.Common.{
  ℕ, ◌+◌, ◌/◌, ◌%◌, Bool, true, false, not, ◌&&◌, ◌||◌, List, [], ◌∷◌, ◌++◌, map, Option, none,
  some, String, all, any, length, leb, ltb, ◌==◌, if◌then◌else◌, or_else, Outcome, ok, throw, ◌>>=◌,
  ◌>>◌,
}
use open_mmp.Instant.{codes}
use open_mmp.Attribution.Order.{units}
use open_mmp.Redirector.Parameters.{within, is_unreserved}

pub data RedirectError : Type 0 where
  click_id_invalid deep_link_value_invalid referrer_too_long : RedirectError
  url_invalid : RedirectError  -- the TypeError of `new URL`
  play_package_name_missing : RedirectError

abbrev pub Text : Type 0
Text = List ℕ

-- The form encoding of a code point by `URLSearchParams`.
abbrev pub is_kept : ℕ → Bool
is_kept c =
    within b'A' b'Z' c
    || within b'a' b'z' c
    || within b'0' b'9' c
    || c == b'*'
    || c == b'-'
    || c == b'.'
    || c == b'_'

abbrev pub hex_digit : ℕ → ℕ
hex_digit d = if ltb d 10 then 48 + d else 55 + d

abbrev pub percent : List ℕ → Text
percent [] = []
percent (b ∷ bytes) = 37 ∷ hex_digit (b / 16) ∷ hex_digit (b % 16) ∷ percent bytes

abbrev pub utf8 : ℕ → List ℕ
utf8 c =
    if ltb c 128
    then c ∷ []
    else if ltb c 2048
    then (192 + c / 64) ∷ (128 + c % 64) ∷ []
    else if ltb c 65536
    then (224 + c / 4096) ∷ (128 + c / 64 % 64) ∷ (128 + c % 64) ∷ []
    else (240 + c / 262144) ∷ (128 + c / 4096 % 64) ∷ (128 + c / 64 % 64) ∷ (128 + c % 64) ∷ []

abbrev pub encode_code : ℕ → Text
encode_code c = if is_kept c then c ∷ [] else if c == 32 then 43 ∷ [] else percent (utf8 c)

abbrev pub encode_text : Text → Text
encode_text [] = []
encode_text (c ∷ cs) = encode_code c ++ encode_text cs

abbrev pub encode_pair : String × String → Text
encode_pair (name, value) = encode_text (codes name) ++ 61 ∷ encode_text (codes value)

abbrev pub encode_pairs : List (String × String) → Text
encode_pairs [] = []
encode_pairs (p ∷ []) = encode_pair p
encode_pairs (p ∷ q ∷ rest) = encode_pair p ++ 38 ∷ encode_pairs (q ∷ rest)

-- /^[A-Za-z0-9_-]{22,128}$/
abbrev pub is_click_id : String → Bool
is_click_id id =
    all
      (λ c.
        within b'A' b'Z' c || within b'a' b'z' c || within b'0' b'9' c || c == b'_' || c == b'-')
      (codes id)
    && within 22 128 (length (codes id))

unfoldable pub encode_install_referrer :
    String → List (String × String) → Outcome RedirectError Text
encode_install_referrer click_id extras =
    if is_click_id click_id
    then ok (encode_pairs (("omv", "1") ∷ ("cid", click_id) ∷ extras))
    else throw click_id_invalid

-- A code point in front of the first segment of a split text.
abbrev pub onto_first : ℕ → List Text → List Text
onto_first c [] = (c ∷ []) ∷ []
onto_first c (t ∷ ts) = (c ∷ t) ∷ ts

-- `split("/")`.
unfoldable pub split : Text → List Text
split [] = [] ∷ []
split (c ∷ cs) = let rest = split cs in if c == 47 then [] ∷ rest else onto_first c rest

-- "." or "..".
abbrev pub is_dots : Text → Bool
is_dots (c ∷ []) = c == 46
is_dots (c ∷ d ∷ []) = c == 46 && d == 46
is_dots _ = false

-- [A-Za-z0-9._~-]{1,64}, and no dots alone.
abbrev pub is_segment : Text → Bool
is_segment t = all is_unreserved t && within 1 64 (length t) && not (is_dots t)

-- An empty text before the first slash, and one to eight segments behind it.
abbrev pub is_path : List Text → Bool
is_path ([] ∷ segments) = all is_segment segments && within 1 8 (length segments)
is_path _ = false

abbrev pub is_deep_link_value : String → Bool
is_deep_link_value value = is_path (split (codes value)) && leb (length (units (codes value))) 256

unfoldable pub assert_deep_link_value : String → Outcome RedirectError (Unit {0})
unfolding units split
assert_deep_link_value value =
    if is_deep_link_value value then ok tt else throw deep_link_value_invalid

pub data DeferredStatus : Type 0 where
  carried omitted_length not_configured : DeferredStatus

pub record DeferredReferrer : Type 0 where
  pub referrer : Text
  pub status : DeferredStatus

abbrev pub prefixed : List (String × String) → List (String × String)
prefixed = map (λ p. (String.◌++◌ "dlp_" p.0, p.1))

abbrev pub carried_or_minimal : ℕ → Text → Text → DeferredReferrer
carried_or_minimal maximum minimal expanded =
    if leb (length expanded) maximum
    then record { referrer = expanded; status = carried }
    else record { referrer = minimal; status = omitted_length }

module _ (by_locale : List (String × String) → List (String × String)) where
  abbrev pub with_value :
      String
      → Option String
      → List (String × String)
      → ℕ
      → Text
      → Outcome RedirectError DeferredReferrer
  with_value click_id none params maximum minimal =
      ok (record { referrer = minimal; status = not_configured })
  with_value click_id (some value) params maximum minimal = do
    assert_deep_link_value value
    expanded ← encode_install_referrer click_id (("dl", value) ∷ prefixed (by_locale params))
    ok (carried_or_minimal maximum minimal expanded)

  -- The value is given where it is not the empty text.
  unfoldable pub build_deferred_referrer :
      String → Option String → List (String × String) → ℕ → Outcome RedirectError DeferredReferrer
  unfolding assert_deep_link_value encode_install_referrer
  build_deferred_referrer click_id value params maximum = do
    minimal ← encode_install_referrer click_id []
    with_value click_id value params maximum minimal
