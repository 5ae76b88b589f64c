-- ===== src/Redirector/Parameters.antt =====
-- `bindDeepLinkParameters` of packages/redirector-core/src/index.ts. The query is the list of pairs
-- that `URLSearchParams` iterates over; the object of values is a dictionary, so a declared name is
-- taken to be no property that objects inherit.
pub mod Laws
use Prim.Native.Char.{code}
use Prim.Native.String
use open_mmp.Common.{
  ℕ, ◌+◌, Bool, true, false, ◌&&◌, ◌||◌, List, [], ◌∷◌, Option, none, some, String, str_eq, leb,
  ◌==◌, any, all, length, insert, string_eq, if◌then◌else◌,
}
use open_mmp.Instant.{codes}

-- The rest of a text after a prefix, `slice` after `startsWith`.
unfoldable pub strip_prefix : String → String → Option String
strip_prefix String.[] s = some s
strip_prefix (String.◌∷◌ c p) String.[] = none
strip_prefix (String.◌∷◌ c p) (String.◌∷◌ d s) =
    let rest = strip_prefix p s in if code c == code d then rest else none

abbrev pub within : ℕ → ℕ → ℕ → Bool
within low high c = leb low c && leb c high

-- [A-Za-z0-9._~-]
abbrev pub is_unreserved : ℕ → Bool
is_unreserved c =
    within b'A' b'Z' c
    || within b'a' b'z' c
    || within b'0' b'9' c
    || c == b'.'
    || c == b'_'
    || c == b'~'
    || c == b'-'

-- /^[A-Za-z0-9._~-]{1,64}$/
abbrev pub is_token : String → Bool
is_token value = all is_unreserved (codes value) && within 1 64 (length (codes value))

abbrev pub admitted_value : List String → String → Option String → Option (String × String)
admitted_value declared value none = none
admitted_value declared value (some name) =
    if any (λ d. str_eq d name) declared && is_token value then some (name, value) else none

-- The declared name that a pair of the query gives a value, if it does.
unfoldable pub admitted : List String → String × String → Option (String × String)
admitted declared (name, value) = admitted_value declared value (strip_prefix "dlp_" name)

pub record Bound : Type 0 where
  pub values : List (String × String)
  pub dropped : ℕ

abbrev pub bind_one : Bound → Option (String × String) → Bound
bind_one b none = record b { dropped = b.dropped + 1 }
bind_one b (some (name, value)) = record b { values = insert name value b.values }

-- The loop.
unfoldable pub bind_from : List String → Bound → List (String × String) → Bound
bind_from declared b [] = b
bind_from declared b (p ∷ source) = bind_from declared (bind_one b (admitted declared p)) source

unfoldable pub bind_deep_link_parameters : List (String × String) → List String → Bound
bind_deep_link_parameters source declared =
    bind_from declared (record { values = []; dropped = 0 }) source
