-- ===== src/Fraud/Value.antt =====
-- The values of JavaScript that a fraud bundle is made of before it is checked, and its numbers, which are
-- finite, as it comes from JSON. A finite
-- number is a ratio of whole numbers; the products of numbers are exact, where the platform rounds
-- to 53 bits.
use Prim.Native.String
use open_mmp.Common.{
  ℕ, suc, ◌+◌, ◌*◌, Bool, true, false, not, ◌||◌, List, [], ◌∷◌, String, str_eq, ltb, ◌==◌,
}

pub data Number : Type 0 where
  ratio : (over under : ℕ) → Number  -- over / (under + 1)
  minus : (over under : ℕ) → Number  -- - (over + 1) / (under + 1)

abbrev pub whole : ℕ → Number
whole n = ratio n 0

-- `a - b < n * scale`, and whether `a` and `b` are further apart than `n * scale`.
abbrev pub is_within : ℕ → Number → ℕ → ℕ → Bool
is_within scale (ratio over under) a b = ltb (a * suc under) (b * suc under + over * scale)
is_within scale (minus over under) a b = ltb (a * suc under + suc over * scale) (b * suc under)

abbrev pub is_apart : ℕ → Number → ℕ → ℕ → Bool
is_apart scale (ratio over under) a b =
    ltb (b * suc under + over * scale) (a * suc under)
    || ltb (a * suc under + over * scale) (b * suc under)
is_apart scale (minus over under) a b = true

mutual
  pub data Value : Type 0 where
    undefined : Value
    null : Value
    boolean : Bool → Value
    number : Number → (printed : String) → Value  -- finite, with what `String` makes of it
    text : String → Value
    array : Values → Value
    object : Members → Value

  pub data Values : Type 0 where
    no_values : Values
    value : Value → Values → Values

  pub data Members : Type 0 where
    no_members : Members
    member : String → Value → Members → Members

-- `Object.entries`.
abbrev pub entries : Members → List (String × Value)
entries no_members = []
entries (member name v rest) = (name, v) ∷ entries rest

abbrev pub is_zero : Number → Bool
is_zero (ratio over under) = over == 0
is_zero (minus over under) = false

abbrev pub is_truthy : Value → Bool
is_truthy undefined = false
is_truthy null = false
is_truthy (boolean b) = b
is_truthy (number n printed) = not (is_zero n)
is_truthy (text t) = not (str_eq t "")
is_truthy (array vs) = true
is_truthy (object ms) = true

abbrev pub truth_text : Bool → String
truth_text true = "true"
truth_text false = "false"

-- `String(value ?? "")`, and what an array joins.
unfoldable mutual
  pub printed : Value → String
  printed undefined = ""
  printed null = ""
  printed (boolean b) = truth_text b
  printed (number n t) = t
  printed (text t) = t
  printed (array vs) = joined_values vs
  printed (object ms) = "[object Object]"

  pub joined_values : Values → String
  joined_values no_values = ""
  joined_values (value v no_values) = printed v
  joined_values (value v (value w rest)) =
      String.◌++◌ (printed v) (String.◌++◌ "," (joined_values (value w rest)))
