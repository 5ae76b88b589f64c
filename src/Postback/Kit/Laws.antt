-- ===== src/Postback/Kit/Laws.antt =====
-- Which postbacks of AdAttributionKit are accepted, in packages/apple-postback/src/index.ts.
use open_mmp.Common.{
  ℕ, Bool, true, false, List, Option, none, some, String, str_eq, lookup, string_eq, ◌≡◌, refl, ◌↔◌,
  arith, Bool-cases, inl, inr, ap, sym,
}
use open_mmp.Postback.{JsonObject, Environment, production, development, verified, unsigned_of}
use open_mmp.Postback.Kit.{
  Token, kit_token, key_environment, is_accepted, kit_result, verify_with, verify_in, verify_kit,
  aak_unsigned_fields,
}

module _ (keys : List (String × String)) (verify : String → List ℕ → List ℕ → Option Bool)
    (accepts : Bool) (unsigned : JsonObject) where
  -- A key of the set that is not empty confirms the signature of a token.
  abbrev pub IsConfirmed : Token → Type 0
  IsConfirmed t =
      (key : String) × (lookup t.kid keys ≡ some key)
      × (str_eq key "" ≡ false)
      × (verify key t.signed t.signature ≡ some true)

  kit_result-verified_iff :
      (t : Token) (found environment : Environment) (valid : Option Bool)
      → (kit_result unsigned found t.claims valid ≡ verified t.claims unsigned environment)
        ↔ ((found ≡ environment) × (valid ≡ some true))
  kit_result-verified_iff t found environment none = (λ e. cc e, λ (_, e). cc e)
  kit_result-verified_iff t found environment (some false) = (λ e. cc e, λ (_, e). cc e)
  kit_result-verified_iff t found environment (some true) =
      (λ e. (cc e, refl), λ (e, _). ap (verified t.claims unsigned) e)

  verify_with-verified_iff :
      (t : Token) (found environment : Environment) (given : Option String)
      → (verify_with keys verify accepts unsigned t found given
          ≡ verified t.claims unsigned environment)
        ↔ ((found ≡ environment)
            × ((key : String) × (given ≡ some key)
                × (str_eq key "" ≡ false)
                × (verify key t.signed t.signature ≡ some true)))
  verify_with-verified_iff t found environment none = (λ e. cc e, λ (_, (key, n, _, _)). cc n)
  verify_with-verified_iff t found environment (some key) = elim (Bool-cases (str_eq key "")) [
    | inl h ↦ (
      λ e. cc (rw h at e),
      λ (_, (other, o, f, _)).
          let k : key ≡ other = cc o in absurd (ground (arith, h, rw (sym k) at f)),
    )
    | inr f ↦
        let result =
          kit_result-verified_iff t found environment (verify key t.signed t.signature) in
        (
          λ e. let (q, v) = result.0 (rw f at e) in (q, (key, refl, f, v)),
          λ (q, (other, o, _, v)).
              let k : key ≡ other = cc o in rw f (result.1 (q, rw (sym k) at v)),
        )
  ]

  verify_in-verified_iff :
      (t : Token) (environment : Environment) (found : Option Environment)
      → (verify_in keys verify accepts unsigned t found ≡ verified t.claims unsigned environment)
        ↔ ((found ≡ some environment) × (is_accepted accepts environment ≡ true) × IsConfirmed t)
  verify_in-verified_iff t environment none = (λ e. cc e, λ (n, _, _). cc n)
  verify_in-verified_iff t environment (some found) =
      elim (Bool-cases (is_accepted accepts found)) [
        | inl a ↦
            let result = verify_with-verified_iff t found environment (lookup t.kid keys) in
            (
              λ e. let (q, v) = result.0 (rw a at e) in (ap some q, rw q at a, v),
              λ (q, _, v). rw a (result.1 (cc q, v)),
            )
        | inr r ↦ (
          λ e. cc (rw r at e),
          λ (q, a, _).
              let f : found ≡ environment = cc q in absurd (ground (arith, r, rw (sym f) at a)),
        )
      ]

is_accepted_iff :
    (accepts : Bool) (environment : Environment)
    → (is_accepted accepts environment ≡ true) ↔ (environment ≡ development → accepts ≡ true)
is_accepted_iff accepts production = (λ _ e. cc e, λ _. refl)
is_accepted_iff accepts development = (λ a _. a, λ h. h refl)

-- A postback of AdAttributionKit whose text reads as a token is accepted under an environment, with the claims of the token as
-- the authenticated ones, exactly if the name of its key is one of that environment, the environment is production or
-- development is accepted, and the key that the set has under that name is not empty and confirms the signature.
pub verify_kit-verified_iff :
    (keys : List (String × String)) (verify : String → List ℕ → List ℕ → Option Bool)
    (accepts : Bool) (decode : List ℕ → Option JsonObject) (body : JsonObject) (t : Token)
    (environment : Environment)
    → kit_token decode body ≡ some t
    → (verify_kit keys verify accepts decode body
        ≡ verified t.claims (unsigned_of aak_unsigned_fields body) environment)
      ↔ ((key_environment t.kid ≡ some environment)
          × (environment ≡ development → accepts ≡ true)
          × ((key : String) × (lookup t.kid keys ≡ some key)
              × (str_eq key "" ≡ false)
              × (verify key t.signed t.signature ≡ some true)))
unfolding verify_kit
verify_kit-verified_iff keys verify accepts decode body t environment h =
    let result =
      verify_in-verified_iff keys verify accepts (unsigned_of aak_unsigned_fields body) t
        environment (key_environment t.kid) in
    let accepted = is_accepted_iff accepts environment in
    (
      λ e. let (q, a, c) = result.0 (rw h at e) in (q, accepted.0 a, c),
      λ (q, a, c). rw h (result.1 (q, accepted.1 a, c)),
    )
