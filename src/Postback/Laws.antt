-- ===== src/Postback/Laws.antt =====
-- What is taken as authenticated of a postback of SKAdNetwork, in packages/apple-postback/src/index.ts.
use open_mmp.Common.{
  ℕ, zero, suc, Bool, true, false, List, [], ◌∷◌, ◌++◌, filter, Option, none, some, String, lookup,
  string_eq, ◌≡◌, refl, ap, filter-append, arith, ◌↔◌,
}
use open_mmp.Postback.{
  Json, JsonObject, verified, production, skan_valid, verify_skan, skan_unsigned_fields,
  unsigned_of, is_authenticated, ◌>>=◌, signed_names, skan_result, skan_signed_message, signed_of,
  Signed, required_string,
}

lookup-append :
    (name : String) (body extra : JsonObject)
    → lookup name extra ≡ none
    → lookup name (body ++ extra) ≡ lookup name body
lookup-append name [] extra h = h
lookup-append name ((other, value) ∷ body) extra h = rw (lookup-append name body extra h)

lookup-absent :
    (name : String) (names : List String) (extra : JsonObject)
    → unsigned_of (name ∷ names) extra ≡ []
    → (lookup name extra ≡ none) × (unsigned_of names extra ≡ [])
lookup-absent name names extra h = ground (arith, ◌↔◌, h)

abbrev lookups : List String → JsonObject → List (Option Json)
lookups [] body = []
lookups (name ∷ names) body = lookup name body ∷ lookups names body

lookups-append :
    (names : List String) (body extra : JsonObject)
    → unsigned_of names extra ≡ []
    → lookups names (body ++ extra) ≡ lookups names body
lookups-append [] body extra h = refl
lookups-append (name ∷ names) body extra h =
    let (here, rest) = lookup-absent name names extra h in
    rw (lookup-append name body extra here, lookups-append names body extra rest)

abbrev nth : ℕ → List (Option Json) → Option Json
nth n [] = none
nth zero (x ∷ xs) = x
nth (suc n) (x ∷ xs) = nth n xs

abbrev of_lookups : List (Option Json) → Signed
of_lookups xs = record {
  version = nth 0 xs;
  ad_network_id = nth 1 xs;
  campaign_id = nth 2 xs;
  source_identifier = nth 3 xs;
  app_id = nth 4 xs;
  transaction_id = nth 5 xs;
  redownload = nth 6 xs;
  source_app_id = nth 7 xs;
  source_domain = nth 8 xs;
  fidelity_type = nth 9 xs;
  did_win = nth 10 xs;
  postback_sequence_index = nth 11 xs;
}

signed_of-append :
    (body extra : JsonObject)
    → unsigned_of signed_names extra ≡ []
    → signed_of (body ++ extra) ≡ signed_of body
signed_of-append body extra h = ap of_lookups (lookups-append signed_names body extra h)

skan_valid-append :
    (number_of : List ℕ → Option ℕ) (verify : List ℕ → List ℕ → Option Bool)
    (body extra : JsonObject)
    → unsigned_of ("attribution-signature" ∷ signed_names) extra ≡ []
    → skan_valid number_of verify (body ++ extra) ≡ skan_valid number_of verify body
unfolding skan_valid
skan_valid-append number_of verify body extra h =
    let (signature, rest) = lookup-absent "attribution-signature" signed_names extra h in
    rw
      (lookup-append "attribution-signature" body extra signature, signed_of-append body extra rest)

-- A body that is accepted is accepted as well with any members added that are not among those the message is made of, and
-- all of these that are not named as unsigned are taken as authenticated.
pub verify_skan-append :
    (number_of : List ℕ → Option ℕ) (verify : List ℕ → List ℕ → Option Bool)
    (body extra : JsonObject)
    → skan_valid number_of verify body ≡ some true
    → unsigned_of ("attribution-signature" ∷ signed_names) extra ≡ []
    → verify_skan number_of verify (body ++ extra)
      ≡ verified
          (filter is_authenticated body ++ filter is_authenticated extra)
          (unsigned_of skan_unsigned_fields (body ++ extra))
          production
unfolding verify_skan
verify_skan-append number_of verify body extra t h =
    rw (
      skan_valid-append number_of verify body extra h,
      t,
      filter-append is_authenticated body extra,
    )

module _ {A B : Type 0} where
  bind-some :
      (o : Option A) (f : A → Option B) (b : B)
      → (o >>= f) ≡ some b
      → (a : A) × (o ≡ some a) × (f a ≡ some b)
  bind-some none f b h = absurd (cc h)
  bind-some (some a) f b h = (a, refl, h)

  some-bind :
      (o : Option A) (f : A → Option B) (a : A) (b : B)
      → o ≡ some a
      → f a ≡ some b
      → (o >>= f) ≡ some b
  some-bind o f a b e h = rw e h

-- What Apple's key must have signed: a signature and a message can be had of the body, and the one is of the other.
abbrev pub IsSigned : (List ℕ → Option ℕ) → (List ℕ → List ℕ → Option Bool) → JsonObject → Type 0
IsSigned number_of verify body =
    (signature message : List ℕ) × (required_string (lookup "attribution-signature" body)
      ≡ some signature)
    × (skan_signed_message number_of body ≡ some message)
    × (verify message signature ≡ some true)

skan_valid-true_iff :
    (number_of : List ℕ → Option ℕ) (verify : List ℕ → List ℕ → Option Bool) (body : JsonObject)
    → (skan_valid number_of verify body ≡ some true) ↔ IsSigned number_of verify body
unfolding skan_valid
skan_valid-true_iff number_of verify body = (
  λ h.
      let (signature, s, h1) =
        bind-some (required_string (lookup "attribution-signature" body)) _ true h in
      let (message, m, h2) = bind-some (skan_signed_message number_of body) _ true h1 in
      (signature, message, s, m, h2),
  λ (signature, message, s, m, v). rw (s, m) v,
)

skan_result-verified_iff :
    (body unsigned : JsonObject) (valid : Option Bool)
    → (skan_result body unsigned valid
        ≡ verified (filter is_authenticated body) unsigned production)
      ↔ (valid ≡ some true)
skan_result-verified_iff body unsigned none = (λ e. cc e, λ e. cc e)
skan_result-verified_iff body unsigned (some false) = (λ e. cc e, λ e. cc e)
skan_result-verified_iff body unsigned (some true) = (λ e. refl, λ e. refl)

-- A body is accepted, with the members that are not named as unsigned as the authenticated ones, exactly if it has a
-- signature, the message of its version can be made of its members and the key confirms the signature of that message.
pub verify_skan_iff :
    (number_of : List ℕ → Option ℕ) (verify : List ℕ → List ℕ → Option Bool) (body : JsonObject)
    → (verify_skan number_of verify body
        ≡ verified
            (filter is_authenticated body)
            (unsigned_of skan_unsigned_fields body)
            production)
      ↔ IsSigned number_of verify body
unfolding verify_skan
verify_skan_iff number_of verify body =
    let signed = skan_valid-true_iff number_of verify body in
    let accepted =
      skan_result-verified_iff body (unsigned_of skan_unsigned_fields body)
        (skan_valid number_of verify body) in
    (λ e. signed.0 (accepted.0 e), λ s. accepted.1 (signed.1 s))
