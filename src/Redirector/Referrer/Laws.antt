-- ===== src/Redirector/Referrer/Laws.antt =====
-- What the deferred referrer says of the deep link value.
use open_mmp.Common.{
  ◌≡◌, ◌⊎◌, sym, ap, ◌∙◌, inl, inr, ℕ, ◌≤◌, ◌<◌, arith, true, List, Option, none, some, String, [],
  ◌∷◌, Bool-cases, ok, throw, >>=-eq-ok, length, leb,
}
use open_mmp.Redirector.Referrer.{
  Text, is_deep_link_value, assert_deep_link_value, carried, omitted_length, not_configured,
  DeferredReferrer, carried_or_minimal, encode_install_referrer, prefixed, build_deferred_referrer,
}

-- What a referrer and its status are for the value of a link. Without a value the referrer is that of the click
-- alone, and nothing is configured. A value is in form; where the referrer with it and the parameters
-- fits into the maximum, that one is the referrer, and the value is carried; and else the referrer is
-- that of the click alone, and the value is left out for its length.
module _ (by_locale : List (String × String) → List (String × String)) (click_id : String)
    (params : List (String × String)) (maximum : ℕ) where
  abbrev pub Deferred : Option String → DeferredReferrer → Type 0
  unfolding encode_install_referrer
  Deferred none d =
      (d.status ≡ not_configured) × (encode_install_referrer click_id [] ≡ ok d.referrer)
  Deferred (some value) d =
      (is_deep_link_value value ≡ true)
      × ((expanded : Text) × (encode_install_referrer click_id
              (("dl", value) ∷ prefixed (by_locale params))
            ≡ ok expanded)
          × (((d.status ≡ carried) × (length expanded ≤ maximum) × (d.referrer ≡ expanded))
              ⊎ ((d.status ≡ omitted_length)
                  × (maximum < length expanded)
                  × (encode_install_referrer click_id [] ≡ ok d.referrer))))

assert_deep_link_value-ok :
    (value : String) (u : Unit {0})
    → assert_deep_link_value value ≡ ok u
    → is_deep_link_value value ≡ true
unfolding assert_deep_link_value
assert_deep_link_value-ok value u h = elim (Bool-cases (is_deep_link_value value)) [
  | inl t ↦ t
  | inr t ↦ cc (rw t at h)
]

carried_or_minimal-cases :
    (maximum : ℕ) (minimal expanded : Text) (d : DeferredReferrer)
    → carried_or_minimal maximum minimal expanded ≡ d
    → ((d.status ≡ carried) × (length expanded ≤ maximum) × (d.referrer ≡ expanded))
      ⊎ ((d.status ≡ omitted_length) × (maximum < length expanded) × (d.referrer ≡ minimal))
carried_or_minimal-cases maximum minimal expanded d h =
    elim (Bool-cases (leb (length expanded) maximum)) [
      | inl t ↦
          let made = rw t at h in
          inl (sym (ap (λ x. x.status) made), ground (arith, t), sym (ap (λ x. x.referrer) made))
      | inr t ↦
          let made = rw t at h in
          inr (sym (ap (λ x. x.status) made), ground (arith, t), sym (ap (λ x. x.referrer) made))
    ]

pub build_deferred_referrer-Deferred :
    (by_locale : List (String × String) → List (String × String)) (click_id : String)
    (value : Option String) (params : List (String × String)) (maximum : ℕ) (d : DeferredReferrer)
    → build_deferred_referrer by_locale click_id value params maximum ≡ ok d
    → Deferred by_locale click_id params maximum value d
unfolding build_deferred_referrer
build_deferred_referrer-Deferred by_locale click_id none params maximum d h =
    let (minimal, m, k) = >>=-eq-ok (encode_install_referrer click_id []) _ h in
    let made = ap (λ o. elim o [ ok x ↦ x | throw e ↦ d ]) k in
    (sym (ap (λ x. x.status) made), m ∙ ap ok (ap (λ x. x.referrer) made))
build_deferred_referrer-Deferred by_locale click_id (some value) params maximum d h =
    let (minimal, m, k) = >>=-eq-ok (encode_install_referrer click_id []) _ h in
    let (u, a, l) = >>=-eq-ok (assert_deep_link_value value) _ k in
    let (expanded, x, n) =
      >>=-eq-ok (encode_install_referrer click_id (("dl", value) ∷ prefixed (by_locale params))) _
        l in
    let made = ap (λ o. elim o [ ok x ↦ x | throw e ↦ d ]) n in
    (
      assert_deep_link_value-ok value u a,
      (
        expanded,
        x,
        elim (carried_or_minimal-cases maximum minimal expanded d made) [
          | inl c ↦ inl c
          | inr (c, t, q) ↦ inr (c, t, m ∙ ap ok (sym q))
        ],
      ),
    )
