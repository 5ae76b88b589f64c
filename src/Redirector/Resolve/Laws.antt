-- ===== src/Redirector/Resolve/Laws.antt =====
-- What a request for a link is answered with.
use mathlib.Core.Path.{subst}
use open_mmp.Common.{
  ◌≡◌, truthy, some, none, Option, ◌⊎◌, refl, sym, ap, inl, inr, ℕ, ◌≤◌, true, false, List, String,
  Bool-cases, ok, throw, >>=-eq-ok, length, ltb, arith,
}
use open_mmp.Instant.{codes}
use open_mmp.Redirector.Referrer.{Text, url_invalid, build_deferred_referrer}
use open_mmp.Redirector.Referrer.Laws.{Deferred, build_deferred_referrer-Deferred}
use open_mmp.Redirector.Resolve.{
  DestinationKind, play_store, custom_https, with_package, TrackingLink, RedirectClick,
  RedirectResolution, Request, Urls, fallback_response, value_of, maximum_of, click_of, redirected,
  parsed, destination_of, fits, redirect_to, is_active, resolve_redirect,
}

fits-le :
    (maximum : ℕ) (referrer : Text)
    → ltb maximum (length referrer) ≡ false
    → length referrer ≤ maximum
fits-le maximum referrer h = ground arith

fits-ok :
    (maximum : ℕ) (referrer : Text) (u : Unit {0})
    → fits maximum referrer ≡ ok u
    → length referrer ≤ maximum
fits-ok maximum referrer u h = elim (Bool-cases (ltb maximum (length referrer))) [
  | inl t ↦ cc (rw t at h)
  | inr t ↦ fits-le maximum referrer t
]

module _ {U : Type 0} (urls : Urls U) (by_locale : List (String × String) → List (String × String))
    (link : TrackingLink) (request : Request) where
  -- The URL that a link leads to with a referrer: its own, and for a link to the store that URL with the
  -- name of the package and the referrer set.
  abbrev pub Leads : DestinationKind → Text → Text → Type 0
  Leads custom_https referrer location =
      (u : U) × (urls.parse link.destination_url ≡ some u) × (location ≡ urls.print u)
  Leads play_store referrer location =
      (u : U) × (name : String) × (urls.parse link.destination_url ≡ some u)
      × (link.play_package_name ≡ some name)
      × (truthy (some name) ≡ true)
      × (location ≡ urls.print (urls.set (urls.set u "id" (codes name)) "referrer" referrer))

  -- The click of an active link that is redirected.
  pub record IsClickOf (r : RedirectResolution) (c : RedirectClick) : Type 0 where
    pub given : r.click ≡ some c
    pub named : c.click_id ≡ request.click_id
    pub value_named : c.deep_link_value ≡ value_of link request
    pub params_named : c.deep_link_params ≡ request.deep_link_params
    pub deferred :
        Deferred by_locale request.click_id request.deep_link_params
          (maximum_of request)
          (value_of link request)
          (record { referrer = c.referrer; status = c.deferred_deep_link_status })
    pub fitting : length c.referrer ≤ maximum_of request
    pub leads : Leads link.destination_kind c.referrer r.location
    pub sent : c.destination_url ≡ r.location
    pub link_named : c.touch.tracking_link_id ≡ link.tracking_link_id
    pub tenant_named : c.touch.tenant_id ≡ link.tenant_id
    pub app_named : c.touch.app_id ≡ link.app_id
    pub timed : c.touch.redirector_click_at ≡ request.now

  found-parsed :
      (found : Option U) (u : U)
      → elim found [ none ↦ throw url_invalid | some v ↦ ok v ] ≡ ok u
      → found ≡ some u
  found-parsed none u h = cc h
  found-parsed (some v) u h = ap some (ap (λ o. elim o [ ok x ↦ x | throw _ ↦ u ]) h)

  with_package-ok :
      (u to : U) (given : Option String) (referrer : Text)
      → with_package urls by_locale u given referrer ≡ ok to
      → (name : String) × (given ≡ some name)
        × (truthy (some name) ≡ true)
        × (to ≡ urls.set (urls.set u "id" (codes name)) "referrer" referrer)
  with_package-ok u to none referrer h = cc h
  with_package-ok u to (some name) referrer h = elim (Bool-cases (truthy (some name))) [
    | inl t ↦ (name, refl, t, sym (ap (λ o. elim o [ ok x ↦ x | throw _ ↦ to ]) (rw t at h)))
    | inr t ↦ cc (rw t at h)
  ]

  of_kind-Leads :
      (kind : DestinationKind) (u to : U) (referrer : Text)
      → urls.parse link.destination_url ≡ some u
      → elim kind [
        | play_store ↦ with_package urls by_locale u link.play_package_name referrer
        | custom_https ↦ ok u
      ]
        ≡ ok to
      → Leads kind referrer (urls.print to)
  of_kind-Leads custom_https u to referrer p h =
      (u, p, ap urls.print (sym (ap (λ o. elim o [ ok x ↦ x | throw _ ↦ to ]) h)))
  of_kind-Leads play_store u to referrer p h =
      let (name, n, t, q) = with_package-ok u to link.play_package_name referrer h in
      (u, name, p, n, t, ap urls.print q)

module _ {U : Type 0} (urls : Urls U) (by_locale : List (String × String) → List (String × String))
    (link : TrackingLink) (request : Request) (r : RedirectResolution) where
  redirect_to-click :
      redirect_to urls by_locale link request ≡ ok r
      → (c : RedirectClick) × IsClickOf urls by_locale link request r c
  redirect_to-click h =
      let (deferred, b, h1) =
        >>=-eq-ok
          (build_deferred_referrer by_locale request.click_id (value_of link request)
            request.deep_link_params (maximum_of request))
          _ h in
      let (u, f, h2) = >>=-eq-ok (fits (maximum_of request) deferred.referrer) _ h1 in
      let (url, p, h3) = >>=-eq-ok (parsed urls by_locale link.destination_url) _ h2 in
      let (to, d, h4) = >>=-eq-ok (destination_of urls by_locale link url deferred.referrer) _ h3 in
      let c = click_of link request deferred (urls.print to) in
      let made : redirected link request deferred (urls.print to) ≡ r =
        ap (λ o. elim o [ ok x ↦ x | throw e ↦ r ]) h4 in
      (
        c,
        record {
          given = sym (ap (λ x. x.click) made);
          named = refl;
          value_named = refl;
          params_named = refl;
          deferred =
              build_deferred_referrer-Deferred by_locale request.click_id (value_of link request)
                request.deep_link_params (maximum_of request) deferred b;
          fitting = fits-ok (maximum_of request) deferred.referrer u f;
          leads =
              subst (Leads urls by_locale link request link.destination_kind deferred.referrer)
                (ap (λ x. x.location) made)
                (of_kind-Leads urls by_locale link request link.destination_kind url to
                  deferred.referrer
                  (found-parsed urls by_locale link request (urls.parse link.destination_url) url p)
                  d);
          sent = ap (λ x. x.location) made;
          link_named = refl;
          tenant_named = refl;
          app_named = refl;
          timed = refl;
        },
      )

  -- A link that is not active is answered with the fallback, and no click; an active one, where nothing is
  -- thrown, with its own URL, which for a link to the store has the package and the referrer set, and
  -- with a click that names the link, its scope, the request and that URL. The referrer fits into the
  -- maximum. Without a deep link value it is that of the click alone, and nothing is configured; a
  -- value is in form, and is carried exactly where the referrer with it and the parameters fits, which
  -- then is the referrer; else it is left out for its length, and the referrer is that of the click
  -- alone.
  pub resolve_redirect-click :
      resolve_redirect urls by_locale (some link) request ≡ ok r
      → ((is_active link.status ≡ false) × (r ≡ fallback_response request.fallback_destination))
        ⊎ ((is_active link.status ≡ true)
            × ((c : RedirectClick) × IsClickOf urls by_locale link request r c))
  unfolding resolve_redirect
  resolve_redirect-click h = elim (Bool-cases (is_active link.status)) [
    | inl t ↦ inr (t, redirect_to-click (rw t at h))
    | inr t ↦ inl (t, sym (ap (λ o. elim o [ ok x ↦ x | throw e ↦ r ]) (rw t at h)))
  ]
