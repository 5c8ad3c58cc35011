-- ===== src/Authentication/CookieFilter/FirstLogin.antt =====
-- authentication/cookiemask.go, minsession.go and login_handler.go together: the login of a new visitor.
use pullcord.Base.{
  ℕ, true, false, ◌≡◌, refl, sym, ap, ◌∙◌, inr, Option, none, some, List, [], ◌∷◌, String, Map,
  Error, lookup, length, All, arith,
}
use pullcord.Authentication.Names.{is_literal, matches_cookie_name, hex}
use pullcord.Authentication.Session.{
  string, Cookie, Handler, Library, Rand, bytes, Masked, masked, get_session, get_value, set_value,
  cookie_mask, adopt,
}
use pullcord.Authentication.Session.Pattern.{MatchesLiterals}
use pullcord.Authentication.Session.Generation.{FillsSlices}
use pullcord.Authentication.Session.Allocation.{
  IsAllocated, get_session-IsAllocated, set_value-IsAllocated, cookie_mask-IsAllocated,
}
use pullcord.Authentication.Session.Revisit.{
  Opens, first_visit, first_visit_values, get_value-get_session, get_value-set_value_other,
  get_value-set_value_self, set_value-Opens, adopted_values,
}
use pullcord.Authentication.Login
use pullcord.Authentication.Login.{
  got, missing, session, Form, posted, Request, downstream, login_page, auth_key, xsrf_key,
}
use pullcord.Authentication.Login.Keys.{min_session, min_session-SessionLaws, xsrf_key-ne-auth_key}
use pullcord.Authentication.Login.Access.{Credentials, filter_request-downstream_iff}
use pullcord.Authentication.Login.FirstPage.{first_page}
use pullcord.Authentication.CookieFilter.{
  Reply, response, filter_request, min_handler, add_cookies, masked_login,
}
use pullcord.Authentication.CookieFilter.Lasting.{after_mask, filter_one, login_of}

module _ (lib : Library) (fuel : ℕ) (checker : String → String → Option Error) (i : String) where
  -- A form that logs in with a token.
  pub record LogsIn (token : String) (fields : Map (List String)) : Type 0 where
    pub sent : lookup (xsrf_key i) fields ≡ some (token ∷ [])
    pub credentials : Credentials checker i fields

  -- A session that no request has used since its login page was sent, and the cookie that opens it.
  record IsAwaiting (a : ℕ) (token : String) (c : Cookie) (h : Handler) : Type 0 where
    allocated : IsAllocated h
    opens : Opens lib h a c
    no_flag : get_value a (auth_key i) h ≡ none
    has_token : get_value a (xsrf_key i) h ≡ some (string token)

  awaiting-LogsIn :
      (a : ℕ) (token : String) (c : Cookie) (h : Handler) (k : ℕ) (rand : Rand)
      (fields : Map (List String)) (path : String)
      → IsAwaiting a token c h
      → LogsIn token fields
      → (filter_request
          (min_handler lib fuel)
          (masked_login checker i rand (posted fields) path)
          (c ∷ [])
          (h, k)).0
        ≡ response downstream []
  unfolding login_of add_cookies
  awaiting-LogsIn a token c h k rand fields path w l =
      let b = (get_session h).0 in
      let h₂ = adopt b a (get_session h).1 in
      let req : Request = record { context = session; form = posted fields; path = path } in
      let lt = w.allocated.listed c.name a w.opens.listed in
      let new : get_value b (auth_key i) h₂ ≡ none =
        adopted_values h a (auth_key i) w.allocated lt ∙ w.no_flag in
      let told : get_value b (xsrf_key i) h₂ ≡ some (string token) =
        adopted_values h a (xsrf_key i) w.allocated lt ∙ w.has_token in
      let through = (filter_request-downstream_iff (min_session b) checker i h₂ rand req).1 (
        refl,
        inr (
          rw (min_session, new) refl,
          record {
            fields = fields;
            parsed = refl;
            token = token;
            stored = rw (min_session, told) refl;
            sent = l.sent;
            credentials = l.credentials;
            recorded = refl;
          },
        ),
      ) in
      rw
        (
          filter_one lib fuel checker i a c h k rand (posted fields) path w.allocated w.opens,
          through,
        )
        refl

  module _ (h : Handler) (k : ℕ) (raw : List ℕ) (incoming : List Cookie) (form : Form)
      (path : String) where
    abbrev masking : Masked × Handler × ℕ
    masking = cookie_mask lib fuel (get_session h).0 incoming (get_session h).1 k

    abbrev told_handler : Handler
    told_handler = set_value (get_session h).0 (xsrf_key i) (string (hex raw)) masking.1

    -- The session after its first page.
    told-IsAwaiting :
        (f set : List Cookie)
        → MatchesLiterals lib
        → is_literal h.name ≡ true
        → FillsSlices lib.read
        → IsAllocated h
        → All (λ c. matches_cookie_name h.name c.name ≡ false) incoming
        → masking.0 ≡ masked f set
        → (c : Cookie) × (set ≡ c ∷ []) × IsAwaiting (get_session h).0 (hex raw) c told_handler
    told-IsAwaiting f set law plain fills v foreign q =
        let (a, h₁) = get_session h in
        let e : cookie_mask lib fuel a incoming h₁ k ≡ (masked f set, masking.1, masking.2) =
          ap (λ (m : Masked). (m, masking.1, masking.2)) q in
        let foreign' : All (λ c. matches_cookie_name h₁.name c.name ≡ false) incoming =
          unfold get_session in foreign in
        let plain' : is_literal h₁.name ≡ true = unfold get_session in plain in
        let (c, one, opens) =
          first_visit lib fuel a incoming h₁ k f set masking.1 masking.2 law plain' fills foreign'
            e in
        (
          c,
          one,
          record {
            allocated = set_value-IsAllocated a (xsrf_key i) (string (hex raw)) masking.1 (
                cookie_mask-IsAllocated lib fuel a incoming h₁ k f set masking.1 masking.2
                  (unfold get_session in omega arith) (get_session-IsAllocated h v) e);
            opens = set_value-Opens lib masking.1 a (xsrf_key i) (string (hex raw)) c opens;
            no_flag =
                get_value-set_value_other masking.1 a (xsrf_key i) (auth_key i) (string (hex raw))
                  (xsrf_key-ne-auth_key i i)
                ∙ first_visit_values lib fuel a incoming h₁ k f set masking.1 masking.2 (auth_key i)
                    law plain' foreign' e
                ∙ get_value-get_session h (auth_key i);
            has_token = get_value-set_value_self masking.1 a (xsrf_key i) (string (hex raw));
          },
        )

    -- What the first request gets, once `CookieMask` has returned.
    told_page :
        (f set : List Cookie)
        → MatchesLiterals lib
        → is_literal h.name ≡ true
        → All (λ c. matches_cookie_name h.name c.name ≡ false) incoming
        → length raw ≡ 64
        → masking.0 ≡ masked f set
        → after_mask lib fuel checker i (get_session h).0 (bytes raw) form path masking
          ≡ (response (login_page "" path (hex raw)) set, (told_handler, masking.2))
    unfolding add_cookies
    told_page f set law plain foreign full q =
        let (a, h₁) = get_session h in
        let e : cookie_mask lib fuel a incoming h₁ k ≡ (masked f set, masking.1, masking.2) =
          ap (λ (m : Masked). (m, masking.1, masking.2)) q in
        let foreign' : All (λ c. matches_cookie_name h₁.name c.name ≡ false) incoming =
          unfold get_session in foreign in
        let plain' : is_literal h₁.name ≡ true = unfold get_session in plain in
        let empty = λ (key : String).
          first_visit_values lib fuel a incoming h₁ k f set masking.1 masking.2 key law plain'
            foreign' e
          ∙ get_value-get_session h key in
        let page =
          first_page (min_session a) (min_session-SessionLaws a) checker i masking.1 raw form path
            full (rw (min_session, empty (auth_key i)) refl)
            (rw (min_session, empty (xsrf_key i)) refl) in
        rw (q, page) refl

    abbrev served : Reply Login.Reply × (Handler × ℕ)
    served =
        filter_request (min_handler lib fuel) (masked_login checker i (bytes raw) form path)
          incoming (h, k)

    served_masked :
        served ≡ after_mask lib fuel checker i (get_session h).0 (bytes raw) form path masking
    unfolding filter_request min_handler
    served_masked = refl

    -- A new visitor of a handler with a literal name can log in, over a source that fills slices
    -- and a `regexp` that matches literal names as documented: to a request that brings no cookie
    -- of the handler's and gets a response, that response is the login page with a new token; and
    -- the next request, with the cookies that it sets, with that token and with a user name and a
    -- password that the checker accepts, is let through to the downstream filter.
    pub first_login :
        (r : Login.Reply) (set : List Cookie) (s : Handler × ℕ) (fields : Map (List String))
        (rand : Rand) (path' : String)
        → MatchesLiterals lib
        → is_literal h.name ≡ true
        → FillsSlices lib.read
        → IsAllocated h
        → All (λ c. matches_cookie_name h.name c.name ≡ false) incoming
        → length raw ≡ 64
        → LogsIn (hex raw) fields
        → served ≡ (response r set, s)
        → (r ≡ login_page "" path (hex raw))
          × ((filter_request
                (min_handler lib fuel)
                (masked_login checker i rand (posted fields) path')
                set
                s).0
              ≡ response downstream [])
    first_login r set s fields rand path' law plain fills v foreign full l e =
        by_mask masking.0 refl
      where
        at_mask :
            after_mask lib fuel checker i (get_session h).0 (bytes raw) form path masking
            ≡ (response r set, s)
        at_mask = sym served_masked ∙ e

        by_mask :
            (o : Masked)
            → masking.0 ≡ o
            → (r ≡ login_page "" path (hex raw))
              × ((filter_request
                    (min_handler lib fuel)
                    (masked_login checker i rand (posted fields) path')
                    set
                    s).0
                  ≡ response downstream [])
        by_mask Masked.panicked q = absurd (cc (rw q at at_mask))
        by_mask Masked.out_of_fuel q = absurd (cc (rw q at at_mask))
        by_mask (masked f set₀) q =
            let same = sym at_mask ∙ told_page f set₀ law plain foreign full q in
            let (c, one, w) = told-IsAwaiting f set₀ law plain fills v foreign q in
            let reply : response r set ≡ response (login_page "" path (hex raw)) set₀ =
              ap (λ (x : Reply Login.Reply × (Handler × ℕ)). x.0) same in
            let state : s ≡ (told_handler, masking.2) =
              ap (λ (x : Reply Login.Reply × (Handler × ℕ)). x.1) same in
            let cookies : set ≡ c ∷ [] = cc (reply, one) in
            (
              cc reply,
              rw (cookies, state)
                  (awaiting-LogsIn (get_session h).0 (hex raw) c told_handler masking.2 rand fields
                    path' w l),
            )
