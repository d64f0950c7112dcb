-- ===== src/Routing/Cleared.antt =====
-- A handler for a signed-in user is chosen behind all gates (app/worker/index.ts).
use ctf_website.RateLimit.{RateLimitResult}
use ctf_website.Base.{
  ℕ, ◌≡◌, ◌⊎◌, inl, inr, refl, ap, String, Bool, true, false, not, ◌&&◌, Option, none, some, List,
  [], ◌∷◌, All, OnSome, if_cases, if◌then◌else◌, str_eq,
}
use ctf_website.Base.Texts.{present}
use ctf_website.Schema.{Db}
use ctf_website.Http.{Exec, Result, ok, pure, throw, ◌>>=◌, ◌>>◌, HttpError}
use ctf_website.Http.Returns.{OnOk, OnOk-ok, bind_returns, bind_at, throw_if_passes}
use ctf_website.Auth.{AuthContext}
use ctf_website.Routing.{Door, Request, is_read, trusts, assert_trusted_origin, with_origin, clear}
use ctf_website.Routing.Table.{
  OpenHandler, Handler, Dispatch, method_not_allowed, public, signed, first_of, otherwise,
  only_method, CallAction, call_detail, call_transcript, call_takeover, call_end, account_rows,
  client_rows, step_up_route, row_route, route_call, with_action, match_call_route, signed_in_route,
  webhook_route, challenge_route, behind_session, sign_in_route, handle_api, health, vapi_webhook,
  challenge_verify, challenge_resend,
}
use ctf_website.Routing.Gates.{IsCleared, clear_returns}

-- The request was sent from a page of the deployment: its origin is the request's own, or listed.
pub record IsFromHere (door : Door) (request : Request) : Type 0 where
  pub origin : String
  pub sent : present request.origin ≡ some origin
  pub trusted : trusts door request origin ≡ true

-- What holds of the user whom a handler is given.
abbrev OnSigned : (AuthContext → Type 0) → Dispatch → Type 0
OnSigned R (method_not_allowed allow) = Unit
OnSigned R (public handler) = Unit
OnSigned R (signed auth handler) = R auth

holds_by_negation : (b : Bool) → not b ≡ false → b ≡ true
holds_by_negation true h = refl
holds_by_negation false h = cc

module _ (R : AuthContext → Type 0) where
  abbrev D : Dispatch → Type 0
  D = OnSigned R

  only_method-D :
      (allow method : String) (dispatch : Dispatch)
      → D dispatch
      → D (only_method allow method dispatch)
  only_method-D allow method dispatch h = if_cases D (str_eq method allow) (λ _. h) (λ _. tt)

  first_of-D :
      (rows : List (Bool × Dispatch)) → All (λ row. D row.1) rows → OnSome D (first_of rows)
  unfolding first_of
  first_of-D [] hs = tt
  first_of-D ((test, dispatch) ∷ rows) hs =
      if_cases (OnSome D) test (λ _. hs.0) (λ _. first_of-D rows hs.1)

  abbrev Ends : Db → Exec Dispatch → Type 0
  Ends db m = OnOk D (m db).0

  pure_returns : (dispatch : Dispatch) (db : Db) → D dispatch → OnOk D (pure dispatch db).0
  unfolding pure
  pure_returns dispatch db h = h

  throw_returns : (e : HttpError) (db : Db) → OnOk D (throw {A = Dispatch} e db).0
  unfolding throw
  throw_returns e db = tt

  otherwise_returns :
      (first : Option Dispatch) (rest : Exec Dispatch) (db : Db)
      → OnSome D first
      → OnOk D (rest db).0
      → OnOk D (otherwise first rest db).0
  unfolding otherwise
  otherwise_returns none rest db h k = k
  otherwise_returns (some dispatch) rest db h k = pure_returns dispatch db h

  module _ (door : Door) (now : ℕ) (request : Request) where
    module _ (auth : AuthContext) (r : R auth) where
      posts-D : (handler : Handler) → D (only_method "POST" request.method (signed auth handler))
      posts-D handler = only_method-D "POST" request.method (signed auth handler) r

      account_rows-D : All (λ row. D row.1) (account_rows door now request auth)
      account_rows-D = (
        r,
        (
          posts-D _,
          (
            r,
            (
              posts-D _,
              (
                posts-D _,
                (posts-D _, (posts-D _, (posts-D _, (r, (r, (r, (r, (posts-D _, tt)))))))),
              ),
            ),
          ),
        ),
      )

      client_rows-D : All (λ row. D row.1) (client_rows door now request auth)
      client_rows-D = (posts-D _, (posts-D _, (r, (r, (r, (r, (r, (tt, tt))))))))

      step_up_route-D : (db : Db) → OnOk D (step_up_route door now request auth db).0
      unfolding step_up_route
      step_up_route-D db =
          if_cases (Ends db) (str_eq request.method "POST")
            (λ _. bind_returns D _ _ db (λ _ db'. pure_returns _ db' r)) (λ _. pure_returns _ db tt)

      row_route-D :
          (allow : String) (handler : String → Handler) (segment : Option String)
          (rest : Exec Dispatch) (db : Db)
          → OnOk D (rest db).0
          → OnOk D (row_route door now request auth allow handler segment rest db).0
      unfolding row_route
      row_route-D allow handler none rest db h = h
      row_route-D allow handler (some segment) rest db h =
          if_cases (Ends db) (str_eq request.method allow)
            (λ _. bind_returns D _ _ db (λ id db'. pure_returns _ db' r))
            (λ _. pure_returns _ db tt)

      route_call-D :
          (call_id : String) (action : CallAction)
          → D (route_call door now request auth call_id action)
      route_call-D call_id call_detail = only_method-D "GET" request.method _ r
      route_call-D call_id call_transcript = only_method-D "GET" request.method _ r
      route_call-D call_id call_takeover = posts-D _
      route_call-D call_id call_end = posts-D _

      with_action-D :
          (call_id : String) (action : Option CallAction) (db : Db)
          → OnOk D (with_action door now request auth call_id action db).0
      with_action-D call_id none db = throw_returns _ db
      with_action-D call_id (some action) db = pure_returns _ db (route_call-D call_id action)

      match_call_route-D :
          (segments : List String) (db : Db)
          → OnOk D (match_call_route door now request auth segments db).0
      unfolding match_call_route
      match_call_route-D [] db = throw_returns _ db
      match_call_route-D (api ∷ []) db = throw_returns _ db
      match_call_route-D (api ∷ calls ∷ []) db = throw_returns _ db
      match_call_route-D (api ∷ calls ∷ segment ∷ rest) db =
          if_cases (Ends db) (str_eq api "api" && str_eq calls "calls")
            (λ _. bind_returns D _ _ db (λ call_id db'. with_action-D call_id _ db'))
            (λ _. throw_returns _ db)

      signed_in_route-D : (db : Db) → OnOk D (signed_in_route door now request auth db).0
      unfolding signed_in_route
      signed_in_route-D db = otherwise_returns _ _ db (first_of-D _ account_rows-D) (
          if_cases (Ends db) (str_eq request.path "/api/platform/step-up") (λ _. step_up_route-D db)
            (λ _. row_route-D _ _ _ _ db (
              row_route-D _ _ _ _ db (
                otherwise_returns _ _ db (first_of-D _ client_rows-D)
                  (row_route-D _ _ _ _ db (match_call_route-D _ db))))))

    pure_then : (k : Exec Dispatch) (db : Db) → Ends db k → Ends db (pure tt >> k)
    unfolding pure ◌>>◌
    pure_then k db h = h

    assert_passes :
        (k : Exec Dispatch) (db : Db)
        → ((is_read request ≡ true) ⊎ IsFromHere door request → Ends db k)
        → Ends db (assert_trusted_origin door request >> k)
    unfolding assert_trusted_origin
    assert_passes k db h =
        if_cases (λ (m : Exec (Unit {0})). Ends db (m >> k)) (is_read request)
          (λ read. pure_then k db (h (inl read))) (λ _. from (present request.origin) refl)
      where
        from :
            (origin : Option String)
            → present request.origin ≡ origin
            → Ends db (with_origin door request origin >> k)
        from none e = throw_if_passes D true _ k db (λ never. cc)
        from (some origin) e = throw_if_passes D _ _ k db (λ trusted.
            h (inr (record { origin = origin; sent = e; trusted = holds_by_negation _ trusted })))

module _ (door : Door) (now : ℕ) (request : Request) (before : Db) where
  -- Where the request may come from, and what is asked of its user.
  abbrev R : AuthContext → Type 0
  R auth =
      ((is_read request ≡ true) ⊎ IsFromHere door request) × IsCleared door now request before auth

  abbrev End : Exec Dispatch → Type 0
  End m = OnOk (OnSigned R) (m before).0

  limited_public :
      (handler : OpenHandler) (allow : Bool) (m : Exec RateLimitResult) (refused : Dispatch)
      → OnSigned R refused
      → End (if allow then (m >>= λ _. pure (public handler)) else pure refused)
  limited_public handler allow m refused h =
      if_cases End allow
        (λ _. bind_returns (OnSigned R) m _ before (λ _ db. pure_returns R (public handler) db tt))
        (λ _. pure_returns R refused before h)

  webhook_route-R : End (webhook_route door now request)
  unfolding webhook_route
  webhook_route-R = limited_public vapi_webhook _ _ _ tt

  challenge_route-R : (handler : OpenHandler) → End (challenge_route door now request handler)
  unfolding challenge_route
  challenge_route-R handler = limited_public handler _ _ _ tt

  module _ (from_here : (is_read request ≡ true) ⊎ IsFromHere door request) where
    behind_session-R : End (behind_session door now request)
    unfolding behind_session
    behind_session-R = bind_at (OnSigned R) (clear door now request) _ before (λ auth db cleared.
        signed_in_route-D R door now request auth
          (
            from_here,
            OnOk-ok (IsCleared door now request before) (clear door now request before).0 auth
                (clear_returns door now request before)
                (ap (λ (r : Result AuthContext × Db). r.0) cleared),
          )
          db)

    sign_in_route-R : End (sign_in_route door now request)
    unfolding sign_in_route
    sign_in_route-R =
        otherwise_returns R _ _ before
          (first_of-D R _ (
            only_method-D R "POST" request.method _ tt,
            (only_method-D R "POST" request.method _ tt, tt),
          ))
          (if_cases End (str_eq request.path "/api/auth/2fa/verify")
            (λ _. challenge_route-R challenge_verify)
            (λ _.
              if_cases End (str_eq request.path "/api/auth/2fa/resend")
                (λ _. challenge_route-R challenge_resend) (λ _. behind_session-R)))

  handle_api-R : End (handle_api door now request)
  unfolding handle_api
  handle_api-R =
      if_cases End (str_eq request.path "/api/health")
        (λ _. pure_returns R (public health) before tt)
        (λ _.
          if_cases End (str_eq request.path "/api/vapi/webhook") (λ _. webhook_route-R)
            (λ _.
              otherwise_returns R _ _ before
                (first_of-D R _ (
                  tt,
                  (
                    tt,
                    (
                      only_method-D R "GET" request.method _ tt,
                      (only_method-D R "GET" request.method _ tt, tt),
                    ),
                  ),
                ))
                (assert_passes R door now request _ before sign_in_route-R)))

-- A request that gets as far as a handler for signed-in users reads, or was sent from an origin of the
-- deployment. Its user was admitted with a live session and has passed the gates, each but for the
-- paths that are open without it: no password that is due for a change, an active organization
-- (administrators of the platform aside), consent to the current documents; an administrator has
-- an authenticator app and reaches the console only, and no one else comes from the platform's own
-- organization.
pub handle_api-IsCleared :
    (door : Door) (now : ℕ) (request : Request) (before after : Db) (auth : AuthContext)
    (handler : Handler)
    → handle_api door now request before ≡ (ok (signed auth handler), after)
    → ((is_read request ≡ true) ⊎ IsFromHere door request) × IsCleared door now request before auth
handle_api-IsCleared door now request before after auth handler h =
    OnOk-ok (OnSigned (R door now request before)) (handle_api door now request before).0
      (signed auth handler) (handle_api-R door now request before)
      (ap (λ (r : Result Dispatch × Db). r.0) h)
