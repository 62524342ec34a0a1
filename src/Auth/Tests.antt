-- ===== src/Auth/Tests.antt =====
-- The cases of internal/auth/auth_test.go.
use event_watch.Base.{◌≡◌, refl, String, [], ◌∷◌, inl, arith, eq_iff}
use event_watch.Auth.{
  Request, Principal, new_bearer, middleware, served, unauthorized, bearer_authenticate, token_of,
}
use event_watch.Auth.Laws.{middleware_admits, middleware_refuses}

abbrev good : Request
good = record { authorization = "Bearer s3cr3t"; access_token = "" }

abbrev bad : Request
bad = record { authorization = "Bearer wrong"; access_token = "" }

abbrev id_of : Principal → String
id_of p = p.id

middleware_admits_example :
    middleware (new_bearer "s3cr3t") id_of good
    ≡ served (id_of (record { id = "bearer"; scopes = "read" ∷ "write" ∷ [] }))
middleware_admits_example =
    middleware_admits "s3cr3t" id_of good (ground (arith, eq_iff "s3cr3t" "")) (inl refl)

blocked : middleware (new_bearer "s3cr3t") id_of bad ≡ unauthorized
unfolding middleware new_bearer bearer_authenticate token_of
blocked = refl

middleware_refuses_example : middleware (new_bearer "") id_of good ≡ unauthorized
middleware_refuses_example = middleware_refuses "" id_of good (inl refl)
