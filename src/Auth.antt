-- ===== src/Auth.antt =====
-- internal/auth: authenticators, and the middleware that asks one of them before a handler.
pub mod Laws
mod Tests
use event_watch.Base.{ℕ, String, Option, none, some, List, [], ◌∷◌, ◌=ₛ◌, if◌then◌else◌, cut_prefix}
use event_watch.Core.{Error, unauthenticated}

-- What an authenticator reads of a request, empty where it is missing: the `Authorization` header
-- and the query parameter `access_token`.
pub record Request : Type 0 where
  pub authorization : String
  pub access_token : String

pub record Principal : Type 0 where
  pub id : String
  pub scopes : List String

unfoldable pub anonymous : Principal
anonymous = record { id = "anonymous"; scopes = [] }

pub record Authenticator : Type 0 where
  pub authenticate : Request → Principal × Option Error

unfoldable pub noop : Authenticator
noop = record { authenticate = λ r. (anonymous, none) }

abbrev or_empty : Option String → String
or_empty none = ""
or_empty (some v) = v

-- The token of the header, or else of the query.
unfoldable pub token_of : Request → String
token_of r =
    let tok =
      if r.authorization =ₛ "" then "" else or_empty (cut_prefix "Bearer " r.authorization) in
    if tok =ₛ "" then r.access_token else tok

-- `subtle.ConstantTimeCompare` is 1 exactly on equal texts.
unfoldable pub bearer_authenticate : String → Request → Principal × Option Error
bearer_authenticate token r =
    if token =ₛ ""
    then (anonymous, some unauthenticated)
    else if token_of r =ₛ ""
    then (anonymous, some unauthenticated)
    else if token_of r =ₛ token
    then (record { id = "bearer"; scopes = "read" ∷ "write" ∷ [] }, none)
    else (anonymous, some unauthenticated)

unfoldable pub new_bearer : String → Authenticator
new_bearer token = record { authenticate = bearer_authenticate token }

-- What the middleware answers: status 401, or what the handler does for a principal.
pub data Served (A : Type 0) : Type 0 where
  unauthorized : Served A
  served : A → Served A

unfoldable pub middleware : {A : Type 0} → Authenticator → (Principal → A) → Request → Served A
middleware a h r =
    let (p, failed) = a.authenticate r in
    elim failed [ none ↦ served (h p) | some x ↦ unauthorized ]
