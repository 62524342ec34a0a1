-- ===== src/Auth/Laws.antt =====
-- Who gets past the middleware.
use event_watch.Base.{
  ◌≡◌, ◌≢◌, ◌↔◌, ◌⊎◌, inl, inr, refl, sym, ap, ◌∙◌, String, none, some, arith, eq_iff, ◌=ₛ◌,
  if◌then◌else◌, cut_prefix, Option-cases, Bool-cases, [], ◌∷◌,
}
use event_watch.Auth.{
  Request, Principal, new_bearer, bearer_authenticate, token_of, middleware, served, unauthorized,
}

-- The header carries a token that is not empty.
abbrev pub HasHeaderToken : Request → Type 0
HasHeaderToken r = (tok : String) × (cut_prefix "Bearer " r.authorization ≡ some tok) × (tok ≢ "")

-- The request presents this token: in the header, or in the query where the header has none.
abbrev pub Presents : Request → String → Type 0
Presents r token =
    (cut_prefix "Bearer " r.authorization ≡ some token)
    ⊎ (((cut_prefix "Bearer " r.authorization ≡ none)
          ⊎ (cut_prefix "Bearer " r.authorization ≡ some ""))
        × (r.access_token ≡ token))

token_of-none :
    (r : Request) → cut_prefix "Bearer " r.authorization ≡ none → token_of r ≡ r.access_token
unfolding token_of
token_of-none r e =
    rw (e, token_of)
      (elim (Bool-cases (r.authorization =ₛ "")) [
        | inl blank ↦ rw blank refl
        | inr other ↦ rw other refl
      ])

token_of-some :
    (r : Request) (tok : String)
    → cut_prefix "Bearer " r.authorization ≡ some tok
    → token_of r ≡ (if tok =ₛ "" then r.access_token else tok)
unfolding token_of
token_of-some r tok e = elim (Bool-cases (r.authorization =ₛ "")) [
  | inl blank ↦
      absurd (ground (arith, e, ap (cut_prefix "Bearer ") ((eq_iff r.authorization "").0 blank)))
  | inr other ↦ rw (other, e, token_of) refl
]

token_of-Presents :
    (token : String) (r : Request) → token ≢ "" → (token_of r ≡ token) ↔ Presents r token
token_of-Presents token r given = elim (Option-cases (cut_prefix "Bearer " r.authorization)) [
  | inl e ↦ (
    λ same. inr (inl e, sym (token_of-none r e) ∙ same),
    λ shown.
        token_of-none r e
        ∙ elim shown [ inl header ↦ absurd (ground (arith, e, header)) | inr (_, query) ↦ query ],
  )
  | inr (tok, e) ↦
      let is = token_of-some r tok e in
      (
        λ same. elim (Bool-cases (tok =ₛ "")) [
          | inl blank ↦ inr (inr (e ∙ ap some ((eq_iff tok "").0 blank)), ground (arith, is, same))
          | inr other ↦ inl (e ∙ ap some (ground (arith, is, same)))
        ],
        λ shown. ground (arith, is, shown, e, eq_iff tok "", eq_iff token ""),
      )
]

-- Behind the bearer middleware with a token that is not empty, the handler runs for every request
-- that presents the token, in the `Authorization` header or, where that has none, in the query; and
-- it runs for the principal `bearer`, who may read and write.
pub middleware_admits :
    {A : Type 0} (token : String) (h : Principal → A) (r : Request)
    → token ≢ ""
    → Presents r token
    → middleware (new_bearer token) h r
      ≡ served (h (record { id = "bearer"; scopes = "read" ∷ "write" ∷ [] }))
unfolding middleware new_bearer bearer_authenticate
middleware_admits token h r given shown =
    let same = (token_of-Presents token r given).1 shown in
    ground (arith, same, eq_iff token "", eq_iff (token_of r) "", eq_iff (token_of r) token)

-- Every other request is answered with status 401 and does not reach the handler; with an empty
-- token that is every request.
pub middleware_refuses :
    {A : Type 0} (token : String) (h : Principal → A) (r : Request)
    → (token ≡ "") ⊎ (Presents r token → ⊥)
    → middleware (new_bearer token) h r ≡ unauthorized
unfolding middleware new_bearer bearer_authenticate
middleware_refuses token h r (inl e) = ground (arith, e, eq_iff token "")
middleware_refuses token h r (inr absent) = elim (Bool-cases (token =ₛ "")) [
  | inl blank ↦ ground arith
  | inr given ↦
      let other : token_of r ≢ token =
        λ same. absent ((token_of-Presents token r (ground (arith, eq_iff token ""))).0 same) in
      ground (arith, eq_iff (token_of r) "", eq_iff (token_of r) token)
]
