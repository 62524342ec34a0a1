-- ===== src/Webhook/Github/Verified.antt =====
-- What a signed request is, and what is decoded of it.
use Prim.Native.String.{[], ◌∷◌, ◌++◌, len}
use package.text.Mathlib.TextPositions.{len-append}
use event_watch.Base.{
  ℕ, zero, suc, ◌≡◌, ◌≢◌, refl, ap, String, true, false, Option, none, some, List, if◌then◌else◌,
  ◌=ₛ◌, eq_iff, arith, Bool-cases, inl, inr,
}
use event_watch.Core.{Event, Error, Result, ok, err, missing_signature, signature_mismatch}
use event_watch.StoreApi.{StoreApi, Env}
use event_watch.Broker.{Broker}
use event_watch.Broker.Publish.{Result-cases}
use event_watch.Transport.Ws.{text, of_error}
use event_watch.Transport.Http.{
  Plugins, get_plugin, Response, http_error, publish_each, webhook_handler,
}
use event_watch.Webhook.Json.{Fields}
use event_watch.Webhook.Github.{
  Request, take_text, read_body, verify, transform_bytes, transform, plugin,
}

take_text_idem : (n : ℕ) (s : String) → take_text n (take_text n s) ≡ take_text n s
unfolding take_text
take_text_idem zero s = refl
take_text_idem (suc n) [] = refl
take_text_idem (suc n) (c ∷ s) = ap (λ t. c ∷ t) (take_text_idem n s)

-- The bytes that a read of the body gives.
abbrev pub bytes_read : Request → Result String
bytes_read r = (read_body r).0

read_put_back :
    (r : Request) (body : String)
    → bytes_read r ≡ ok body
    → bytes_read (record r { body = ok body }) ≡ ok body
unfolding read_body
read_put_back r body h = go r.body h
  where
    go :
        (b : Result String)
        → bytes_read (record r { body = b }) ≡ ok body
        → bytes_read (record r { body = ok body }) ≡ ok body
    go (ok t) e = cc (take_text_idem 5242880 t)
    go (err x) e = cc

header-ne-nil : (hex : String) → "sha256=" ++ hex ≢ ""
header-ne-nil hex e = absurd (omega (arith, len-append "sha256=" hex, ap len e))

transform_read :
    (unmarshal : String → Option (Option Fields)) (r : Request) (body : String)
    → bytes_read r ≡ ok body
    → transform unmarshal (record r { body = ok body }) ≡ transform_bytes unmarshal r.event body
unfolding transform
transform_read unmarshal r body read = rw (read_put_back r body read, transform) refl

module _ (hmac : String → String → String) (secret : String) (r : Request)
    (given : secret ≢ "") where
  verify_unreadable :
      (x : Error) → bytes_read r ≡ err x → (e : Error) × ((verify hmac secret r).0 ≡ some e)
  unfolding verify
  verify_unreadable x unread = elim (Bool-cases (r.signature =ₛ "")) [
    | inl missing ↦ (missing_signature, ground (arith, eq_iff secret ""))
    | inr there ↦ (x, ground (arith, eq_iff secret ""))
  ]

  verify_wrong :
      (body : String)
      → bytes_read r ≡ ok body
      → (("sha256=" ++ hmac secret body) =ₛ r.signature) ≡ false
      → (e : Error) × ((verify hmac secret r).0 ≡ some e)
  unfolding verify
  verify_wrong body read wrong = elim (Bool-cases (r.signature =ₛ "")) [
    | inl missing ↦ (missing_signature, ground (arith, eq_iff secret ""))
    | inr there ↦ (signature_mismatch, ground (arith, eq_iff secret ""))
  ]

  verify_right :
      (body : String)
      → bytes_read r ≡ ok body
      → (("sha256=" ++ hmac secret body) =ₛ r.signature) ≡ true
      → verify hmac secret r ≡ (none, record r { body = ok body })
  unfolding verify
  verify_right body read right = ground (
    arith,
    eq_iff secret "",
    eq_iff r.signature "",
    eq_iff ("sha256=" ++ hmac secret body) r.signature,
    header-ne-nil (hmac secret body),
  )

module _ {S : Type 0} (api : StoreApi S) where
  -- What the handler does with the events of a plugin, or with its error.
  abbrev pub publish_result : Broker S → (ℕ → Env) → Result (List Event) → Broker S × Response
  publish_result b envs (err x) = (b, http_error (of_error x) 400)
  publish_result b envs (ok es) = publish_each api b envs es

  abbrev pub refused : Broker S → Broker S × Response
  refused b = (b, http_error (text "signature invalid") 401)

  -- With a secret, the webhook handler publishes what GitHub's plugin decodes of a request exactly
  -- if the signature header is `sha256=` and the HMAC of the bytes that it decodes, the first 5 MiB
  -- of a body that can be read only once. Otherwise, and if the body cannot be read, it answers 401
  -- and publishes nothing.
  pub webhook_signed :
      (hmac : String → String → String) (unmarshal : String → Option (Option Fields))
      (secret : String) (r : Request) (b : Broker S) (envs : ℕ → Env) (plugins : Plugins)
      (name : String)
      → secret ≢ ""
      → get_plugin plugins name ≡ some (plugin hmac unmarshal secret r)
      → webhook_handler api b envs "POST" plugins name ≡ elim (bytes_read r) [
        | err x ↦ refused b
        | ok body ↦
            if ("sha256=" ++ hmac secret body) =ₛ r.signature
            then publish_result b envs (transform_bytes unmarshal r.event body)
            else refused b
      ]
  unfolding webhook_handler plugin
  webhook_signed hmac unmarshal secret r b envs plugins name given found =
      rw (found) (elim (Result-cases (bytes_read r)) [
        | inl (x, unread) ↦
            let (e, bad) = verify_unreadable hmac secret r given x unread in
            rw (bad) (rw (unread) refl)
        | inr (body, read) ↦ elim (Bool-cases (("sha256=" ++ hmac secret body) =ₛ r.signature)) [
          | inl right ↦
              let e = verify_right hmac secret r given body read right in
              let accepted = ap (λ (p : Option Error × Request). p.0) e in
              let put_back = ap (λ (p : Option Error × Request). p.1) e in
              rw (accepted, put_back, read, right, transform_read unmarshal r body read) refl
          | inr wrong ↦
              let (e, bad) = verify_wrong hmac secret r given body read wrong in
              rw (bad) (rw (read, wrong) refl)
        ]
      ])
