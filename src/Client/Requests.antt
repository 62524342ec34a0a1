-- ===== src/Client/Requests.antt =====
-- Requests over the connection, and the responses that reach them.
use Prim.Native.String.{◌++◌ as ◌++ₛ◌}
use text.Mathlib.TextLemmas.{append_cancel_left}
use event_watch.Base.{
  ℕ, ◌+◌, ◌≤◌, ◌<◌, ◌≡◌, ◌≢◌, refl, sym, ap, ◌∙◌, String, Bool, false, ◌&&◌, ◌||◌, Option, none,
  some, List, [], ◌∷◌, ◌++◌, ◌=ₛ◌, if◌then◌else◌, eq_iff, arith, lookup, insert, lookup-insert,
  lookup-remove, word_mod, Option-cases, Bool-cases, inl, inr, is_some, add64,
}
use event_watch.Base.Decimal.{show_ℕ}
use event_watch.Transport.Ws.Parse.{parse_digits}
use event_watch.Transport.Ws.Parse.Decimal.{parse_digits-show}
use event_watch.Core.{Event}
use event_watch.Client.{
  Client, PendingResp, Delivery, calls, answers, on_event, on_response, dispatch, dispatch_all,
  request, send,
}
use event_watch.Client.Wire.{OutFrame, InFrame}

-- Every request that waits has an id of its own number, and is among those made.
abbrev pub IsTracked : Client → Type 0
IsTracked c =
    (id : String) (n : ℕ)
    → lookup id c.pending ≡ some n
    → (id ≡ "r" ++ₛ show_ℕ n) × (n ≤ c.next_req)

show_inj : (m n : ℕ) → m < word_mod → n < word_mod → show_ℕ m ≡ show_ℕ n → m ≡ n
show_inj m n k l e =
    let same = ap (parse_digits 0) e in cc (same, parse_digits-show m k, parse_digits-show n l)

send-pending : (c : Client) (f : OutFrame) → (send c f).pending ≡ c.pending
unfolding send
send-pending c f = ground arith

send-next_req : (c : Client) (f : OutFrame) → (send c f).next_req ≡ c.next_req
unfolding send
send-next_req c f = ground arith

insert_tracked :
    (c : Client) (n : ℕ) (id' : String) (k : ℕ)
    → IsTracked c
    → c.next_req ≤ n
    → lookup id' (insert ("r" ++ₛ show_ℕ n) n c.pending) ≡ some k
    → (id' ≡ "r" ++ₛ show_ℕ k) × (k ≤ n)
insert_tracked c n id' k tracked le waits =
    let id = "r" ++ₛ show_ℕ n in
    let law = lookup-insert id id' n c.pending in
    elim (Bool-cases (id =ₛ id')) [
      | inl same ↦
          let equal : n ≡ k = ground (arith, law) in
          (sym ((eq_iff id id').0 same) ∙ ap (λ (m : ℕ). "r" ++ₛ show_ℕ m) equal, omega arith)
      | inr other ↦ let (named, below) = tracked id' k (ground (arith, law)) in (named, omega arith)
    ]

-- A request waits under an id under which no other request waits, which leaves the others waiting.
pub request_fresh :
    (c : Client) (f : OutFrame)
    → IsTracked c
    → c.next_req + 1 < word_mod
    → let (c', id) = request c f in
      (lookup id c.pending ≡ none)
      × ((id' : String)
          → is_some (lookup id' c'.pending) ≡ (id =ₛ id' || is_some (lookup id' c.pending)))
      × IsTracked c'
unfolding request
request_fresh c f tracked room =
    let n = add64 c.next_req 1 in
    let id = "r" ++ₛ show_ℕ n in
    let more = record c { next_req = n; pending = insert id n c.pending } in
    let sent = record f { req_id = id } in
    let kept = send-pending more sent in
    (
      elim (Option-cases (lookup id c.pending)) [
        | inl free ↦ free
        | inr (m, waits) ↦
            let (same, le) = tracked id m waits in
            let equal : n ≡ m =
              show_inj n m (omega arith) (omega arith)
                (append_cancel_left "r" (show_ℕ n) (show_ℕ m) same) in
            absurd (omega arith)
      ],
      λ id'.
          ap (λ p. is_some (lookup id' p)) kept ∙ ground (arith, lookup-insert id id' n c.pending),
      λ id' k waits.
          let (named, le) =
            insert_tracked c n id' k tracked (omega arith) (ap (lookup id') (sym kept) ∙ waits) in
          (named, omega (arith, le, send-next_req more sent)),
    )

-- The responses that reach the request with an id, in order.
abbrev pub answers_to : String → List Delivery → List PendingResp
answers_to id [] = []
answers_to id (calls t ids e ∷ ds) = answers_to id ds
answers_to id (answers r p ∷ ds) = if r =ₛ id then p ∷ answers_to id ds else answers_to id ds

abbrev pub is_response : String → InFrame → Bool
is_response id f = f.req_id =ₛ id && (f.type =ₛ "state" || (f.type =ₛ "ack" || f.type =ₛ "error"))

abbrev pub response : InFrame → PendingResp
response f = record { frame = f; failed = f.type =ₛ "error" }

-- The first of the frames that is a response with an id.
abbrev pub first_response : String → List InFrame → List PendingResp
first_response id [] = []
first_response id (f ∷ fs) = if is_response id f then response f ∷ [] else first_response id fs

answers_to-append :
    (id : String) (xs ys : List Delivery)
    → answers_to id (xs ++ ys) ≡ answers_to id xs ++ answers_to id ys
answers_to-append id [] ys = refl
answers_to-append id (calls t ids e ∷ xs) ys = answers_to-append id xs ys
answers_to-append id (answers r p ∷ xs) ys = ground (arith, answers_to-append id xs ys)

abbrev is_kind : InFrame → Bool
is_kind f = f.type =ₛ "state" || (f.type =ₛ "ack" || f.type =ₛ "error")

event_not_response : (f : InFrame) → f.type ≡ "event" → is_kind f ≡ false
event_not_response f e = rw e refl

on_event-answers :
    (c : Client) (topic : String) (e : Option Event) (id : String)
    → (answers_to id (on_event c topic e).1 ≡ []) × ((on_event c topic e).0.pending ≡ c.pending)
unfolding on_event
on_event-answers c topic none id = (refl, refl)
on_event-answers c topic (some e) id = elim (Option-cases (lookup topic c.topics)) [
  | inl free ↦ rw (free, on_event) (refl, refl)
  | inr (ts, there) ↦ rw (there, on_event) (refl, refl)
]

on_response-answers :
    (c : Client) (f : InFrame) (id : String)
    → id ≢ ""
    → let waits = is_some (lookup id c.pending) in
      (answers_to id (on_response c f).1
        ≡ (if waits && f.req_id =ₛ id then response f ∷ [] else []))
      × (is_some (lookup id (on_response c f).0.pending)
          ≡ (if f.req_id =ₛ id then false else waits))
unfolding on_response
on_response-answers c f id named = ground (
  arith,
  eq_iff f.req_id "",
  eq_iff f.req_id id,
  lookup-remove f.req_id id c.pending,
  λ (e : f.req_id ≡ id). ap (λ k. lookup k c.pending) e,
)

-- One frame: what it answers, and whether the request waits afterwards.
dispatch-answers :
    (c : Client) (f : InFrame) (id : String)
    → id ≢ ""
    → let (c', ds) = dispatch c f in
      let waits = is_some (lookup id c.pending) in
      (answers_to id ds ≡ (if waits && is_response id f then response f ∷ [] else []))
      × (is_some (lookup id c'.pending) ≡ (if is_response id f then false else waits))
unfolding dispatch
dispatch-answers c f id named = elim (Bool-cases (f.type =ₛ "event")) [
  | inl e ↦
      let (quiet, kept) = on_event-answers c f.topic f.event id in
      let other = event_not_response f ((eq_iff f.type "event").0 e) in
      rw (e) (rw (other) (ground (arith, quiet, kept)))
  | inr n ↦ elim (Bool-cases (is_kind f)) [
    | inl r ↦ rw (n) (rw (r) (ground (arith, on_response-answers c f id named)))
    | inr o ↦ rw (n) (rw (o) (ground arith))
  ]
]

-- Whatever frames arrive, a request that waits gets the first response with its id, once, and
-- nothing after it; one that does not wait, since it was answered, was given up or was not made,
-- gets nothing.
pub dispatch_all-answers :
    (fs : List InFrame) (c : Client) (id : String)
    → id ≢ ""
    → answers_to id (dispatch_all c fs).1
      ≡ (if is_some (lookup id c.pending) then first_response id fs else [])
unfolding dispatch_all
dispatch_all-answers [] c id named = ground arith
dispatch_all-answers (f ∷ fs) c id named =
    let (now, later) = dispatch-answers c f id named in
    answers_to-append id (dispatch c f).1 (dispatch_all (dispatch c f).0 fs).1
    ∙ ground (arith, now, later, dispatch_all-answers fs (dispatch c f).0 id named)
