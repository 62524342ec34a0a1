-- ===== src/Transport/Ws/Closing.antt =====
-- The end of a session leaves no subscription open.
use event_watch.Base.{
  ℕ, ◌≡◌, refl, ap, String, true, List, [], ◌∷◌, All, arith, Option-cases, inl, inr, ==_iff,
}
use event_watch.Hub.{Hub, close, remove}
use event_watch.Hub.Run.{is_gone, close-is_gone}
use event_watch.StoreApi.{StoreApi}
use event_watch.Broker.{Broker, unsubscribe}
use event_watch.Transport.Ws.{Session, close_subs, close_all_subs}

close_stays :
    (h : Hub) (id j : ℕ) → is_gone (h.objects j) ≡ true → is_gone ((close h id).objects j) ≡ true
unfolding close remove
close_stays h id j g = ground (arith, ap h.objects {x = id} {y = j}, ==_iff id j)

module _ {S : Type 0} (api : StoreApi S) where
  unsubscribe_gone :
      (b : Broker S) (id : ℕ) → is_gone ((unsubscribe api b id).hub.objects id) ≡ true
  unfolding unsubscribe
  unsubscribe_gone b id = elim (Option-cases (b.hub.objects id)) [
    | inl e ↦ rw (e, unsubscribe) (ap is_gone e)
    | inr (sub, e) ↦ rw (e, unsubscribe) (close-is_gone b.hub id)
  ]

  unsubscribe_stays :
      (b : Broker S) (id j : ℕ)
      → is_gone (b.hub.objects j) ≡ true
      → is_gone ((unsubscribe api b id).hub.objects j) ≡ true
  unfolding unsubscribe
  unsubscribe_stays b id j g = elim (Option-cases (b.hub.objects id)) [
    | inl e ↦ rw (e, unsubscribe) g
    | inr (sub, e) ↦ rw (e, unsubscribe) (close_stays b.hub id j g)
  ]

  close_subs_stays :
      (b : Broker S) (s : Session) (subs : List (String × ℕ)) (j : ℕ)
      → is_gone (b.hub.objects j) ≡ true
      → is_gone ((close_subs api b s subs).0.hub.objects j) ≡ true
  unfolding close_subs
  close_subs_stays b s [] j g = g
  close_subs_stays b s ((topic, id) ∷ subs) j g =
      close_subs_stays (unsubscribe api b id) _ subs j (unsubscribe_stays b id j g)

  close_subs_gone :
      (b : Broker S) (s : Session) (subs : List (String × ℕ))
      → All (λ p. is_gone ((close_subs api b s subs).0.hub.objects p.1) ≡ true) subs
  unfolding close_subs
  close_subs_gone b s [] = tt
  close_subs_gone b s ((topic, id) ∷ subs) = (
    close_subs_stays (unsubscribe api b id) _ subs id (unsubscribe_gone b id),
    close_subs_gone (unsubscribe api b id) _ subs,
  )

  close_subs_none :
      (b : Broker S) (s : Session) (subs : List (String × ℕ))
      → (close_subs api b s subs).1.subs ≡ s.subs
  unfolding close_subs
  close_subs_none b s [] = refl
  close_subs_none b s ((topic, id) ∷ subs) = close_subs_none (unsubscribe api b id) _ subs

  -- When a session ends, every hub subscription that it held is closed, in whatever order its map is
  -- read, and it holds none.
  pub close_all_subs_gone :
      (b : Broker S) (s : Session)
      → All (λ p. is_gone ((close_all_subs api b s).0.hub.objects p.1) ≡ true) s.subs
        × ((close_all_subs api b s).1.subs ≡ [])
  unfolding close_all_subs
  close_all_subs_gone b s = (
    close_subs_gone b (record s { subs = [] }) s.subs,
    close_subs_none b (record s { subs = [] }) s.subs,
  )
