-- ===== src/Redis/Append.antt =====
-- An append that succeeds, on each key of the server.
use event_watch.Base.{
  ℕ, ◌+◌, ◌<◌, lt→ltb, ◌≡◌, refl, ap, sym, ◌∙◌, subst, String, true, false, Option, none, some, [],
  ◌∷◌, ltb, arith, if◌then◌else◌, ◌=ₛ◌, ◌==◌,
}
use event_watch.Core.{Event, Error, bad_json, Result, ok, err}
use event_watch.Objtypes.Codec.{Codec}
use event_watch.StoreApi.{Env, stamped}
use event_watch.Redis.Server.{
  Item, integer, RedisApi, IsRedis, hash_of, stream_of, members_of, fine, added, counter_of,
}
use event_watch.Redis.Store.{
  stream_key, state_key, meta_key, seq_key, topics_set, append_commands, append, after_exec,
  after_marshal, after_incr,
}
use event_watch.Base.Decimal.{show_ℕ}
use event_watch.Redis.Keys.{
  Family, streams, states, metas, seqs, key, mark, prefix, key-inj, key-key_apart, key-set_apart,
}
use event_watch.Redis.Logs.{append-stream, append-seq, append-state, append-meta}

module _ {R : Type 0} (api : RedisApi R) where
  -- What a successful append went through.
  pub record Ran (c : Codec Event) (r : R) (env : Env) (e : Event) (q : Result ℕ) (r' : R)
      (e' : Event) : Type 0 where
    pub seq : ℕ
    pub body : String
    pub counted : q ≡ ok seq
    pub given : e' ≡ stamped e seq env
    pub marshalled : c.marshal e' ≡ some body
    pub ran : api.exec r (append_commands e' body env.created) ≡ (r', none)

  after_exec_ok :
      (e e' : Event) (p : R × Option Error) (r' : R)
      → after_exec api e p ≡ (r', ok e')
      → (p ≡ (r', none)) × (e ≡ e')
  after_exec_ok e e' (r, none) r' h =
      let same : r ≡ r' = ap (λ (p : R × Result Event). p.0) h in
      let given : Result.ok e ≡ ok e' = ap (λ (p : R × Result Event). p.1) h in
      (ap (λ s. (s, none)) same, cc)
  after_exec_ok e e' (r, some x) r' h =
      let given : Result.err x ≡ ok e' = ap (λ (p : R × Result Event). p.1) h in cc

  after_marshal-Ran :
      (c : Codec Event) (r : R) (env : Env) (e e' : Event) (n : ℕ) (r' : R) (m : Option String)
      → c.marshal (stamped e n env) ≡ m
      → after_marshal api r (stamped e n env) env.created m ≡ (r', ok e')
      → Ran c r env e (ok n) r' e'
  after_marshal-Ran c r env e e' n r' none q h =
      let given : Result.err bad_json ≡ ok e' = ap (λ (p : R × Result Event). p.1) h in cc
  after_marshal-Ran c r env e e' n r' (some body) q h =
      let e₀ = stamped e n env in
      let (ran, same) =
        after_exec_ok e₀ e' (api.exec r (append_commands e₀ body env.created)) r' h in
      record {
        seq = n;
        body = body;
        counted = refl;
        given = sym same;
        marshalled = subst (λ x. c.marshal x ≡ some body) same q;
        ran = subst (λ x. api.exec r (append_commands x body env.created) ≡ (r', none)) same ran;
      }

  after_incr-Ran :
      (c : Codec Event) (r : R) (env : Env) (e e' : Event) (q : Result ℕ) (r' : R)
      → after_incr api c r env e q ≡ (r', ok e')
      → Ran c r env e q r' e'
  after_incr-Ran c r env e e' (err x) r' h =
      let given : Result.err x ≡ ok e' = ap (λ (p : R × Result Event). p.1) h in cc
  after_incr-Ran c r env e e' (ok n) r' h =
      after_marshal-Ran c r env e e' n r' (c.marshal (stamped e n env)) refl h

module _ {R : Type 0} (api : RedisApi R) (at : R → String → Option Item) (laws : IsRedis api at)
    (c : Codec Event) where
  -- A successful append to a topic whose counter stands at a number.
  pub record Appended (r r' : R) (env : Env) (e e' : Event) (n : ℕ) : Type 0 where
    pub body : String
    pub given : e' ≡ stamped e (n + 1) env
    pub marshalled : c.marshal e' ≡ some body
    pub logs :
        (t : String)
        → at r' (stream_key t) ≡ (
            if e.topic =ₛ t
            then added (("e", body) ∷ ("seq", show_ℕ e'.seq) ∷ []) (at r (stream_key t))
            else at r (stream_key t))
    pub counts :
        (t : String)
        → at r' (seq_key t) ≡ (if e.topic =ₛ t then some (integer (n + 1)) else at r (seq_key t))
    pub hashes :
        (t : String) → fine (hash_of (at r' (meta_key t))) ≡ fine (hash_of (at r (meta_key t)))
    pub kept : (t : String) → at r' (state_key t) ≡ at r (state_key t)

  pub append-Appended :
      (r r' : R) (env : Env) (e e' : Event) (n : ℕ)
      → counter_of (at r (seq_key e.topic)) ≡ some n
      → append api c r env e ≡ (r', ok e')
      → Appended r r' env e e' n
  unfolding append
  append-Appended r r' env e e' n counted h =
      let (result, incremented) = laws.incr_ok r (seq_key e.topic) n counted in
      let r₁ = (api.incr r (seq_key e.topic)).0 in
      let ran = after_incr-Ran api c r₁ env e e' (api.incr r (seq_key e.topic)).1 r' h in
      let fits : ltb (n + 1) 9223372036854775808 ≡ true = ground (arith, result, ran.counted) in
      let seq : ran.seq ≡ n + 1 = ground (arith, result, ran.counted) in
      let topic : e'.topic ≡ e.topic = ap (λ (x : Event). x.topic) ran.given in
      let cs = append_commands e' ran.body env.created in
      let done = λ (k : String).
        ap (λ (p : R × Option Error). at p.0 k) (sym ran.ran) ∙ laws.exec_ok r₁ cs k in
      let before : (f : Family)
          → (t : String) → (mark (prefix seqs) == mark (prefix f)) ≡ false
          → at r₁ (key f t) ≡ at r (key f t) =
        λ f t d. incremented (key f t) ∙ rw (key-key_apart seqs f e.topic t d) refl in
      record {
        body = ran.body;
        given = ran.given ∙ ap (λ k. stamped e k env) seq;
        marshalled = ran.marshalled;
        logs = λ t.
            done (stream_key t)
            ∙ append-stream e' ran.body env.created t (at r₁ (stream_key t))
            ∙ rw (topic, before streams t refl) refl;
        counts = λ t.
            done (seq_key t)
            ∙ append-seq e' ran.body env.created t (at r₁ (seq_key t))
            ∙ incremented (seq_key t)
            ∙ rw (key-inj seqs e.topic t, fits) (ground arith);
        hashes = λ t.
            ap (λ i. fine (hash_of i)) (done (meta_key t))
            ∙ append-meta e' ran.body env.created t (at r₁ (meta_key t))
            ∙ ap (λ i. fine (hash_of i)) (before metas t refl);
        kept = λ t.
            done (state_key t)
            ∙ append-state e' ran.body env.created t (at r₁ (state_key t))
            ∙ before states t refl;
      }

  after_exec_fine : (e : Event) (p : R × Option Error) → p.1 ≡ none → (after_exec api e p).1 ≡ ok e
  after_exec_fine e (r, none) h = refl
  after_exec_fine e (r, some x) h = cc

  -- An append finds its keys of the right types and the counter below its limit.
  pub append-succeeds :
      (r : R) (env : Env) (e : Event) (n : ℕ) (body : String)
      → counter_of (at r (seq_key e.topic)) ≡ some n
      → fine (stream_of (at r (stream_key e.topic))) ≡ true
      → fine (hash_of (at r (meta_key e.topic))) ≡ true
      → fine (members_of (at r topics_set)) ≡ true
      → n + 1 < 9223372036854775808
      → c.marshal (stamped e (n + 1) env) ≡ some body
      → (append api c r env e).1 ≡ ok (stamped e (n + 1) env)
  unfolding append
  append-succeeds r env e n body counted log hash set small m =
      let (result, incremented) = laws.incr_ok r (seq_key e.topic) n counted in
      let r₁ = (api.incr r (seq_key e.topic)).0 in
      let e' = stamped e (n + 1) env in
      let cs = append_commands e' body env.created in
      let next : (api.incr r (seq_key e.topic)).1 ≡ ok (n + 1) =
        result ∙ rw (lt→ltb (n + 1) 9223372036854775808 small) refl in
      let before : (k : String) → (seq_key e.topic =ₛ k) ≡ false → at r₁ k ≡ at r k =
        λ k d. incremented k ∙ rw d refl in
      let log' : fine (stream_of (at r₁ (stream_key e.topic))) ≡ true =
        ap (λ i. fine (stream_of i))
          (before (stream_key e.topic) (key-key_apart seqs streams e.topic e.topic refl))
        ∙ log in
      let hash' : fine (hash_of (at r₁ (meta_key e.topic))) ≡ true =
        ap (λ i. fine (hash_of i))
          (before (meta_key e.topic) (key-key_apart seqs metas e.topic e.topic refl))
        ∙ hash in
      let set' : fine (members_of (at r₁ topics_set)) ≡ true =
        ap (λ i. fine (members_of i)) (before topics_set (key-set_apart seqs e.topic)) ∙ set in
      ap (λ q. (after_incr api c r₁ env e q).1) next
      ∙ ap (λ x. (after_marshal api r₁ e' env.created x).1) m
      ∙ after_exec_fine e' (api.exec r₁ cs)
          (laws.exec_fine r₁ cs (log', (hash', (hash', (set', tt)))))
