-- ===== src/Redis/Reads.antt =====
-- What the loops over the entries of a stream return.
use event_watch.Base.{
  ℕ, ℤ, zero, suc, pos, negsuc, ◌+◌, ◌-◌, ◌<◌, ◌≤◌, ◌≡◌, refl, ap, List, [], ◌∷◌, ◌++◌, length,
  filter, take, ltb, arith, false, leb, if◌then◌else◌, none, some, Option,
}
use event_watch.Core.{Event}
use event_watch.Objtypes.Codec.{Codec}
use event_watch.Store.{limited}
use event_watch.Redis.Server.{Values}
use event_watch.Redis.Store.{decode_entry, decode_entries, read_entries, is_full}

take_cons :
    {A : Type 0} (k : ℕ) (x : A) (xs : List A) → 0 < k → take k (x ∷ xs) ≡ x ∷ take (k - 1) xs
take_cons zero x xs h = absurd (omega arith)
take_cons (suc k) x xs h = ap (λ n. x ∷ take n xs) {y = suc k - 1} (omega arith)

take_nil : {A : Type 0} (k : ℕ) → take {A = A} k [] ≡ []
take_nil zero = refl
take_nil (suc k) = refl

take_all : {A : Type 0} (k : ℕ) (xs : List A) → length xs ≤ k → take k xs ≡ xs
take_all zero [] h = refl
take_all zero (x ∷ xs) h = absurd (omega arith)
take_all (suc k) [] h = refl
take_all (suc k) (x ∷ xs) h = ap (λ ys. x ∷ ys) (take_all k xs (omega arith))

module _ (c : Codec Event) where
  pub decode_entries-append :
      (es fs : List Values)
      → decode_entries c (es ++ fs) ≡ decode_entries c es ++ decode_entries c fs
  unfolding decode_entries
  decode_entries-append [] fs = refl
  decode_entries-append (en ∷ es) fs = ground (arith, decode_entries-append es fs)

  -- Without a limit, the loop keeps the events from the seq on.
  read_entries_all :
      (from len : ℕ) (limit : ℤ) (ens : List Values)
      → ((k : ℕ) → is_full limit k ≡ false)
      → read_entries c from limit len ens ≡ filter (λ e. leb from e.seq) (decode_entries c ens)
  unfolding read_entries decode_entries
  read_entries_all from len limit [] h = refl
  read_entries_all from len limit (en ∷ ens) h = ground (
    arith,
    h (len + 1),
    read_entries_all from len limit ens h,
    read_entries_all from (len + 1) limit ens h,
  )

  -- With one, as many as are left of it.
  limited_step :
      (d : Option Event) (from len n : ℕ) (skipped more ds : List Event)
      → len < n
      → skipped ≡ take (n - len) (filter (λ e. leb from e.seq) ds)
      → (len + 1 < n → more ≡ take (n - (len + 1)) (filter (λ e. leb from e.seq) ds))
      → (elim d [
        | none ↦ skipped
        | some e ↦
            if ltb e.seq from then skipped else e ∷ (if is_full (pos n) (len + 1) then [] else more)
      ])
        ≡ take (n - len) (filter (λ e. leb from e.seq) (elim d [ none ↦ ds | some e ↦ e ∷ ds ]))
  limited_step none from len n skipped more ds h p q = p
  limited_step (some e) from len n skipped more ds h p q =
      let kept = filter (λ e. leb from e.seq) ds in
      ground (
        arith,
        p,
        q,
        take_cons (n - len) e kept (omega arith),
        ap (λ k. take k kept) {x = n - (len + 1)} {y = n - len - 1} (omega arith),
        λ (last : n - len - 1 ≡ 0). ap (λ k. take k kept) last,
      )

  read_entries_some :
      (from len n : ℕ) (ens : List Values)
      → len < n
      → read_entries c from (pos n) len ens
        ≡ take (n - len) (filter (λ e. leb from e.seq) (decode_entries c ens))
  unfolding read_entries decode_entries
  read_entries_some from len n [] h = ground (arith, take_nil {A = Event} (n - len))
  read_entries_some from len n (en ∷ ens) h =
      limited_step (decode_entry c en) from len n (read_entries c from (pos n) len ens)
        (read_entries c from (pos n) (len + 1) ens) (decode_entries c ens) h
        (read_entries_some from len n ens h) (λ more. read_entries_some from (len + 1) n ens more)

  pub read_entries-limited :
      (from : ℕ) (limit : ℤ) (ens : List Values)
      → read_entries c from limit 0 ens
        ≡ limited limit (filter (λ e. leb from e.seq) (decode_entries c ens))
  read_entries-limited from (pos zero) ens = read_entries_all from 0 (pos 0) ens (λ k. refl)
  read_entries-limited from (pos (suc n)) ens =
      let kept = filter (λ e. leb from e.seq) (decode_entries c ens) in
      ground (
        arith,
        read_entries_some from 0 (suc n) ens (omega arith),
        λ (all : length kept ≤ suc n). take_all (suc n) kept all,
      )
  read_entries-limited from (negsuc n) ens = read_entries_all from 0 (negsuc n) ens (λ k. refl)
