-- ===== src/Objtypes/Capped.antt =====
-- The capped histories of internal/objtypes/job.go and chat.go.
use event_watch.Base.{
  ℕ, ◌-◌, ◌≤◌, ◌≡◌, refl, sym, ap, ◌∙◌, List, [], ◌∷◌, ◌++◌, if◌then◌else◌, ltb, length, drop,
  length-drop, drop-append, drop-drop, length-append, arith, Bool-cases, inl, inr,
}

-- Append, then keep the last `cap`.
unfoldable pub append_capped {ℓ} : {A : Type ℓ} → ℕ → List A → A → List A
append_capped cap xs x =
    let ys = xs ++ x ∷ [] in if ltb cap (length ys) then drop (length ys - cap) ys else ys

-- The last n elements, all of them if there are fewer.
abbrev pub last_part {ℓ} : {A : Type ℓ} → ℕ → List A → List A
last_part n xs = drop (length xs - n) xs

module _ {ℓ} {A : Type ℓ} where
  pub append_capped_lem :
      (cap : ℕ) (xs : List A) (x : A) → append_capped cap xs x ≡ last_part cap (xs ++ x ∷ [])
  unfolding append_capped
  append_capped_lem cap xs x = elim (Bool-cases (ltb cap (length (xs ++ x ∷ [])))) [
    | inl over ↦ rw over refl
    | inr fits ↦
        rw fits
          (ap (λ k. drop k (xs ++ x ∷ [])) {x = 0} {y = length (xs ++ x ∷ []) - cap} (ground arith))
  ]

  -- Capping at every append keeps what capping once at the end would keep.
  pub append_capped-last_part :
      (cap : ℕ) (xs : List A) (x : A)
      → append_capped cap (last_part cap xs) x ≡ last_part cap (xs ++ x ∷ [])
  append_capped-last_part cap xs x =
      let k = length xs - cap in
      append_capped_lem cap (drop k xs) x
      ∙ ap (last_part cap) (sym (drop-append k xs (x ∷ []) (omega arith)))
      ∙ drop-drop (length (drop k (xs ++ x ∷ [])) - cap) k (xs ++ x ∷ [])
      ∙ ap (λ j. drop j (xs ++ x ∷ []))
          (omega (arith, length-drop k (xs ++ x ∷ []), length-append xs (x ∷ [])))

  pub length-append_capped : (cap : ℕ) (xs : List A) (x : A) → length (append_capped cap xs x) ≤ cap
  length-append_capped cap xs x =
      rw (append_capped_lem cap xs x)
        (omega (arith, length-drop (length (xs ++ x ∷ []) - cap) (xs ++ x ∷ [])))
