-- ===== src/Database/Table/Updates.antt =====
-- What an UPDATE or INSERT leaves of the rows that fit another condition.
use cemp_mobile.Prelude.{
  ◌≡◌, refl, ap, Bool, false, List, [], ◌∷◌, ◌++◌, some, arith, Bool-cases, inl, inr,
}
use cemp_mobile.Database.Table.{select_one, update_where, changes}

module _ {A : Type 0} where
  -- An update whose rows do not fit `p` leaves none that fits, if none did.
  pub changes-update :
      (p q : A → Bool) (f : A → A)
      → ((a : A) → p (f a) ≡ false)
      → (rows : List A) → changes p rows ≡ 0
      → changes p (update_where q f rows) ≡ 0
  unfolding changes update_where
  changes-update p q f h [] e = refl
  changes-update p q f h (r ∷ rows) e = elim (Bool-cases (p r)) [
    | inl fit ↦ absurd (ground (arith, fit, e))
    | inr unfit ↦
        let rest = changes-update p q f h rows (ground (arith, unfit, e)) in
        elim (Bool-cases (q r)) [ inl hit ↦ rw (hit, h r) rest | inr miss ↦ rw (miss, unfit) rest ]
  ]

  -- Nor does one that takes the rows that fit out of `p`.
  pub changes-update_self :
      (p : A → Bool) (f : A → A)
      → ((a : A) → p (f a) ≡ false)
      → (rows : List A) → changes p (update_where p f rows) ≡ 0
  unfolding changes update_where
  changes-update_self p f h [] = refl
  changes-update_self p f h (r ∷ rows) = elim (Bool-cases (p r)) [
    | inl e ↦ rw (e, h r) (changes-update_self p f h rows)
    | inr e ↦ rw (e, e) (changes-update_self p f h rows)
  ]

  pub update_where-none :
      (p : A → Bool) (f : A → A) (rows : List A) → changes p rows ≡ 0 → update_where p f rows ≡ rows
  unfolding changes update_where
  update_where-none p f [] e = refl
  update_where-none p f (r ∷ rows) e = elim (Bool-cases (p r)) [
    | inl fit ↦ absurd (ground (arith, fit, e))
    | inr unfit ↦
        rw unfit (ap (λ rs. r ∷ rs) (update_where-none p f rows (ground (arith, unfit, e))))
  ]

  pub changes-append :
      (p : A → Bool) (r : A) (rows : List A)
      → p r ≡ false
      → changes p (rows ++ r ∷ []) ≡ changes p rows
  unfolding changes
  changes-append p r [] e = rw e
  changes-append p r (x ∷ rows) e = elim (Bool-cases (p x)) [
    | inl fit ↦ rw (fit, changes-append p r rows e)
    | inr unfit ↦ rw (unfit, changes-append p r rows e)
  ]

  -- An update that keeps a key loses no row of it.
  pub select_one-update_kept :
      (k q : A → Bool) (f : A → A)
      → ((a : A) → k (f a) ≡ k a)
      → (rows : List A) (x : A) → select_one k rows ≡ some x
      → (y : A) × (select_one k (update_where q f rows) ≡ some y)
  unfolding select_one update_where
  select_one-update_kept k q f h [] x e = absurd (cc e)
  select_one-update_kept k q f h (r ∷ rows) x e = elim (Bool-cases (k r)) [
    | inl hit ↦ elim (Bool-cases (q r)) [
      | inl t ↦ rw (t, h r, hit) (f r, refl)
      | inr t ↦ rw (t, hit) (r, refl)
    ]
    | inr miss ↦
        let rest = select_one-update_kept k q f h rows x (ground (arith, miss, e)) in
        elim (Bool-cases (q r)) [ inl t ↦ rw (t, h r, miss) rest | inr t ↦ rw (t, miss) rest ]
  ]
