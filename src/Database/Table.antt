-- ===== src/Database/Table.antt =====
-- The SQL statements of packages/cemp-database, on a table as its list of rows in rowid order.
-- A key is UNIQUE by `insert_or_ignore`, the statement INSERT ... ON CONFLICT (key) DO NOTHING.
pub mod Updates
use cemp_mobile.Prelude.{
  ℕ, suc, ◌≡◌, refl, Bool, true, false, List, [], ◌∷◌, ◌++◌, Option, none, some, arith,
  if◌then◌else◌, Bool-cases, inl, inr,
}

module _ {ℓ} {A : Type ℓ} where
  -- SELECT ... WHERE p, read by `db.get`.
  unfoldable pub select_one : (A → Bool) → List A → Option A
  select_one p [] = none
  select_one p (r ∷ rs) = if p r then some r else select_one p rs

  -- SELECT ... WHERE p ORDER BY id, read by `db.all`.
  unfoldable pub select_all : (A → Bool) → List A → List A
  select_all p [] = []
  select_all p (r ∷ rs) = let rest = select_all p rs in if p r then r ∷ rest else rest

  -- UPDATE ... SET f WHERE p.
  unfoldable pub update_where : (A → Bool) → (A → A) → List A → List A
  update_where p f [] = []
  update_where p f (r ∷ rs) = (if p r then f r else r) ∷ update_where p f rs

  -- DELETE ... WHERE p.
  unfoldable pub delete_where : (A → Bool) → List A → List A
  delete_where p [] = []
  delete_where p (r ∷ rs) = let rest = delete_where p rs in if p r then rest else r ∷ rest

  -- The rows that an UPDATE or DELETE with this condition changes.
  unfoldable pub changes : (A → Bool) → List A → ℕ
  changes p [] = 0
  changes p (r ∷ rs) = if p r then suc (changes p rs) else changes p rs

  -- INSERT ... ON CONFLICT DO NOTHING: the table and the number of rows inserted.
  unfoldable pub insert_or_ignore : (A → Bool) → A → List A → List A × ℕ
  insert_or_ignore key r rs = elim (select_one key rs) [
    | none ↦ (rs ++ r ∷ [], 1)
    | some _ ↦ (rs, 0)
  ]

  pub select_one-holds :
      (p : A → Bool) (rs : List A) {r : A} → select_one p rs ≡ some r → p r ≡ true
  unfolding select_one
  select_one-holds p [] h = cc
  select_one-holds p (x ∷ rs) {r} h = elim (Bool-cases (p x)) [
    | inl e ↦ ground (arith, e)
    | inr e ↦ select_one-holds p rs (ground (arith, e))
  ]

  pub select_one-append :
      (p : A → Bool) (r : A) (rs : List A)
      → select_one p rs ≡ none
      → select_one p (rs ++ r ∷ []) ≡ (if p r then some r else none)
  unfolding select_one
  select_one-append p r [] h = refl
  select_one-append p r (x ∷ rs) h = ground (arith, select_one-append p r rs)

  -- An appended row that does not fit the condition is not seen.
  pub select_one-append_other :
      (p : A → Bool) (r : A) (rs : List A)
      → p r ≡ false
      → select_one p (rs ++ r ∷ []) ≡ select_one p rs
  unfolding select_one
  select_one-append_other p r [] h = ground arith
  select_one-append_other p r (x ∷ rs) h = ground (arith, select_one-append_other p r rs h)

  -- An appended row does not hide one that was there.
  pub select_one-append_found :
      (p : A → Bool) (r x : A) (rs : List A)
      → select_one p rs ≡ some x
      → select_one p (rs ++ r ∷ []) ≡ some x
  unfolding select_one
  select_one-append_found p r x [] h = cc
  select_one-append_found p r x (y ∷ rs) h = ground (arith, select_one-append_found p r x rs)

  pub select_one-update_self :
      (p : A → Bool) (f : A → A) (x : A) (rs : List A)
      → p (f x) ≡ true
      → select_one p rs ≡ some x
      → select_one p (update_where p f rs) ≡ some (f x)
  unfolding select_one update_where
  select_one-update_self p f x [] e h = cc
  select_one-update_self p f x (y ∷ rs) e h = ground (arith, select_one-update_self p f x rs e)

  -- An update of the rows of `p` is not seen under a condition that excludes them.
  pub select_one-update_other :
      (p q : A → Bool) (f : A → A) (rs : List A)
      → ((a : A) → p a ≡ true → q a ≡ false)
      → ((a : A) → p a ≡ true → q (f a) ≡ false)
      → select_one q (update_where p f rs) ≡ select_one q rs
  unfolding select_one update_where
  select_one-update_other p q f [] h k = refl
  select_one-update_other p q f (y ∷ rs) h k =
      ground (arith, h y, k y, select_one-update_other p q f rs h k)

  pub select_one-update_none :
      (p : A → Bool) (f : A → A) (rs : List A) → select_one p rs ≡ none → update_where p f rs ≡ rs
  unfolding select_one update_where
  select_one-update_none p f [] h = refl
  select_one-update_none p f (y ∷ rs) h = ground (arith, select_one-update_none p f rs)

  pub changes-none : (p : A → Bool) (rs : List A) → select_one p rs ≡ none → changes p rs ≡ 0
  unfolding select_one changes
  changes-none p [] h = refl
  changes-none p (y ∷ rs) h = ground (arith, changes-none p rs)

  pub select_one-delete_other :
      (p q : A → Bool) (rs : List A)
      → ((a : A) → p a ≡ true → q a ≡ false)
      → select_one q (delete_where p rs) ≡ select_one q rs
  unfolding select_one delete_where
  select_one-delete_other p q [] h = refl
  select_one-delete_other p q (y ∷ rs) h = ground (arith, h y, select_one-delete_other p q rs h)

  -- A row that a deletion spares is still found by its key.
  pub select_one-delete_spared :
      (p q : A → Bool) (x : A) (rs : List A)
      → p x ≡ false
      → select_one q rs ≡ some x
      → select_one q (delete_where p rs) ≡ some x
  unfolding select_one delete_where
  select_one-delete_spared p q x [] e h = cc
  select_one-delete_spared p q x (y ∷ rs) e h = ground (arith, select_one-delete_spared p q x rs e)

  pub select_one-delete_none :
      (p q : A → Bool) (rs : List A)
      → select_one q rs ≡ none
      → select_one q (delete_where p rs) ≡ none
  unfolding select_one delete_where
  select_one-delete_none p q [] h = refl
  select_one-delete_none p q (y ∷ rs) h = ground (arith, select_one-delete_none p q rs)

  pub select_one-delete_self :
      (p : A → Bool) (rs : List A) → select_one p (delete_where p rs) ≡ none
  unfolding select_one delete_where
  select_one-delete_self p [] = refl
  select_one-delete_self p (y ∷ rs) = ground (arith, select_one-delete_self p rs)

  pub insert_or_ignore_new :
      (key : A → Bool) (r : A) (rs : List A)
      → select_one key rs ≡ none
      → insert_or_ignore key r rs ≡ (rs ++ r ∷ [], 1)
  unfolding insert_or_ignore
  insert_or_ignore_new key r rs h = rw (h, insert_or_ignore)

  pub insert_or_ignore_met :
      (key : A → Bool) (r : A) (rs : List A) {x : A}
      → select_one key rs ≡ some x
      → insert_or_ignore key r rs ≡ (rs, 0)
  unfolding insert_or_ignore
  insert_or_ignore_met key r rs h = rw (h, insert_or_ignore)
