-- ===== src/Database/Leases/Exclusion.antt =====
-- Who holds a lease: the outcome of `acquire` on every branch, and mutual exclusion over any history.
use cemp_mobile.Prelude.{
  ℕ, ◌+◌, ◌≤◌, ◌<◌, ◌≡◌, refl, sym, subst, ◌∙◌, ap, ◌≢◌, ◌&&◌, inl, inr, true, false, List, [], ◌∷◌,
  ◌++◌, Option, none, some, ok, String, str_eq, eq_iff, eq_refl, arith, Option-cases, Bool-cases,
  ltb, ltb→lt, leb,
}
use cemp_mobile.Database.Table.{
  select_one, delete_where, select_one-delete_self, update_where, select_one-holds,
  select_one-append, select_one-append_other, select_one-update_self, select_one-update_other,
  select_one-delete_spared, insert_or_ignore_new, insert_or_ignore_met,
}
use cemp_mobile.Database.Leases.{
  WorkerLease, of_resource, contend, after_insert, acquire, release, get, prune_expired, Call,
  acquires, releases, prunes, step, run,
}

abbrev pub fresh_lease : String → String → ℕ → ℕ → WorkerLease
fresh_lease resource owner ttl_ms now_ms = record {
  resource = resource;
  owner = owner;
  acquired_at_ms = now_ms;
  expires_at_ms = now_ms + ttl_ms;
}

-- `acquire` never meets its error path: it inserts the row, or finds the one that was there.
pub acquire_free :
    (resource owner : String) (ttl now : ℕ) (t : List WorkerLease)
    → get resource t ≡ none
    → acquire resource owner ttl now t
      ≡ ok (some (fresh_lease resource owner ttl now), t ++ fresh_lease resource owner ttl now ∷ [])
unfolding acquire get
acquire_free resource owner ttl now t h = rw (insert_or_ignore_new _ _ t h)

pub acquire_taken :
    (resource owner : String) (ttl now : ℕ) (t : List WorkerLease) {l : WorkerLease}
    → get resource t ≡ some l
    → acquire resource owner ttl now t ≡ ok (contend resource owner ttl now t l)
unfolding acquire get
acquire_taken resource owner ttl now t h =
    ap (after_insert resource owner ttl now (fresh_lease resource owner ttl now))
      (insert_or_ignore_met _ _ t h)
    ∙ rw (h, after_insert)

-- A live lease of another owner refuses the call.
pub acquire_refused :
    (resource owner : String) (ttl now : ℕ) (t : List WorkerLease) (l : WorkerLease)
    → get resource t ≡ some l
    → l.owner ≢ owner
    → now < l.expires_at_ms
    → acquire resource owner ttl now t ≡ ok (none, t)
acquire_refused resource owner ttl now t l h other live =
    acquire_taken resource owner ttl now t h
    ∙ (unfold contend in ground (arith, eq_iff l.owner owner))

-- A release leaves the owner no lease on the resource.
pub release_own :
    (resource owner : String) (t : List WorkerLease)
    → select_one (λ l. of_resource resource l && str_eq l.owner owner) (release resource owner t)
      ≡ none
unfolding release
release_own resource owner t =
    select_one-delete_self (λ l. of_resource resource l && str_eq l.owner owner) t

-- The release of a lease that was free before it was acquired restores the table.
pub release_fresh :
    (resource owner : String) (ttl now : ℕ) (t : List WorkerLease)
    → get resource t ≡ none
    → release resource owner (t ++ fresh_lease resource owner ttl now ∷ []) ≡ t
unfolding release get delete_where select_one
release_fresh resource owner ttl now [] h = ground (arith, eq_refl resource, eq_refl owner)
release_fresh resource owner ttl now (l ∷ t) h =
    ground (arith, release_fresh resource owner ttl now t)

-- What a call leaves behind: a refusal changes nothing and has a live rival; a success is the
-- stored lease of the caller until now + ttl, and no other resource is touched.
abbrev pub Outcome :
    String → String → ℕ → ℕ → List WorkerLease → Option WorkerLease × List WorkerLease → Type 0
Outcome resource owner ttl now t (none, t') =
    (t' ≡ t)
    × (rival : WorkerLease) × (get resource t ≡ some rival)
    × (rival.owner ≢ owner)
    × (now < rival.expires_at_ms)
Outcome resource owner ttl now t (some l, t') =
    (l.owner ≡ owner)
    × (l.expires_at_ms ≡ now + ttl)
    × (get resource t' ≡ some l)
    × ((other : String) → other ≢ resource → get other t' ≡ get other t)
    × ((rival : WorkerLease)
        → get resource t ≡ some rival
        → rival.owner ≢ owner
        → rival.expires_at_ms ≤ now)

of_resource_other :
    (resource other : String) (l : WorkerLease)
    → other ≢ resource
    → of_resource resource l ≡ true
    → of_resource other l ≡ false
of_resource_other resource other l h e =
    ground (arith, eq_iff l.resource resource, eq_iff l.resource other)

free-Outcome :
    (resource owner : String) (ttl now : ℕ) (t : List WorkerLease)
    → get resource t ≡ none
    → Outcome resource owner ttl now t
        (some (fresh_lease resource owner ttl now), t ++ fresh_lease resource owner ttl now ∷ [])
unfolding get
free-Outcome resource owner ttl now t h = (
  refl,
  refl,
  select_one-append (of_resource resource) lease t h ∙ rw (eq_refl resource),
  (λ other ne.
      select_one-append_other (of_resource other) lease t
        (of_resource_other resource other lease ne (eq_refl resource))),
  λ rival e ne. cc,
)
  where
    lease : WorkerLease
    lease = fresh_lease resource owner ttl now

-- An UPDATE that keeps the resources shows in its own row only.
get-update :
    (resource : String) (f : WorkerLease → WorkerLease) (t : List WorkerLease) (l : WorkerLease)
    → ((x : WorkerLease) → (f x).resource ≡ x.resource)
    → get resource t ≡ some l
    → (get resource (update_where (of_resource resource) f t) ≡ some (f l))
      × ((other : String)
          → other ≢ resource
          → get other (update_where (of_resource resource) f t) ≡ get other t)
unfolding get
get-update resource f t l keeps h = (
  select_one-update_self (of_resource resource) f l t
      (rw (keeps l) (select_one-holds (of_resource resource) t h)) h,
  (λ other ne.
      select_one-update_other (of_resource resource) (of_resource other) f t
        (λ a e. of_resource_other resource other a ne e)
        (λ a e. of_resource_other resource other (f a) ne (rw (keeps a) e))),
)

get_resource :
    (resource : String) (t : List WorkerLease) (l : WorkerLease)
    → get resource t ≡ some l
    → l.resource ≡ resource
unfolding get
get_resource resource t l h =
    (eq_iff l.resource resource).0 (select_one-holds (of_resource resource) t h)

contend-Outcome :
    (resource owner : String) (ttl now : ℕ) (t : List WorkerLease) (l : WorkerLease)
    → get resource t ≡ some l
    → Outcome resource owner ttl now t (contend resource owner ttl now t l)
unfolding contend
contend-Outcome resource owner ttl now t l h = elim (Bool-cases (str_eq l.owner owner)) [
  | inl same ↦
      let refreshed =
        get-update resource (λ x. record x { expires_at_ms = now + ttl }) t l (λ x. refl) h in
      rw (same, contend)
        (
          (eq_iff l.owner owner).0 same,
          refl,
          refreshed.0,
          refreshed.1,
          λ rival e ne. absurd (ne (ground (arith, h, e, eq_iff l.owner owner))),
        )
  | inr rival ↦ elim (Bool-cases (ltb now l.expires_at_ms)) [
    | inl live ↦
        rw (rival, contend)
          (rw (live, contend)
            (refl, l, h, (λ e. cc (rival, (eq_iff l.owner owner).1 e)), ltb→lt _ _ live))
    | inr expired ↦
        let stolen =
          get-update resource
            (λ x. record {
              resource = x.resource;
              owner = owner;
              acquired_at_ms = now;
              expires_at_ms = now + ttl;
            })
            t l (λ x. refl) h in
        rw (rival, contend)
          (rw (expired, contend)
            (
              refl,
              refl,
              stolen.0 ∙ ap (λ r. some (fresh_lease r owner ttl now)) (get_resource resource t l h),
              stolen.1,
              λ other e ne. ground (arith, h, e),
            ))
  ]
]

-- `acquire` always returns, and every outcome is one of the two that `Outcome` describes.
pub acquire-Outcome :
    (resource owner : String) (ttl now : ℕ) (t : List WorkerLease)
    → (r : Option WorkerLease × List WorkerLease) × (acquire resource owner ttl now t ≡ ok r)
      × Outcome resource owner ttl now t r
acquire-Outcome resource owner ttl now t = elim (Option-cases (get resource t)) [
  | inl free ↦ (
    (some (fresh_lease resource owner ttl now), t ++ fresh_lease resource owner ttl now ∷ []),
    acquire_free resource owner ttl now t free,
    free-Outcome resource owner ttl now t free,
  )
  | inr (l, e) ↦ (
    contend resource owner ttl now t l,
    acquire_taken resource owner ttl now t e,
    contend-Outcome resource owner ttl now t l e,
  )
]

-- A call that is not the holder's own, made before the lease runs out.
abbrev pub IsForeign : WorkerLease → ℕ × Call → Type 0
IsForeign l (now, acquires resource owner ttl) = (now < l.expires_at_ms) × (owner ≢ l.owner)
IsForeign l (now, releases resource owner) = owner ≢ l.owner
IsForeign l (now, prunes) = now < l.expires_at_ms

abbrev pub AllForeign : WorkerLease → List (ℕ × Call) → Type 0
AllForeign l [] = Unit {0}
AllForeign l (c ∷ cs) = IsForeign l c × AllForeign l cs

-- A rival's `acquire` leaves a live lease where it is, on its own resource or another.
get-acquire_rival :
    (l : WorkerLease) (resource owner : String) (ttl now : ℕ) (t : List WorkerLease)
    → get l.resource t ≡ some l
    → now < l.expires_at_ms
    → owner ≢ l.owner
    → get l.resource (step t (now, acquires resource owner ttl)) ≡ some l
unfolding step
get-acquire_rival l resource owner ttl now t h live ne =
    let (r, e, o) = acquire-Outcome resource owner ttl now t in rw e (kept r o)
  where
    kept :
        (r : Option WorkerLease × List WorkerLease)
        → Outcome resource owner ttl now t r
        → get l.resource (r.1) ≡ some l
    kept (none, t') o = rw o.0 h
    kept (some m, t') o = elim (Bool-cases (str_eq l.resource resource)) [
      | inl same ↦
          let here : l.resource ≡ resource = (eq_iff l.resource resource).0 same in
          absurd
            (omega (arith, live, o.4 l (subst (λ x. get x t ≡ some l) here h) (λ e. ne (sym e))))
      | inr apart ↦ o.3 l.resource (λ e. cc (apart, (eq_iff l.resource resource).1 e)) ∙ h
    ]

-- While a lease is live, no sequence of other owners' calls moves it: neither `acquire`, nor
-- `release`, nor `prune_expired`.
pub get-run_foreign :
    (l : WorkerLease) (t : List WorkerLease) (cs : List (ℕ × Call))
    → get l.resource t ≡ some l
    → AllForeign l cs
    → get l.resource (run t cs) ≡ some l
unfolding run step release prune_expired get
get-run_foreign l t [] h f = h
get-run_foreign l t (c ∷ cs) h f = get-run_foreign l (step t c) cs (one c f.0) f.1
  where
    one : (c : ℕ × Call) → IsForeign l c → get l.resource (step t c) ≡ some l
    one (now, acquires resource owner ttl) g =
        get-acquire_rival l resource owner ttl now t h g.0 g.1
    one (now, releases resource owner) g =
        select_one-delete_spared (λ x. of_resource resource x && str_eq x.owner owner)
          (of_resource l.resource) l t (ground (arith, eq_iff l.owner owner, g)) h
    one (now, prunes) g =
        select_one-delete_spared (λ x. leb x.expires_at_ms now) (of_resource l.resource) l t
          (ground arith) h
