-- ===== src/Registry/Names.antt =====
-- The names of oxana/src/worker_registry.rs after registrations.
use mathlib.Core.Path.{subst}
use oxana.Base.{
  ap, some_inj, ◌⊎◌, inl, inr, String, Bool, true, false, Option, none, some, List, [], ◌∷◌, ◌≡◌,
  refl, ◌∙◌, str_eq, eq_refl, eq_iff, is_some, unwrap_or, if◌then◌else◌,
}
use oxana.Registry.{
  WorkerRegistry, WorkerConfig, WorkerConfigKind, normal, cron, alias_of, register_legacy_name,
  register_legacy_names, registered, scheduled_as, with_legacy_names, register_worker_with,
  resolve_name, factories_for,
}

legacy_lem :
    {F : Type 0} (job : Option F) (old : Option String) (same : Bool) (canonical target : String)
    → (old ≡ some target → job ≡ none)
    → alias_of job old same canonical ≡ some target
    → job ≡ none
legacy_lem (some f) old same canonical target h e = h e
legacy_lem none old same canonical target h e = refl

chosen :
    (b : Bool) (v old : Option String) (target : String)
    → (if b then v else old) ≡ some target
    → ((b ≡ true) × (v ≡ some target)) ⊎ ((b ≡ false) × (old ≡ some target))
chosen true v old target e = inl (refl, e)
chosen false v old target e = inr (refl, e)

module _ {F On : Type 0} where
  -- No name is both a job and an alias of one.
  abbrev pub DistinctNames : WorkerRegistry F On → Type 0
  DistinctNames r = (name target : String) → r.aliases name ≡ some target → r.jobs name ≡ none

  register_legacy_name-Distinct :
      (canonical legacy : String) (r : WorkerRegistry F On)
      → DistinctNames r
      → DistinctNames (register_legacy_name canonical legacy r)
  unfolding register_legacy_name
  register_legacy_name-Distinct canonical legacy r d name target e =
      elim (chosen (str_eq legacy name) _ (r.aliases name) target e) [
        | inl (same, new) ↦
            subst (λ k. r.jobs k ≡ none) ((eq_iff legacy name).0 same)
              (legacy_lem (r.jobs legacy) (r.aliases legacy) _ canonical target (d legacy target)
                new)
        | inr (_, old) ↦ d name target old
      ]

  registered-Distinct :
      (c : WorkerConfig F On) (r : WorkerRegistry F On)
      → DistinctNames r
      → DistinctNames (registered c r)
  unfolding registered
  registered-Distinct c r d name target e =
      elim (chosen (str_eq c.name name) none (r.aliases name) target e) [
        | inl (_, new) ↦ cc
        | inr (other, old) ↦ rw other (d name target old)
      ]

  -- The jobs are as they were, and the names distinct.
  legacy_names-Distinct :
      (canonical : String) (names : List String) (r : WorkerRegistry F On)
      → DistinctNames r
      → DistinctNames (register_legacy_names canonical names r)
        × ((register_legacy_names canonical names r).jobs ≡ r.jobs)
  unfolding register_legacy_names register_legacy_name
  legacy_names-Distinct canonical [] r d = (d, refl)
  legacy_names-Distinct canonical (legacy ∷ names) r d =
      legacy_names-Distinct canonical names (register_legacy_name canonical legacy r)
        (register_legacy_name-Distinct canonical legacy r d)

  abbrev Registered : WorkerConfig F On → WorkerRegistry F On → Type 0
  Registered c r = DistinctNames r × (r.jobs c.name ≡ some c.factories)

  with_names :
      (c : WorkerConfig F On) (before : Option (WorkerRegistry F On))
      → ((r : WorkerRegistry F On) → before ≡ some r → Registered c r)
      → (after : WorkerRegistry F On) → with_legacy_names c.name c.legacy_names before ≡ some after
      → Registered c after
  with_names c none h after e = cc
  with_names c (some r) h after e =
      let k = h r refl in
      let l = legacy_names-Distinct c.name c.legacy_names r k.0 in
      subst (Registered c) (some_inj e) (l.0, ap (λ jobs. jobs c.name) l.1 ∙ k.1)

  scheduled :
      (kind : WorkerConfigKind) (c : WorkerConfig F On) (r : WorkerRegistry F On)
      → Registered c r
      → (after : WorkerRegistry F On) → scheduled_as kind c.name r ≡ some after
      → Registered c after
  scheduled normal c r h after e = subst (Registered c) (some_inj e) h
  scheduled (cron none) c r h after e = cc
  scheduled (cron (some job)) c r h after e = subst (Registered c) (some_inj e) h

  found :
      (c : WorkerConfig F On) (r : WorkerRegistry F On)
      → r.jobs c.name ≡ some c.factories
      → factories_for r c.name ≡ some c.factories
  unfolding factories_for resolve_name
  found c r h =
      ap (λ o. r.jobs (if is_some o then c.name else unwrap_or (r.aliases c.name) c.name)) h ∙ h

  registered_job :
      (c : WorkerConfig F On) (r : WorkerRegistry F On)
      → (registered c r).jobs c.name ≡ some c.factories
  unfolding registered
  registered_job c r = rw (eq_refl c.name)

  tested :
      (b : Bool) (c : WorkerConfig F On) (x : Option (WorkerRegistry F On))
      (after : WorkerRegistry F On)
      → (if b then x else none) ≡ some after
      → x ≡ some after
  tested true c x after e = e
  tested false c x after e = cc

  -- A registration that does not panic, on names that are distinct, leaves no name that is both a
  -- job and an alias, and the name of its job finds its factories.
  pub register_worker_with-found :
      (c : WorkerConfig F On) (typed : Bool) (r after : WorkerRegistry F On)
      → DistinctNames r
      → register_worker_with c typed r ≡ some after
      → DistinctNames after × (factories_for after c.name ≡ some c.factories)
  unfolding register_worker_with
  register_worker_with-found c typed r after d e =
      let h =
        with_names c (scheduled_as c.kind c.name (registered c r))
          (λ x.
            scheduled c.kind c (registered c r) (registered-Distinct c r d, registered_job c r) x)
          after (tested _ c _ after e) in
      (h.0, found c after h.1)
