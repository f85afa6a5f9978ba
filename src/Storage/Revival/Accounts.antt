-- ===== src/Storage/Revival/Accounts.antt =====
-- What `revive_all_dead` does with each of the entries that it has claimed.
use oxana.Base.{ℕ, ◌+◌, String, Option, none, some, List, [], ◌∷◌, ◌++◌, ◌≡◌, refl, sym, ap, arith}
use oxana.Base.Lists.{length}
use mathlib.Core.Path.{subst}
use oxana.Errors.{Result, ok, err}
use oxana.Envelope.{JobEnvelope}
use oxana.Json.{Json}
use oxana.Redis.{Redis}
use oxana.Exec.{Exec, World, pure, attempt, ◌>>=◌}
use oxana.Storage.{StorageInternal}
use oxana.Enqueue.Chunk.{Raw}
use oxana.Enqueue.Requests.{enqueue}
use oxana.Storage.Revival.{Revived, revived, stopped, revive_entries}

module _ ⦃R : Redis⦄ {V : Type 0} (J : Json V) (raw : String → Option Raw) (s : StorageInternal)
    (fuel : ℕ) where
  -- The envelopes among the entries.
  abbrev found : Option (JobEnvelope V) → List (JobEnvelope V) → List (JobEnvelope V)
  found none es = es
  found (some e) es = e ∷ es

  unfoldable pub envelopes : List String → List (JobEnvelope V)
  envelopes [] = []
  envelopes (entry ∷ entries) = found (J.from_str entry) (envelopes entries)

  -- From `w` to `w'`, `enqueue` takes all of these jobs, one after another.
  abbrev pub AllEnqueued : List (JobEnvelope V) → World R.Db → World R.Db → Type 0
  AllEnqueued [] w w' = w' ≡ w
  AllEnqueued (e ∷ es) w w' =
      let (r, between) = enqueue J raw s fuel e w in
      (id : String) × (r ≡ ok id) × AllEnqueued es between w'

  -- All envelopes were taken and counted, beyond `n` from before; or those before an envelope that
  -- `enqueue` refused, which is the first of the entries that are left.
  abbrev pub Accounts : List String → ℕ → World R.Db → Revived → World R.Db → Type 0
  Accounts entries n w (revived count) w' =
      (count ≡ n + length (envelopes entries)) × AllEnqueued (envelopes entries) w w'
  Accounts entries n w (stopped x left) w' =
      (taken : List String) × (first : String) × (rest : List String) × (e : JobEnvelope V)
      × (between : World R.Db) × (entries ≡ taken ++ left)
      × (left ≡ first ∷ rest)
      × (J.from_str first ≡ some e)
      × AllEnqueued (envelopes taken) w between
      × (enqueue J raw s fuel e between ≡ (err x, w'))

  skipped :
      (entry : String) (entries : List String) (n : ℕ) (w w' : World R.Db) (o : Revived)
      → J.from_str entry ≡ none
      → Accounts entries n w o w'
      → Accounts (entry ∷ entries) n w o w'
  unfolding envelopes
  skipped entry entries n w w' (revived count) unread a = rw unread a
  skipped entry entries n w w' (stopped x left) unread
        (taken, first, rest, e, between, split, head, parsed, all, refused) =
      (
        entry ∷ taken,
        first,
        rest,
        e,
        between,
        ap (λ xs. entry ∷ xs) split,
        head,
        parsed,
        rw unread all,
        refused,
      )

  accepted :
      (entry : String) (entries : List String) (job : JobEnvelope V) (id : String) (n : ℕ)
      (w w' : World R.Db) (o : Revived)
      → J.from_str entry ≡ some job
      → (enqueue J raw s fuel job w).0 ≡ ok id
      → Accounts entries (n + 1) (enqueue J raw s fuel job w).1 o w'
      → Accounts (entry ∷ entries) n w o w'
  unfolding envelopes
  accepted entry entries job id n w w' (revived count) parsed done a =
      rw parsed (omega (arith, a.0), (id, done, a.1))
  accepted entry entries job id n w w' (stopped x left) parsed done
        (taken, first, rest, e, between, split, head, first_parsed, all, refused) =
      (
        entry ∷ taken,
        first,
        rest,
        e,
        between,
        ap (λ xs. entry ∷ xs) split,
        head,
        first_parsed,
        rw parsed (id, done, all),
        refused,
      )

  abbrev Accounted : List String → ℕ → World R.Db → Result Revived × World R.Db → Type 0
  Accounted entries n w (r, w') = (o : Revived) × (r ≡ ok o) × Accounts entries n w o w'

  abbrev Later : List String → Type 0
  Later entries =
      (m : ℕ) (w : World R.Db) → Accounted entries m w (revive_entries J raw s fuel entries m w)

  answered :
      (entry : String) (entries : List String) (job : JobEnvelope V) (n : ℕ) (w : World R.Db)
      (answer : Result String) (between : World R.Db)
      → J.from_str entry ≡ some job
      → enqueue J raw s fuel job w ≡ (answer, between)
      → Later entries
      → Accounted (entry ∷ entries) n w (
          (elim answer as (λ _. Exec R.Db Revived) [
            | ok id ↦ revive_entries J raw s fuel entries (n + 1)
            | err x ↦ pure (stopped x (entry ∷ entries))
          ])
            between)
  unfolding pure envelopes
  answered entry entries job n w (ok id) between parsed same later =
      let (o, e, a) = later (n + 1) between in
      (
        o,
        e,
        accepted entry entries job id n w _ o parsed (ap (λ p. p.0) same) (
            subst
              (λ b.
                Accounts entries (n + 1) b o
                  (revive_entries J raw s fuel entries (n + 1) between).1)
              (sym (ap (λ p. p.1) same)) a),
      )
  answered entry entries job n w (err x) between parsed same later = (
    stopped x (entry ∷ entries),
    refl,
    ([], entry, entries, job, w, refl, refl, parsed, refl, same),
  )

  read :
      (entry : String) (entries : List String) (n : ℕ) (found : Option (JobEnvelope V))
      (w : World R.Db)
      → J.from_str entry ≡ found
      → Later entries
      → Accounted (entry ∷ entries) n w (
          (elim found as (λ _. Exec R.Db Revived) [
            | none ↦ revive_entries J raw s fuel entries n
            | some e ↦ attempt (enqueue J raw s fuel e) >>= λ answer. elim answer [
              | ok id ↦ revive_entries J raw s fuel entries (n + 1)
              | err x ↦ pure (stopped x (entry ∷ entries))
            ]
          ])
            w)
  unfolding ◌>>=◌ attempt
  read entry entries n none w e later =
      let (o, same, a) = later n w in (o, same, skipped entry entries n w _ o e a)
  read entry entries n (some job) w e later =
      answered entry entries job n w (enqueue J raw s fuel job w).0 (enqueue J raw s fuel job w).1 e
        refl later

  -- Whatever becomes of its round trips and whatever other clients do, the loop of `revive_all_dead`
  -- comes to a result. Either `enqueue` took every envelope among the entries, one after another, and
  -- the count is raised by their number; or it took those before an envelope that it refused, and the
  -- entries to restore are the last ones, from that envelope on, with the error of the refusal.
  pub revive_entries-Accounts :
      (entries : List String) (n : ℕ) (w : World R.Db)
      → let (r, w') = revive_entries J raw s fuel entries n w in
        (o : Revived) × (r ≡ ok o) × Accounts entries n w o w'
  unfolding revive_entries envelopes pure
  revive_entries-Accounts [] n w = (revived n, refl, (omega arith, refl))
  revive_entries-Accounts (entry ∷ entries) n w =
      read entry entries n (J.from_str entry) w refl (revive_entries-Accounts entries)
