-- ===== src/Enqueue/Lists.antt =====
-- `enqueue_list_chunks` and `enqueue_list` of oxana/src/storage_internal.rs: a list is enqueued in
-- chunks of one hundred.
use oxana.Base.{
  ℕ, zero, suc, ◌≤◌, ◌<◌, String, Option, List, [], ◌∷◌, ◌++◌, map, ◌≡◌, refl, ◌∙◌, ap, arith,
}
use oxana.Base.Lists.{length, take, drop, length-take-le}
use oxana.Envelope.{JobEnvelope}
use oxana.Json.{Json}
use oxana.Redis.{Redis}
use oxana.Exec.{Exec, pure, ◌>>◌}
use oxana.Storage.{StorageInternal, connection}
use oxana.Enqueue.{queue}
use oxana.Enqueue.Chunk.{Raw}
use oxana.Enqueue.Requests.{enqueue_chunks}

module _ {ℓ} {A : Type ℓ} where
  -- `slice::chunks`: no chunk is empty, and there are at most as many as entries.
  abbrev chunks : ℕ → ℕ → List A → List (List A)
  chunks size zero xs = []
  chunks size (suc n) [] = []
  chunks size (suc n) (x ∷ xs) = take size (x ∷ xs) ∷ chunks size n (drop size (x ∷ xs))

  unfoldable pub enqueue_list_chunks : List A → List (List A)
  enqueue_list_chunks xs = chunks 100 (length xs) xs

  abbrev pub concat : List (List A) → List A
  concat [] = []
  concat (c ∷ cs) = c ++ concat cs

  -- Each chunk has an entry, and at most `size`.
  abbrev pub Sized : ℕ → List (List A) → Type 0
  Sized size [] = Unit {0}
  Sized size (c ∷ cs) = (0 < length c) × (length c ≤ size) × Sized size cs

  take-drop : (n : ℕ) (xs : List A) → take n xs ++ drop n xs ≡ xs
  take-drop zero xs = refl
  take-drop (suc n) [] = refl
  take-drop (suc n) (x ∷ xs) = ap (λ ys. x ∷ ys) (take-drop n xs)

  length-drop : (n : ℕ) (xs : List A) → length (drop n xs) ≤ length xs
  length-drop zero xs = omega arith
  length-drop (suc n) [] = omega arith
  length-drop (suc n) (x ∷ xs) = omega (arith, length-drop n xs)

  concat-chunks : (size n : ℕ) (xs : List A) → length xs ≤ n → concat (chunks (suc size) n xs) ≡ xs
  concat-chunks size zero [] h = refl
  concat-chunks size zero (x ∷ xs) h = absurd (omega arith)
  concat-chunks size (suc n) [] h = refl
  concat-chunks size (suc n) (x ∷ xs) h =
      ap (λ ys. take (suc size) (x ∷ xs) ++ ys)
        (concat-chunks size n (drop size xs) (let l = length-drop size xs in omega arith))
      ∙ take-drop (suc size) (x ∷ xs)

  chunks-Sized : (size n : ℕ) (xs : List A) → Sized (suc size) (chunks (suc size) n xs)
  chunks-Sized size zero xs = tt
  chunks-Sized size (suc n) [] = tt
  chunks-Sized size (suc n) (x ∷ xs) =
      (omega arith, length-take-le (suc size) (x ∷ xs), chunks-Sized size n (drop size xs))

  -- The chunks of a list are the list in order, and each has from one to one hundred entries.
  pub enqueue_list_chunks-whole :
      (xs : List A) → (concat (enqueue_list_chunks xs) ≡ xs) × Sized 100 (enqueue_list_chunks xs)
  unfolding enqueue_list_chunks
  enqueue_list_chunks-whole xs =
      (concat-chunks 99 (length xs) xs (omega arith), chunks-Sized 99 (length xs) xs)

module _ ⦃R : Redis⦄ {V : Type 0} (J : Json V) (raw_queue : String → Option Raw)
    (s : StorageInternal) where
  unfoldable pub enqueue_list : ℕ → List (JobEnvelope V) → Exec R.Db (List String)
  unfolding enqueue_list_chunks
  enqueue_list fuel [] = pure []
  enqueue_list fuel (e ∷ es) = do
    connection
    enqueue_chunks J raw_queue s fuel queue (enqueue_list_chunks (e ∷ es)) []
    pure (map (λ x. x.id) (e ∷ es))
