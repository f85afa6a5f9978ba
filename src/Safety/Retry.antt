-- ===== src/Safety/Retry.antt =====
-- `retry_in` of oxana/src/storage_internal.rs. It reads the payload in one round trip and drops the
-- claim of an absent one in the next: no other client may store the payload between.
use oxana.Base.{ℕ, ◌+◌, ◌*◌, String, Bool, true, false, Option, none, some, ◌≡◌, ◌≢◌, refl, ◌∙◌}
use oxana.Redis.{Redis}
use oxana.Errors.{json_error, ok, err}
use oxana.Envelope.{JobEnvelope, with_retries_incremented}
use oxana.Json.{Json, reread}
use oxana.Keys.{namespace_queue}
use oxana.Exec.{Exec, round_trip}
use oxana.Exec.Triple.{
  Outcome, Triple, Stable, Triple-pure, Triple-fail, Triple-round_trip, Triple-bind,
}
use oxana.Scripts.{hget, checked, retry_failed}
use oxana.Safety.Scripts.{Safe}
use oxana.Safety.Commands.{retry_failed-Safe, lrem_one-Safe}
use oxana.Safety.Operations.{LosesNone, outcome, Queued, seq, send, claimed_connection-Safe}
use oxana.Storage.{
  StorageInternal, lrem_one, current_processing_queue, parse, lift, get_job_w_conn, retry_in, u64,
}

module _ ⦃R : Redis⦄ {V : Type 0} (J : Json V) (s : StorageInternal) (G : (R.Db → R.Db) → Type 0)
    (stable : Stable G (Safe J s.keys) (Safe J s.keys)) (id : String) where
  abbrev pub Gone : R.Db → Type 0
  Gone d = hget d s.keys.jobs id ≡ none

  abbrev Read : Option String → R.Db → Type 0
  Read none d = Gone d × Safe J s.keys d
  Read (some p) d = Queued J s G stable (some p) × Safe J s.keys d

  abbrev pub Found : Option (JobEnvelope V) → R.Db → Type 0
  Found none d = Gone d × Safe J s.keys d
  Found (some e) d = (namespace_queue s.keys e.queue ≢ s.keys.dead) × Safe J s.keys d

  read_lem :
      (payload : Option String) (d : R.Db)
      → hget d s.keys.jobs id ≡ payload
      → Safe J s.keys d
      → Read payload d
  read_lem none d e p = (e, p)
  read_lem (some payload) d e p = ((λ t x same parsed. p.queued id t x (e ∙ same) parsed), p)

  read :
      (d : R.Db) (fits : Bool)
      → Safe J s.keys d
      → let r = checked fits (ok (hget d s.keys.jobs id), d) d in
        Outcome Read (Safe J s.keys) r.0 r.1
  unfolding checked
  read d true p = (read_lem _ d refl p, p)
  read d false p = p

  parsed :
      (found : Option (JobEnvelope V)) (payload : String)
      → J.from_str payload ≡ found
      → Queued J s G stable (some payload)
      → Triple G
          (Safe J s.keys)
          (Safe J s.keys)
          (lift (elim found [ none ↦ err json_error | some e ↦ ok (some e) ]))
          Found
  parsed none payload e queued = Triple-fail G _ json_error _ λ d p. p
  parsed (some x) payload e queued =
      Triple-pure G _ (some x) _ λ d p. ((queued payload x refl e, p), p)

  lift_lem :
      (payload : Option String)
      → Triple G (Safe J s.keys) (Read payload) (lift (parse J payload)) Found
  lift_lem none = Triple-pure G _ none _ λ d p. (p, p.1)
  lift_lem (some payload) = record {
    at = λ w p g. (parsed (J.from_str payload) payload refl p.0).at w p.1 g;
  }

  get_job_w_conn-Found : Triple G (Safe J s.keys) (Safe J s.keys) (get_job_w_conn J s id) Found
  unfolding get_job_w_conn
  get_job_w_conn-Found =
      Triple-bind G _ _ _ _ (Triple-round_trip G _ _ _ stable (λ d p. p) λ d p. read d _ p) lift_lem

  module _ (error : String) (now delay_s : ℕ)
      (gone_stable : Stable G (Safe J s.keys) (Found none)) where
    abbrev decide : Option (JobEnvelope V) → Exec R.Db (Unit {0})
    decide none = round_trip (lrem_one (current_processing_queue s) id)
    decide (some e) =
        let e' = with_retries_incremented e error in
        round_trip (
          retry_failed s.keys.jobs s.keys.retry (current_processing_queue s) e'.id (J.to_string e')
            (u64 (now + delay_s * 1000000)))

    decide-Safe :
        (found : Option (JobEnvelope V))
        → Triple G (Safe J s.keys) (Found found) (decide found) (λ _ d. Unit {0} × Safe J s.keys d)
    unfolding with_retries_incremented
    decide-Safe none =
        Triple-round_trip G _ _ _ gone_stable (λ d p. p.1)
          λ d p. outcome J s G stable _ _ (lrem_one-Safe J s.keys _ id d p.0 p.1).at
    decide-Safe (some e) = record {
      at = λ w p g.
          (send J s G stable _ λ d q.
              retry_failed-Safe J s.keys _ _ _ _
                (reread J.is_null (with_retries_incremented e error)) d (J.from_str-to_string _) p.0
                q).at
            w p.1 g;
    }

    pub retry_in-Safe : LosesNone J s G stable (retry_in J s id delay_s error now) (λ _. Unit {0})
    unfolding retry_in
    retry_in-Safe =
        seq J s G stable _ _ (claimed_connection-Safe J s G stable)
          λ _ _. Triple-bind G _ _ _ _ get_job_w_conn-Found decide-Safe
