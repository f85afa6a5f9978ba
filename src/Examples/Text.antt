-- ===== src/Examples/Text.antt =====
-- A text for envelopes whose arguments are texts, which stands for serde_json in the examples.
use oxana.Base.{ℕ, String, Bool, Option, none, some, ◌≡◌, refl, ap, ◌∙◌}
use oxana.Envelope.{JobEnvelope, JobMeta, JobConflictStrategy, is_replace}
use oxana.Json.{Json, without_null}
use oxana.Examples.Codec.{Codec, number, text, truth, pair, along, optional, read_text}

abbrev to_strategy : Bool → JobConflictStrategy
to_strategy Bool.false = JobConflictStrategy.skip
to_strategy Bool.true = JobConflictStrategy.replace

pub to-is_replace : (c : JobConflictStrategy) → to_strategy (is_replace c) ≡ c
to-is_replace JobConflictStrategy.skip = refl
to-is_replace JobConflictStrategy.replace = refl

abbrev Parts : Type 0
Parts =
    (String × (Option Bool × (ℕ × Bool)))
    × ((Option JobConflictStrategy × (ℕ × (ℕ × Option ℕ)))
        × (Option String × (Bool × (Option String × Option ℕ))))

abbrev meta_of : Parts → JobMeta String
meta_of
      (
        (id, (on_demand, (retries, unique))),
        (
          (on_conflict, (created_at, (scheduled_at, started_at))),
          (state, (resurrect, (error, throttle_cost))),
        ),
      ) =
    record {
      id = id;
      on_demand = on_demand;
      retries = retries;
      unique = unique;
      on_conflict = on_conflict;
      created_at = created_at;
      scheduled_at = scheduled_at;
      started_at = started_at;
      state = state;
      resurrect = resurrect;
      error = error;
      throttle_cost = throttle_cost;
    }

abbrev parts_of : JobMeta String → Parts
parts_of m = (
  (m.id, (m.on_demand, (m.retries, m.unique))),
  (
    (m.on_conflict, (m.created_at, (m.scheduled_at, m.started_at))),
    (m.state, (m.resurrect, (m.error, m.throttle_cost))),
  ),
)

unfoldable pub strategy : Codec JobConflictStrategy
strategy = along truth to_strategy is_replace to-is_replace

unfoldable pub job_meta : Codec (JobMeta String)
unfolding strategy
job_meta =
    along
      (pair (pair text (pair (optional truth) (pair number truth))) (
        pair (pair (optional strategy) (pair number (pair number (optional number))))
          (pair (optional text) (pair truth (pair (optional text) (optional number))))))
      meta_of parts_of (λ m. refl)

abbrev envelope_of : (String × (String × (String × String))) × JobMeta String → JobEnvelope String
envelope_of ((id, (name, (args, queue))), meta) = record {
  id = id;
  job = record { name = name; args = args };
  queue = queue;
  meta = meta;
}

abbrev fields_of : JobEnvelope String → (String × (String × (String × String))) × JobMeta String
fields_of e = ((e.id, (e.job.name, (e.job.args, e.queue))), e.meta)

unfoldable pub envelope : Codec (JobEnvelope String)
unfolding job_meta
envelope =
    along (pair (pair text (pair text (pair text text))) job_meta) envelope_of fields_of (λ e. refl)

abbrev whole : Option (JobEnvelope String × String) → Option (JobEnvelope String)
whole none = none
whole (some (e, rest)) = some e

-- No envelope is read from the empty text.
envelope-empty : whole (envelope.read "") ≡ none
unfolding envelope job_meta pair along text read_text
envelope-empty = refl

-- No text is null.
kept : (o : Option String) → o ≡ without_null (λ v. Bool.false) o
kept none = refl
kept (some v) = refl

abbrev with_state : JobEnvelope String → Option String → JobEnvelope String
with_state e o = let meta : JobMeta String = e.meta in record e { meta = record meta { state = o } }

pub json : Json String
json = record {
  to_string = λ e. envelope.write e "";
  from_str = λ s. whole (envelope.read s);
  is_null = λ v. Bool.false;
  from_str-to_string = λ e.
      ap whole (envelope.read-write e "") ∙ ap (λ o. some (with_state e o)) (kept e.meta.state);
  from_str-empty = envelope-empty;
}
