-- ===== src/Json.antt =====
-- serde_json, which the repository calls and does not contain: the JSON text of an envelope, and
-- what is read back from a text. Reading the text of an envelope gives that envelope, but for a state
-- that is the JSON null: that is read as no state. The empty text is no JSON.
use oxana.Base.{String, Bool, Option, none, some, ◌≡◌, if◌then◌else◌}
use oxana.Envelope.{JobEnvelope, JobMeta}

abbrev pub without_null : {V : Type 0} → (V → Bool) → Option V → Option V
without_null is_null none = none
without_null is_null (some state) = if is_null state then none else some state

abbrev pub reread : {V : Type 0} → (V → Bool) → JobEnvelope V → JobEnvelope V
reread {V} is_null e =
    let meta : JobMeta V = e.meta in
    record e { meta = record meta { state = without_null is_null meta.state } }

pub record Json (V : Type 0) : Type 0 where
  pub to_string : JobEnvelope V → String
  pub from_str : String → Option (JobEnvelope V)
  pub is_null : V → Bool
  pub from_str-to_string : (e : JobEnvelope V) → from_str (to_string e) ≡ some (reread is_null e)
  pub from_str-empty : from_str "" ≡ none
