-- ===== src/Enqueue/Chunk.antt =====
-- What `enqueue_chunk_w_conn` of oxana/src/storage_internal.rs computes before it asks the server.
-- `raw_queue` is the part of serde_json that finds the text of the field `queue` in a payload. The
-- hash sets and maps are lists here, in the order of insertion.
use Prim.Native.String.{len, slice}
use oxana.Base.{
  ℕ, ◌+◌, ◌-◌, String, Bool, false, Option, none, some, List, [], ◌∷◌, ◌&&◌, ◌||◌, str_eq, not, leb,
  if◌then◌else◌,
}
use oxana.Base.Lists.{elem}
use oxana.Errors.{Result, ok, err, json_error}
use oxana.Envelope.{JobEnvelope, is_replace}
use oxana.Enqueue.{Conflict, default, replace, skip, exact, suffix, prefix, EnqueueSnapshot, lookup}

-- Where the text of the field stands in the payload, and the queue that it names.
pub record Raw : Type 0 where
  pub offset : ℕ
  pub length : ℕ
  pub queue : Option String

abbrev queue_key_text : String
queue_key_text = ",\"queue\":"

abbrev start_of : String → ℕ → Option ℕ
start_of payload offset =
    if leb (len queue_key_text) offset
      && str_eq (slice payload (offset - len queue_key_text) offset) queue_key_text
    then some (offset - len queue_key_text)
    else none

abbrev snapshot_at : String → String → ℕ → Option ℕ → EnqueueSnapshot
snapshot_at payload q end none = record { expected = payload; queue = q; comparison = exact }
snapshot_at payload q end (some start) =
    if leb end (len payload - start)
    then record { expected = slice payload 0 end; queue = q; comparison = prefix }
    else record { expected = slice payload start (len payload); queue = q; comparison = suffix }

abbrev parse_named : String → Raw → Option String → Result EnqueueSnapshot
parse_named payload raw none = err json_error
parse_named payload raw (some q) =
    ok (snapshot_at payload q (raw.offset + raw.length) (start_of payload raw.offset))

-- `EnqueueSnapshot::parse`
unfoldable pub parse_snapshot : (String → Option Raw) → String → Result EnqueueSnapshot
parse_snapshot raw_queue payload = elim (raw_queue payload) [
  | none ↦ err json_error
  | some raw ↦ parse_named payload raw raw.queue
]

module _ {V : Type 0} where
  abbrev pub replaces : JobEnvelope V → Bool
  replaces e = elim e.meta.on_conflict [ none ↦ false | some c ↦ is_replace c ]

  -- A unique job that gives way to one that is there.
  abbrev pub skips : JobEnvelope V → Bool
  skips e = e.meta.unique && not (replaces e)

  abbrev pub any_unique : List (JobEnvelope V) → Bool
  any_unique [] = false
  any_unique (e ∷ es) = e.meta.unique || any_unique es

  -- A job that was written in this request, or stands before in this chunk, is left out.
  unfoldable pub pending_of :
      List String → List String → List (JobEnvelope V) → List (JobEnvelope V)
  pending_of written seen [] = []
  pending_of written seen (e ∷ es) =
      let after = pending_of written (e.id ∷ seen) es in
      let without = pending_of written seen es in
      if skips e && (elem e.id written || elem e.id seen) then without else e ∷ after

  -- The identifiers whose stored payload a chunk replaces without having written it.
  unfoldable pub replacement_ids : List String → List (JobEnvelope V) → List String
  replacement_ids overwritten [] = []
  replacement_ids overwritten (e ∷ es) =
      let after = replacement_ids (e.id ∷ overwritten) es in
      let same = replacement_ids overwritten es in
      if skips e || elem e.id overwritten
      then same
      else if e.meta.unique
      then e.id ∷ after
      else after

  abbrev pub conflict_of : JobEnvelope V → Conflict
  conflict_of e = if not e.meta.unique then default else if replaces e then replace else skip

abbrev pub Snapshots : Type 0
Snapshots = List (String × Option EnqueueSnapshot)

unfoldable pub parse_snapshots :
    (String → Option Raw) → List (String × Option String) → Result Snapshots
unfolding parse_snapshot
parse_snapshots raw_queue [] = ok []
parse_snapshots raw_queue ((id, none) ∷ rest) = elim (parse_snapshots raw_queue rest) [
  | err e ↦ err e
  | ok ss ↦ ok ((id, none) ∷ ss)
]
parse_snapshots raw_queue ((id, some payload) ∷ rest) = elim (parse_snapshot raw_queue payload) [
  | err e ↦ err e
  | ok s ↦ elim (parse_snapshots raw_queue rest) [ err e ↦ err e | ok ss ↦ ok ((id, some s) ∷ ss) ]
]

-- A changed snapshot takes the place of the one of the same identifier.
unfoldable pub update_snapshots : Snapshots → Snapshots → Snapshots
update_snapshots changed [] = []
update_snapshots changed ((id, old) ∷ rest) = elim (lookup id changed) [
  | none ↦ (id, old) ∷ update_snapshots changed rest
  | some new ↦ (id, new) ∷ update_snapshots changed rest
]
