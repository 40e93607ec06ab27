-- ===== src/Blobs/Paths.antt =====
-- blobs.rs, `post_blob_path`: a client says what stands at a path, and the last writer wins. The lock
-- of the path is held from the first query to the end, so that no other post to the same path stands
-- between two of its statements.
pub mod Spec
pub mod Refinement
pub mod Laws
pub mod Listing
use vaultcrdt_server.Base.{
  ltb, nat_beq, if◌then◌else◌, tests, is_some, is_none, unwrap_or, ◌==◌, nat_eq, list_eq, option_eq,
  pair_eq, length, is_empty, Bytes, Text, codes, ℕ, zero, suc, ◌+◌, ◌-◌, ◌^◌, Bool, true, false,
  not, ◌&&◌, ◌||◌, Option, none, some, [], arith,
}
use vaultcrdt_server.Base.Int.{ℤ, pos, negsuc, ltb_ℤ, int_eq}
use vaultcrdt_server.Base.Sorting.{text_le}
use vaultcrdt_server.Table.{find, put}
use vaultcrdt_server.Errors.{ServerError, Result, ok, err}
use vaultcrdt_server.Db.{Db, PathState, PathStatus, live, deleted}
use vaultcrdt_server.Sql.{Sql, pure, lift, ◌>>=◌, execute, query, transaction}
use vaultcrdt_server.Protocol.{BroadcastEvent}
use vaultcrdt_server.Blobs.Names.{
  is_hash, validate_blob_key, validate_display_path, cap_for_key, last_extension,
}
use vaultcrdt_server.Handlers.Checks.{max_peer_id_bytes}

pub record BlobPathBody : Type 0 where
  pub path_key : Text
  pub display_path : Text
  pub key_version : ℤ
  pub generation : ℤ
  pub state : Text
  pub content_hash : Option Text
  pub size : Option ℤ
  pub peer_id : Text

-- The answers, each with its status code and its body.
pub data PathReply : Type 0 where
  invalid_blob_path : PathReply
  type_cap_exceeded : (max_bytes : ℕ) → PathReply
  accepted : (seq : ℕ) → PathReply
  lost : (current : PathState) → PathReply
  blob_not_uploaded : PathReply
  svg_not_sanitized : PathReply
  svg_invalid : PathReply

pub status_of : PathReply → ℕ
status_of invalid_blob_path = 400
status_of (type_cap_exceeded max_bytes) = 413
status_of (accepted seq) = 200
status_of (lost current) = 409
status_of blob_not_uploaded = 412
status_of svg_not_sanitized = 422
status_of svg_invalid = 422

abbrev pub Posted : Type 0
Posted = PathReply × Option BroadcastEvent

abbrev pub is_negative : ℤ → Bool
is_negative z = ltb_ℤ z (pos 0)

-- `n as u64`, of a number that is not negative
abbrev pub as_u64 : ℤ → ℕ
as_u64 (pos n) = n
as_u64 (negsuc n) = 2 ^ 64 - 1 - n

abbrev pub hash_allowed : Option Text → Bool
hash_allowed none = true
hash_allowed (some h) = is_hash h

unfoldable pub fields_allowed : BlobPathBody → Bool
fields_allowed body =
    not (
      is_empty body.peer_id
      || ltb max_peer_id_bytes (length body.peer_id)
      || is_negative body.generation
      || not (body.key_version == pos 1)
      || not (body.state == codes "live") && not (body.state == codes "deleted")
      || not (validate_blob_key body.path_key)
      || not (validate_display_path body.display_path))
    && not (body.state == codes "live" && (is_none body.content_hash || is_none body.size))
    && hash_allowed body.content_hash

unfoldable pub over_cap : ℕ → Option ℕ → Option PathReply
over_cap size none = none
over_cap size (some max_bytes) =
    if ltb max_bytes size then some (type_cap_exceeded max_bytes) else none

unfoldable pub size_refused : Text → Option ℤ → Option PathReply
unfolding over_cap
size_refused path_key none = none
size_refused path_key (some size) =
    if is_negative size
    then some invalid_blob_path
    else over_cap (as_u64 size) (cap_for_key path_key)

-- The checks before the lock: the answer of the first that fails.
unfoldable pub refused : BlobPathBody → Option PathReply
unfolding fields_allowed size_refused
refused body =
    if fields_allowed body then size_refused body.path_key body.size else some invalid_blob_path

abbrev pub status_named : Text → PathStatus
status_named state = if state == codes "live" then live else deleted

abbrev pub size_stored : Option ℤ → Option ℕ
size_stored none = none
size_stored (some size) = some (as_u64 size)

-- The row that an accepted post writes.
abbrev pub row_of : BlobPathBody → ℕ → ℕ → PathState
row_of body t seq = record {
  display_path = body.display_path;
  key_version = as_u64 body.key_version;
  generation = as_u64 body.generation;
  state = status_named body.state;
  content_hash = body.content_hash;
  size = size_stored body.size;
  peer_id = body.peer_id;
  updated_at = t;
  seq = seq;
}

abbrev pub same_status : PathStatus → PathStatus → Bool
same_status live live = true
same_status live deleted = false
same_status deleted live = false
same_status deleted deleted = true

-- The post says again what stands there.
unfoldable pub repeats : BlobPathBody → PathState → Bool
repeats body cur =
    nat_beq cur.generation (as_u64 body.generation)
    && cur.content_hash == body.content_hash
    && same_status cur.state (status_named body.state)

-- `>` on strings is by bytes, and on pairs by the first and then the second.
abbrev pub text_gt : Text → Text → Bool
text_gt a b = not (text_le a b)

unfoldable pub wins : BlobPathBody → PathState → Bool
wins body cur =
    ltb cur.generation (as_u64 body.generation)
    || nat_beq (as_u64 body.generation) cur.generation
      && (text_gt body.peer_id cur.peer_id
          || body.peer_id == cur.peer_id
            && text_gt (unwrap_or body.content_hash []) (unwrap_or cur.content_hash []))

unfoldable pub next_seq : Db → ℕ × Db
next_seq d = (d.blob_seq + 1, record d { blob_seq = d.blob_seq + 1 })

unfoldable pub write_path : Text → BlobPathBody → ℕ → ℕ → Db → Db
write_path vault_id body seq t d = record d {
  path_states = put (vault_id, body.path_key) (row_of body t seq) d.path_states;
}

unfoldable pub store_path : Text → BlobPathBody → Sql ℕ
unfolding next_seq write_path
store_path vault_id body = transaction (do
  seq ← execute (λ _ d. next_seq d)
  _ ← execute (λ t d. (tt {0}, write_path vault_id body seq t d))
  pure seq)

-- What a read of a blob's file gives.
pub data FileRead : Type 0 where
  contents : Bytes → FileRead
  not_found : FileRead
  failed : FileRead

-- `svg_at_fixpoint` calls svg_hush, which fails or says whether its filter changes the bytes; the file
-- is named by the vault and the hash.
module _ (svg_at_fixpoint : Bytes → Option Bool) (read_blob : Text → Text → FileRead) where
  unfoldable pub svg_fixpoint_error : Bytes → Option PathReply
  svg_fixpoint_error bytes = elim (svg_at_fixpoint bytes) [
    | some true ↦ none
    | some false ↦ some svg_not_sanitized
    | none ↦ some svg_invalid
  ]

  unfoldable pub file_refused : FileRead → Result (Option PathReply)
  unfolding svg_fixpoint_error
  file_refused (contents bytes) = ok (svg_fixpoint_error bytes)
  file_refused not_found = ok (some blob_not_uploaded)
  file_refused failed = err ServerError.io

  -- The check of a live SVG: none passes.
  unfoldable pub svg_refused : Text → BlobPathBody → Result (Option PathReply)
  unfolding file_refused
  svg_refused vault_id body = elim body.content_hash [
    | none ↦ ok none
    | some hash ↦
        if body.state == codes "live" && last_extension body.path_key == some (codes "svg")
        then file_refused (read_blob vault_id hash)
        else ok none
  ]

  abbrev pub has_blob : Text → Text → Db → Bool
  has_blob vault_id hash d = is_some (find (vault_id, hash) d.blobs)

  -- Both 412 tests: a hash that is named has to be uploaded.
  unfoldable pub blob_present : Text → Option Text → Sql Bool
  blob_present vault_id none = pure true
  blob_present vault_id (some hash) = query (λ _ d. has_blob vault_id hash d)

  unfoldable pub publish : Text → BlobPathBody → Option PathReply → Sql Posted
  unfolding store_path
  publish vault_id body (some reply) = pure (reply, none)
  publish vault_id body none = do
    seq ← store_path vault_id body
    lift (ok (accepted seq, some (BroadcastEvent.blob_path_changed vault_id body.path_key seq)))

  unfoldable pub attach : Text → BlobPathBody → Sql Posted
  unfolding blob_present svg_refused publish
  attach vault_id body = do
    present ← blob_present vault_id body.content_hash
    if not present
        then pure (blob_not_uploaded, none)
        else do svg ← lift (svg_refused vault_id body); publish vault_id body svg

  unfoldable pub compete : Text → BlobPathBody → Option PathState → Sql Posted
  unfolding attach repeats wins
  compete vault_id body none = attach vault_id body
  compete vault_id body (some cur) =
      if repeats body cur
      then pure (accepted cur.seq, none)
      else if not (wins body cur)
      then pure (lost cur, none)
      else attach vault_id body

  unfoldable pub post_blob_path : Text → BlobPathBody → Sql Posted
  unfolding refused compete
  post_blob_path vault_id body = elim (refused body) [
    | some reply ↦ pure (reply, none)
    | none ↦ query (λ _ d. find (vault_id, body.path_key) d.path_states) >>= compete vault_id body
  ]
