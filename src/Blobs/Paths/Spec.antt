-- ===== src/Blobs/Paths/Spec.antt =====
-- What a post to a path comes to, without statements and faults: from the row of the path, the blobs
-- that are uploaded, and the counter.
use vaultcrdt_server.Base.{
  if◌then◌else◌, is_some, nat_eq, list_eq, option_eq, pair_eq, Bytes, Text, ℕ, ◌+◌, Bool, true, not,
  Option, none, some,
}
use vaultcrdt_server.Table.{find}
use vaultcrdt_server.Errors.{Result, ok, err}
use vaultcrdt_server.Db.{Db, PathState}
use vaultcrdt_server.Protocol.{BroadcastEvent}
use vaultcrdt_server.Blobs.Paths.{
  BlobPathBody, PathReply, accepted, lost, blob_not_uploaded, Posted, FileRead, refused, repeats,
  wins, next_seq, write_path, svg_refused,
}
use vaultcrdt_server.Sql.Refines.{Spec}
use vaultcrdt_server.Sql.Transactions.{mapped}

-- The row is written under the number that the counter goes to.
abbrev pub published : Text → BlobPathBody → Spec ℕ
published v body t d = (ok (d.blob_seq + 1), write_path v body (d.blob_seq + 1) t (next_seq d).1)

abbrev pub present_in : Text → Option Text → Db → Bool
present_in v none d = true
present_in v (some hash) d = is_some (find (v, hash) d.blobs)

module _ (svg_at_fixpoint : Bytes → Option Bool) (read_blob : Text → Text → FileRead) (v : Text)
    (body : BlobPathBody) where
  abbrev pub announced : ℕ → Result Posted
  announced seq = ok (accepted seq, some (BroadcastEvent.blob_path_changed v body.path_key seq))

  abbrev pub svg_end : Result (Option PathReply) → Spec Posted
  svg_end (err e) t d = (err e, d)
  svg_end (ok (some reply)) t d = (ok (reply, none), d)
  svg_end (ok none) t d = mapped announced (published v body t d)

  -- Nothing stands in the way of the post but its own blob.
  abbrev pub attached : Spec Posted
  attached t d =
      if not (present_in v body.content_hash d)
      then (ok (blob_not_uploaded, none), d)
      else svg_end (svg_refused svg_at_fixpoint read_blob v body) t d

  abbrev pub competed : Option PathState → Spec Posted
  competed none t d = attached t d
  competed (some cur) t d =
      if repeats body cur
      then (ok (accepted cur.seq, none), d)
      else if not (wins body cur)
      then (ok (lost cur, none), d)
      else attached t d

  abbrev pub posted_unless : Option PathReply → Spec Posted
  posted_unless (some reply) t d = (ok (reply, none), d)
  posted_unless none t d = competed (find (v, body.path_key) d.path_states) t d

  abbrev pub posted : Spec Posted
  posted = posted_unless (refused body)
