-- ===== src/Blobs/Uploads/Create.antt =====
-- blobs.rs, `create_upload`: who may open an upload, and its file and row. `upload_id` is the UUID that
-- is drawn.
use vaultcrdt_server.Base.{
  ltb, leb, if◌then◌else◌, nat_eq, list_eq, option_eq, pair_eq, ◌==◌, is_some, is_none, Text, ℕ,
  ◌+◌, ◌-◌, Bool, true, false, not, ◌&&◌, ◌||◌, Option, none, some, List, [], ◌∷◌,
}
use vaultcrdt_server.Base.Int.{ℤ, pos, negsuc}
use vaultcrdt_server.Table.{find, put, count_where, select_where}
use vaultcrdt_server.Errors.{Result, ok, err, or_fail}
use vaultcrdt_server.Db.{Db, Vault, Upload}
use vaultcrdt_server.Sql.{execute, query, lift, db_failed}
use vaultcrdt_server.Blobs.Disk.{
  World, Io, pure, meanwhile, raise, sql, ◌>>=◌, ◌>>◌, attempt, ignore, sync, create_tmp,
  remove_tmp,
}
use vaultcrdt_server.Blobs.Names.{is_hash}
use vaultcrdt_server.Blobs.Uploads.{
  absolute_max, UploadReply, is_expired, saturating_add, invalid_hash_or_size, exists,
  type_cap_exceeded, too_many_uploads, quota_exceeded, created,
}

abbrev pub max_open_uploads : ℕ
max_open_uploads = 4

abbrev pub is_open : Text → ℕ → Upload → Bool
is_open vault_id now u = u.vault_id == vault_id && not (is_expired now u)

abbrev pub open_count : Text → ℕ → Db → ℕ
open_count vault_id now d = count_where (λ id u. is_open vault_id now u) d.uploads

abbrev pub sum : List ℕ → ℕ
sum [] = 0
sum (n ∷ ns) = n + sum ns

abbrev pub stored_bytes : Text → Db → ℕ
stored_bytes vault_id d = sum (select_where (λ k b. k.0 == vault_id) (λ k b. b.size) d.blobs)

-- What the open uploads still lack. A row has never received more than it claimed.
abbrev pub inflight_bytes : Text → ℕ → Db → ℕ
inflight_bytes vault_id now d = sum (
    select_where (λ id u. is_open vault_id now u) (λ id u. u.size_claimed - u.received_bytes)
      d.uploads)

-- A quota of 0 is none, a positive one holds, and else the server's default does.
unfoldable pub effective_quota : ℕ → Option ℤ → ℕ
effective_quota default_quota_bytes none = default_quota_bytes
effective_quota default_quota_bytes (some (pos n)) = n
effective_quota default_quota_bytes (some (negsuc n)) = default_quota_bytes

abbrev pub quota_of : Option Vault → Option ℤ
quota_of none = none
quota_of (some v) = v.quota_bytes

abbrev pub vault_quota : Text → Db → Option ℤ
vault_quota vault_id d = quota_of (find vault_id d.vaults)

abbrev pub new_upload : Text → Text → ℕ → ℕ → Upload
new_upload vault_id hash size t = record {
  vault_id = vault_id;
  hash_claimed = hash;
  size_claimed = size;
  received_bytes = 0;
  created_at = t;
  updated_at = t;
}

-- INSERT INTO blob_uploads, which a row with this id makes fail.
abbrev pub inserted : Text → Text → Text → ℕ → ℕ → Db → Option (Unit {0}) × Db
inserted vault_id upload_id hash size t d =
    if is_none (find upload_id d.uploads)
    then (some tt, record d { uploads = put upload_id (new_upload vault_id hash size t) d.uploads })
    else (none, d)

unfoldable pub insert_upload : Text → Text → Text → ℕ → Io (Unit {0})
insert_upload vault_id upload_id hash size = do
  done ← sql (execute (inserted vault_id upload_id hash size))
  sql (lift (or_fail done db_failed))

abbrev pub undo : Text → Result (Unit {0}) → Io (Unit {0})
undo upload_id (ok done) = pure tt
undo upload_id (err e) = ignore (remove_tmp upload_id) >> raise e

-- The file and then the row of a new upload; the file goes where the row fails.
unfoldable pub open_upload : Text → Text → Text → ℕ → Io UploadReply
unfolding insert_upload
open_upload vault_id upload_id hash size = do
  sync
  create_tmp upload_id
  done ← attempt (insert_upload vault_id upload_id hash size)
  undo upload_id done
  pure (created upload_id)

-- The quota, where there is one.
unfoldable pub over_quota : Text → ℕ → ℕ → Io Bool
over_quota vault_id effective size =
    if ltb 0 effective
    then (do
      held ← sql (query (λ _ d. stored_bytes vault_id d))
      inflight ← sql (query (λ now d. inflight_bytes vault_id now d))
      pure (ltb effective (saturating_add (saturating_add held inflight) size)))
    else pure false

-- The first use of the connection: whether the blob is there already.
unfoldable pub blob_exists : Text → Text → Io Bool
blob_exists vault_id hash = sql (query (λ _ d. is_some (find (vault_id, hash) d.blobs)))

-- The second one, behind the largest cap: no answer lets `create_upload` go on.
unfoldable pub admit_upload : ℕ → Text → ℕ → Io (Option UploadReply)
unfolding over_quota effective_quota
admit_upload default_quota_bytes vault_id size =
    if ltb absolute_max size then pure (some type_cap_exceeded) else do
      count ← sql (query (λ now d. open_count vault_id now d))
      if leb max_open_uploads count then pure (some too_many_uploads) else do
        quota ← sql (query (λ _ d. vault_quota vault_id d))
        over ← over_quota vault_id (effective_quota default_quota_bytes quota) size
        if over
            then pure (some (quota_exceeded (effective_quota default_quota_bytes quota)))
            else pure none

-- `between` and `later` are what other requests do while the connection is given back: after the first
-- use of it, and before the file is made.
module _ (default_quota_bytes : ℕ) (between later : World → World)
    (vault_id upload_id hash : Text) where
  unfoldable pub open_admitted : ℕ → Option UploadReply → Io UploadReply
  unfolding open_upload
  open_admitted size (some reply) = pure reply
  open_admitted size none = meanwhile later >> open_upload vault_id upload_id hash size

  unfoldable pub create_absent : ℕ → Bool → Io UploadReply
  unfolding admit_upload open_admitted
  create_absent size true = pure exists
  create_absent size false = do
    meanwhile between
    refused ← admit_upload default_quota_bytes vault_id size
    open_admitted size refused

  -- `upload_id` is the UUID that is drawn.
  unfoldable pub create_upload : ℤ → Io UploadReply
  unfolding blob_exists create_absent
  create_upload (negsuc n) = pure invalid_hash_or_size
  create_upload (pos size) =
      if not (is_hash hash) || leb size 0
      then pure invalid_hash_or_size
      else (do have ← blob_exists vault_id hash; create_absent size have)
