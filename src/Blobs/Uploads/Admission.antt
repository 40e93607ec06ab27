-- ===== src/Blobs/Uploads/Admission.antt =====
-- blobs.rs, `create_upload`: what holds of a new upload, each part as it is at the end of the use of the
-- connection that checks it.
use vaultcrdt_server.Base.{
  leb, nat_eq, list_eq, option_eq, pair_eq, is_some, Text, ℕ, ◌-◌, ◌^◌, ◌≤◌, ◌<◌, ◌≡◌, refl, sym,
  ◌∙◌, subst, if◌then◌else◌, Bool, true, false, not, ◌||◌, Option, none, some, arith,
}
use vaultcrdt_server.Base.Int.{ℤ, pos, negsuc}
use vaultcrdt_server.Blobs.Names.{is_hash}
use vaultcrdt_server.Table.{find}
use vaultcrdt_server.Errors.{ok}
use vaultcrdt_server.Blobs.Disk.{World, pure, meanwhile, ◌>>=◌}
use vaultcrdt_server.Blobs.Disk.Triples.{view}
use vaultcrdt_server.Blobs.Disk.Reading.{query-Reading, returned}
use vaultcrdt_server.Blobs.Uploads.{UploadReply, created, invalid_hash_or_size}
use vaultcrdt_server.Blobs.Uploads.Create.{
  blob_exists, admit_upload, open_admitted, create_absent, create_upload, effective_quota,
  vault_quota,
}
use vaultcrdt_server.Blobs.Uploads.Limits.{is_created, Admissible, admit_upload-Reading}

module _ (default_quota : ℕ) (between later : World → World) (v id hash id' : Text) (size : ℕ) where
  -- What is answered as a new upload was let in by both uses of the connection.
  admitted :
      (have : Bool) (w : World)
      → effective_quota default_quota (vault_quota v (between w).conn.db) < 2 ^ 64 - 1
      → (create_absent default_quota between later v id hash size have w).0 ≡ ok (created id')
      → (have ≡ false) × ((admit_upload default_quota v size (between w)).0 ≡ ok none)
  unfolding create_absent open_admitted pure meanwhile
  admitted true w small e = absurd (cc e)
  admitted false w small e =
      let (u, _, f) = returned _ _ w (created id') e in
      let (o, g, h) = returned _ _ (between w) (created id') f in (refl, let_in o g h)
    where
      let_in :
          (o : Option UploadReply)
          → (admit_upload default_quota v size (between w)).0 ≡ ok o
          → (open_admitted default_quota between later v id hash size o
              (admit_upload default_quota v size (between w)).1).0
            ≡ ok (created id')
          → (admit_upload default_quota v size (between w)).0 ≡ ok none
      let_in none g h = g
      let_in (some reply) g h =
          let judged =
            ((admit_upload-Reading default_quota v size).reads (between w) (some reply) small
              g).1 in
          absurd (cc (subst (λ r. is_created r ≡ false) {y = created id'} (cc h) judged))

  passed :
      (bad : Bool) (w : World)
      → let absent = create_absent default_quota between later v id hash size in
        ((if bad then pure invalid_hash_or_size else (blob_exists v hash >>= absent)) w).0
          ≡ ok (created id')
        → (bad ≡ false) × (((blob_exists v hash >>= absent) w).0 ≡ ok (created id'))
  unfolding pure
  passed true w e = absurd (cc e)
  passed false w e = (refl, e)

  blob_exists_lem :
      (have : Bool) (w : World)
      → (blob_exists v hash w).0 ≡ ok have
      → have ≡ is_some (find (v, hash) w.conn.db.blobs)
  unfolding blob_exists
  blob_exists_lem have w e =
      ((query-Reading (λ t d. Unit {0}) (λ h t d. h ≡ is_some (find (v, hash) d.blobs)) _
          (λ t t' d l p. p) (λ t t' d l p. refl)).reads
        w have tt e).1

-- Where `create_upload` answers with a new upload, and the effective quota is below the largest `u64`,
-- whatever other requests do while it has given the connection back: the hash has the form of one and
-- the size is positive; when it first looked, the hash was no blob of the vault; and when its second
-- check ended, the size was at most 25 MiB, fewer than four uploads of the vault were open, and what
-- the vault stored and awaited left room for it under the quota, if there was one. The check changes
-- nothing.
pub create_upload_lem :
    (default_quota : ℕ) (between later : World → World) (v id hash id' : Text) (size : ℤ)
    (w : World)
    → let seen = between (blob_exists v hash w).1 in
      effective_quota default_quota (vault_quota v seen.conn.db) < 2 ^ 64 - 1
      → (create_upload default_quota between later v id hash size w).0 ≡ ok (created id')
      → (n : ℕ) × (size ≡ pos n)
        × (1 ≤ n)
        × (is_hash hash ≡ true)
        × (is_some (find (v, hash) w.conn.db.blobs) ≡ false)
        × (let r = admit_upload default_quota v n seen in
            (view r.1 ≡ view seen) × Admissible default_quota v n r.1.conn.now seen.conn.db)
unfolding create_upload pure
create_upload_lem default_quota between later v id hash id' (negsuc n) w small e = absurd (cc e)
create_upload_lem default_quota between later v id hash id' (pos size) w small e =
    let (fine, f) =
      passed default_quota between later v id hash id' size (not (is_hash hash) || leb size 0) w
        e in
    let (have, g, h) = returned _ _ w (created id') f in
    let (absent, let_in) = admitted default_quota between later v id hash id' size have _ small h in
    let (same, admissible) =
      (admit_upload-Reading default_quota v size).reads (between (blob_exists v hash w).1) none
        small let_in in
    (
      size,
      refl,
      ground (arith, fine),
      ground (arith, fine),
      sym (blob_exists_lem default_quota between later v id hash id' size have w g) ∙ absent,
      (same, admissible),
    )
