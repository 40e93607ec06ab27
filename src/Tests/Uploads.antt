-- ===== src/Tests/Uploads.antt =====
-- An upload of one byte, from its opening to its download.
use vaultcrdt_server.Base.{
  tests, nat_eq, list_eq, option_eq, pair_eq, Bytes, Text, codes, ℕ, zero, suc, ◌+◌, ◌≤◌, ◌≡◌, refl,
  true, false, Bool, Option, none, some, List, [], ◌∷◌, is_some, arith,
}
use vaultcrdt_server.Base.Int.{pos}
use vaultcrdt_server.Table.{find}
use vaultcrdt_server.Errors.{ok}
use vaultcrdt_server.Db.{empty_db}
use vaultcrdt_server.Blobs.Disk.{World}
use vaultcrdt_server.Blobs.Disk.Triples.{view}
use vaultcrdt_server.Blobs.Uploads.{stored, created, conflict}
use vaultcrdt_server.Blobs.Uploads.Create.{blob_exists, create_upload, admit_upload, open_count}
use vaultcrdt_server.Blobs.Names.{is_hash}
use vaultcrdt_server.Blobs.Uploads.Refusals.{is_refusal, put_upload_refused}
use vaultcrdt_server.Blobs.Uploads.Put.{put_upload}
use vaultcrdt_server.Blobs.Download.{whole, get_blob}
use vaultcrdt_server.Blobs.Download.Laws.{Content, Serves}
use vaultcrdt_server.Blobs.Intact.{IsIntact}
use vaultcrdt_server.Blobs.Uploads.Admission.{create_upload_lem}
use vaultcrdt_server.Blobs.Uploads.Limits.{Admissible}
use vaultcrdt_server.Blobs.Traffic.{
  Run, start, later, creating, putting, Run-IsIntact, get_blob-Serves, put_upload-Content,
}

abbrev padded : ℕ → Text
padded zero = []
padded (suc n) = b'0' ∷ padded n

-- A hash of the first byte.
abbrev blake3 : Bytes → Text
blake3 [] = padded 64
blake3 (c ∷ cs) = c ∷ padded 63

abbrev at_fixpoint : Bytes → Option Bool
at_fixpoint bytes = some true

abbrev v : Text
v = codes "v"

abbrev id : Text
id = codes "u1"

abbrev hash : Text
hash = b'a' ∷ padded 63

abbrev empty : World
empty = record {
  conn = record { db = empty_db; now = 5; outcomes = [] };
  files = record { tmp = []; stored = [] };
  disk = [];
}

abbrev nobody : World → World
nobody w = w

abbrev opened : World
opened = (create_upload 100 nobody nobody v id hash (pos 1) empty).1

abbrev full : World
full =
    (put_upload blake3 at_fixpoint v id (some (codes "bytes 0-0/1")) (some (b'a' ∷ []) ∷ [])
      opened).1

one_byte_run :
    ((create_upload 100 nobody nobody v id hash (pos 1) empty).0 ≡ ok (created id))
    × ((put_upload blake3 at_fixpoint v id
          (some (codes "bytes 0-0/1"))
          (some (b'a' ∷ []) ∷ [])
          opened).0
        ≡ ok (stored hash))
    × ((get_blob v hash none full).0 ≡ ok (whole hash (b'a' ∷ [])))
unfolding vaultcrdt_server.Table.find vaultcrdt_server.Table.put vaultcrdt_server.Table.count_where
    vaultcrdt_server.Table.select_where vaultcrdt_server.Sql.lift vaultcrdt_server.Sql.query
    vaultcrdt_server.Blobs.Disk.pure vaultcrdt_server.Blobs.Disk.sql
    vaultcrdt_server.Blobs.Disk.◌>>=◌ vaultcrdt_server.Blobs.Disk.attempt
    vaultcrdt_server.Blobs.Disk.sync vaultcrdt_server.Blobs.Disk.create_tmp
    vaultcrdt_server.Blobs.Disk.open_tmp vaultcrdt_server.Blobs.Disk.write_tmp
    vaultcrdt_server.Blobs.Disk.read_tmp vaultcrdt_server.Blobs.Disk.reopen_tmp
    vaultcrdt_server.Blobs.Disk.exists_stored vaultcrdt_server.Blobs.Disk.place
    vaultcrdt_server.Blobs.Disk.look_stored vaultcrdt_server.Blobs.Uploads.get_upload
    vaultcrdt_server.Blobs.Uploads.Create.create_upload
    vaultcrdt_server.Blobs.Uploads.Body.read_request vaultcrdt_server.Blobs.Uploads.Put.put_upload
    vaultcrdt_server.Blobs.Download.get_blob vaultcrdt_server.Blobs.Ranges.parse_content_range
    vaultcrdt_server.Blobs.Svg.looks_like_svg vaultcrdt_server.Blobs.Names.is_hash
    vaultcrdt_server.Base.Decimal.parse_unsigned vaultcrdt_server.Base.Strings.strip_prefix
    vaultcrdt_server.Base.Strings.split_once vaultcrdt_server.Base.all
    vaultcrdt_server.Base.list_beq vaultcrdt_server.Base.pair_beq
    vaultcrdt_server.Blobs.Disk.meanwhile vaultcrdt_server.Blobs.Uploads.Create.blob_exists
    vaultcrdt_server.Blobs.Uploads.Create.create_absent
    vaultcrdt_server.Blobs.Uploads.Create.open_admitted
one_byte_run = (refl, refl, refl)

-- A second upload of the same blob, while the first has come between.
abbrev first_opens : World → World
first_opens w = (create_upload 100 nobody nobody v id hash (pos 1) w).1

abbrev second : Text
second = codes "u2"

overtaken_run :
    (create_upload 100 first_opens nobody v second hash (pos 1) empty).0 ≡ ok (created second)
unfolding vaultcrdt_server.Table.find vaultcrdt_server.Table.put vaultcrdt_server.Table.count_where
    vaultcrdt_server.Table.select_where vaultcrdt_server.Sql.lift vaultcrdt_server.Sql.query
    vaultcrdt_server.Blobs.Disk.pure vaultcrdt_server.Blobs.Disk.sql
    vaultcrdt_server.Blobs.Disk.◌>>=◌ vaultcrdt_server.Blobs.Disk.attempt
    vaultcrdt_server.Blobs.Disk.sync vaultcrdt_server.Blobs.Disk.create_tmp
    vaultcrdt_server.Blobs.Disk.open_tmp vaultcrdt_server.Blobs.Disk.write_tmp
    vaultcrdt_server.Blobs.Disk.read_tmp vaultcrdt_server.Blobs.Disk.reopen_tmp
    vaultcrdt_server.Blobs.Disk.exists_stored vaultcrdt_server.Blobs.Disk.place
    vaultcrdt_server.Blobs.Disk.look_stored vaultcrdt_server.Blobs.Uploads.get_upload
    vaultcrdt_server.Blobs.Uploads.Create.create_upload
    vaultcrdt_server.Blobs.Uploads.Body.read_request vaultcrdt_server.Blobs.Uploads.Put.put_upload
    vaultcrdt_server.Blobs.Download.get_blob vaultcrdt_server.Blobs.Ranges.parse_content_range
    vaultcrdt_server.Blobs.Svg.looks_like_svg vaultcrdt_server.Blobs.Names.is_hash
    vaultcrdt_server.Base.Decimal.parse_unsigned vaultcrdt_server.Base.Strings.strip_prefix
    vaultcrdt_server.Base.Strings.split_once vaultcrdt_server.Base.all
    vaultcrdt_server.Base.list_beq vaultcrdt_server.Base.pair_beq
    vaultcrdt_server.Blobs.Disk.meanwhile vaultcrdt_server.Blobs.Uploads.Create.blob_exists
    vaultcrdt_server.Blobs.Uploads.Create.create_absent
    vaultcrdt_server.Blobs.Uploads.Create.open_admitted
overtaken_run = refl

empty-IsIntact : IsIntact blake3 (view empty)
unfolding find
empty-IsIntact = record {
  named = λ k bytes e. absurd (cc e);
  backed = λ k b e. absurd (cc e);
  bounded = λ i u e. absurd (cc e);
  fitting = λ i u b e f. absurd (cc e);
}

abbrev to_opened : Run blake3 at_fixpoint 100 empty opened
to_opened = later start (creating v id hash (pos 1) nobody nobody (λ x. start) (λ x. start))

abbrev to_full : Run blake3 at_fixpoint 100 empty full
to_full = later to_opened (putting v id (some (codes "bytes 0-0/1")) (some (b'a' ∷ []) ∷ []))

Run-IsIntact_example : IsIntact blake3 (view full)
Run-IsIntact_example = Run-IsIntact blake3 at_fixpoint 100 empty full empty-IsIntact to_full

get_blob-Serves_example :
    Serves blake3 v hash (whole hash (b'a' ∷ [])) (view (get_blob v hash none full).1)
get_blob-Serves_example =
    get_blob-Serves blake3 at_fixpoint 100 empty full v hash none (whole hash (b'a' ∷ []))
      empty-IsIntact to_full one_byte_run.2

put_upload-Content_example :
    (is_some (find (v, hash) full.conn.db.blobs) ≡ true) × Content blake3 v hash (view full)
put_upload-Content_example =
    put_upload-Content blake3 at_fixpoint 100 empty opened v id hash (some (codes "bytes 0-0/1"))
      (some (b'a' ∷ []) ∷ []) empty-IsIntact to_opened one_byte_run.1

create_upload_lem_example :
    let seen = first_opens (blob_exists v hash empty).1 in
    (n : ℕ) × (pos 1 ≡ pos n)
    × (1 ≤ n)
    × (is_hash hash ≡ true)
    × (is_some (find (v, hash) empty.conn.db.blobs) ≡ false)
    × (let r = admit_upload 100 v n seen in
        (view r.1 ≡ view seen) × Admissible 100 v n r.1.conn.now seen.conn.db)
unfolding vaultcrdt_server.Table.find vaultcrdt_server.Table.put vaultcrdt_server.Table.count_where
    vaultcrdt_server.Table.select_where vaultcrdt_server.Sql.lift vaultcrdt_server.Sql.query
    vaultcrdt_server.Blobs.Disk.pure vaultcrdt_server.Blobs.Disk.sql
    vaultcrdt_server.Blobs.Disk.◌>>=◌ vaultcrdt_server.Blobs.Disk.attempt
    vaultcrdt_server.Blobs.Disk.sync vaultcrdt_server.Blobs.Disk.create_tmp
    vaultcrdt_server.Blobs.Disk.open_tmp vaultcrdt_server.Blobs.Disk.write_tmp
    vaultcrdt_server.Blobs.Disk.read_tmp vaultcrdt_server.Blobs.Disk.reopen_tmp
    vaultcrdt_server.Blobs.Disk.exists_stored vaultcrdt_server.Blobs.Disk.place
    vaultcrdt_server.Blobs.Disk.look_stored vaultcrdt_server.Blobs.Uploads.get_upload
    vaultcrdt_server.Blobs.Uploads.Create.create_upload
    vaultcrdt_server.Blobs.Uploads.Body.read_request vaultcrdt_server.Blobs.Uploads.Put.put_upload
    vaultcrdt_server.Blobs.Download.get_blob vaultcrdt_server.Blobs.Ranges.parse_content_range
    vaultcrdt_server.Blobs.Svg.looks_like_svg vaultcrdt_server.Blobs.Names.is_hash
    vaultcrdt_server.Base.Decimal.parse_unsigned vaultcrdt_server.Base.Strings.strip_prefix
    vaultcrdt_server.Base.Strings.split_once vaultcrdt_server.Base.all
    vaultcrdt_server.Base.list_beq vaultcrdt_server.Base.pair_beq
    vaultcrdt_server.Blobs.Disk.meanwhile vaultcrdt_server.Blobs.Uploads.Create.blob_exists
    vaultcrdt_server.Blobs.Uploads.Create.create_absent
    vaultcrdt_server.Blobs.Uploads.Create.open_admitted
    vaultcrdt_server.Blobs.Uploads.Create.effective_quota
create_upload_lem_example =
    create_upload_lem 100 first_opens nobody v second hash second (pos 1) empty (omega arith)
      overtaken_run

-- A segment that does not come next
conflict_run :
    (put_upload blake3 at_fixpoint v id
      (some (codes "bytes 5-5/1"))
      (some (b'a' ∷ []) ∷ [])
      opened).0
    ≡ ok (conflict 0)
unfolding vaultcrdt_server.Table.find vaultcrdt_server.Table.put vaultcrdt_server.Table.count_where
    vaultcrdt_server.Table.select_where vaultcrdt_server.Sql.lift vaultcrdt_server.Sql.query
    vaultcrdt_server.Blobs.Disk.pure vaultcrdt_server.Blobs.Disk.sql
    vaultcrdt_server.Blobs.Disk.◌>>=◌ vaultcrdt_server.Blobs.Disk.attempt
    vaultcrdt_server.Blobs.Disk.sync vaultcrdt_server.Blobs.Disk.create_tmp
    vaultcrdt_server.Blobs.Disk.open_tmp vaultcrdt_server.Blobs.Disk.write_tmp
    vaultcrdt_server.Blobs.Disk.read_tmp vaultcrdt_server.Blobs.Disk.reopen_tmp
    vaultcrdt_server.Blobs.Disk.exists_stored vaultcrdt_server.Blobs.Disk.place
    vaultcrdt_server.Blobs.Disk.look_stored vaultcrdt_server.Blobs.Uploads.get_upload
    vaultcrdt_server.Blobs.Uploads.Create.create_upload
    vaultcrdt_server.Blobs.Uploads.Body.read_request vaultcrdt_server.Blobs.Uploads.Put.put_upload
    vaultcrdt_server.Blobs.Download.get_blob vaultcrdt_server.Blobs.Ranges.parse_content_range
    vaultcrdt_server.Blobs.Svg.looks_like_svg vaultcrdt_server.Blobs.Names.is_hash
    vaultcrdt_server.Base.Decimal.parse_unsigned vaultcrdt_server.Base.Strings.strip_prefix
    vaultcrdt_server.Base.Strings.split_once vaultcrdt_server.Base.all
    vaultcrdt_server.Base.list_beq vaultcrdt_server.Base.pair_beq
    vaultcrdt_server.Blobs.Disk.meanwhile vaultcrdt_server.Blobs.Uploads.Create.blob_exists
    vaultcrdt_server.Blobs.Uploads.Create.create_absent
    vaultcrdt_server.Blobs.Uploads.Create.open_admitted
conflict_run = refl

put_upload_refused_example :
    view
      (put_upload blake3 at_fixpoint v id
        (some (codes "bytes 5-5/1"))
        (some (b'a' ∷ []) ∷ [])
        opened).1
    ≡ view opened
unfolding is_refusal
put_upload_refused_example =
    put_upload_refused blake3 at_fixpoint v id (some (codes "bytes 5-5/1")) (some (b'a' ∷ []) ∷ [])
      opened (conflict 0) conflict_run refl

-- A create that has passed its check when the others run.
abbrev creates : Text → (World → World) → World → World
creates upload others w = (create_upload 100 nobody others v upload hash (pos 1) w).1

-- Five requests that are all let in before the first of them opens its upload.
abbrev crowded : World
crowded =
    creates id
      (creates second (creates (codes "u3") (creates (codes "u4") (creates (codes "u5") nobody))))
      empty

crowded_run : open_count v 5 crowded.conn.db ≡ 5
unfolding vaultcrdt_server.Table.find vaultcrdt_server.Table.put vaultcrdt_server.Table.count_where
    vaultcrdt_server.Table.select_where vaultcrdt_server.Sql.lift vaultcrdt_server.Sql.query
    vaultcrdt_server.Blobs.Disk.pure vaultcrdt_server.Blobs.Disk.sql
    vaultcrdt_server.Blobs.Disk.◌>>=◌ vaultcrdt_server.Blobs.Disk.attempt
    vaultcrdt_server.Blobs.Disk.sync vaultcrdt_server.Blobs.Disk.create_tmp
    vaultcrdt_server.Blobs.Disk.open_tmp vaultcrdt_server.Blobs.Disk.write_tmp
    vaultcrdt_server.Blobs.Disk.read_tmp vaultcrdt_server.Blobs.Disk.reopen_tmp
    vaultcrdt_server.Blobs.Disk.exists_stored vaultcrdt_server.Blobs.Disk.place
    vaultcrdt_server.Blobs.Disk.look_stored vaultcrdt_server.Blobs.Uploads.get_upload
    vaultcrdt_server.Blobs.Uploads.Create.create_upload
    vaultcrdt_server.Blobs.Uploads.Body.read_request vaultcrdt_server.Blobs.Uploads.Put.put_upload
    vaultcrdt_server.Blobs.Download.get_blob vaultcrdt_server.Blobs.Ranges.parse_content_range
    vaultcrdt_server.Blobs.Svg.looks_like_svg vaultcrdt_server.Blobs.Names.is_hash
    vaultcrdt_server.Base.Decimal.parse_unsigned vaultcrdt_server.Base.Strings.strip_prefix
    vaultcrdt_server.Base.Strings.split_once vaultcrdt_server.Base.all
    vaultcrdt_server.Base.list_beq vaultcrdt_server.Base.pair_beq
    vaultcrdt_server.Blobs.Disk.meanwhile vaultcrdt_server.Blobs.Uploads.Create.blob_exists
    vaultcrdt_server.Blobs.Uploads.Create.create_absent
    vaultcrdt_server.Blobs.Uploads.Create.open_admitted
crowded_run = refl
