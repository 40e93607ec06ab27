-- ===== src/Tests/Blobs.antt =====
-- Runs and instances for the attachments.
use vaultcrdt_server.Base.{
  tests, nat_eq, list_eq, option_eq, pair_eq, length, all, any, All, Bytes, Text, codes, ℕ, zero,
  suc, ◌≤◌, ◌≡◌, refl, ◌≢◌, Bool, true, false, Option, none, some, [], ◌∷◌, arith,
}
use vaultcrdt_server.Base.Int.{pos}
use vaultcrdt_server.Base.Strings.{split, join, starts_with}
use vaultcrdt_server.Db.{Db, PathState, deleted, empty_db}
use vaultcrdt_server.Blobs.Paths.Listing.{states_after, page_limit}
use vaultcrdt_server.Blobs.Paths.Listing.Laws.{walk, page_sent, list_blob_paths-walk}
use vaultcrdt_server.Sql.{Conn}
use vaultcrdt_server.Sql.Refines.{Refines}
use vaultcrdt_server.Blobs.Names.{
  validate_blob_key, validate_segments, cap_for_key, absolute_max, key_max_bytes,
  is_ascii_uppercase, is_hash,
}
use vaultcrdt_server.Blobs.Names.Laws.{Plain, validate_segments_lem, cap_for_key_lem}
use vaultcrdt_server.Blobs.Ranges.{
  parse_byte_range, parse_content_range, span, unsatisfiable, malformed,
}
use vaultcrdt_server.Blobs.Ranges.Laws.{Within, parse_byte_range-Within}
use vaultcrdt_server.Blobs.Paths.{BlobPathBody, FileRead, contents, post_blob_path}
use vaultcrdt_server.Blobs.Paths.Spec.{posted}
use vaultcrdt_server.Blobs.Paths.Refinement.{post_blob_path-Refines}
use vaultcrdt_server.Blobs.Paths.Laws.{Advances, post_blob_path-Advances}

abbrev photo : Text
photo = codes "img/a.png"

photo_allowed : (validate_blob_key photo ≡ true) × (validate_segments photo false ≡ true)
unfolding vaultcrdt_server.Blobs.Names.validate_blob_key vaultcrdt_server.Base.Strings.strip_prefix
    vaultcrdt_server.Base.Strings.ends_with vaultcrdt_server.Base.Strings.rsplit_once
    vaultcrdt_server.Base.Strings.split vaultcrdt_server.Base.Strings.last_of
    vaultcrdt_server.Base.any vaultcrdt_server.Base.all vaultcrdt_server.Base.list_beq
photo_allowed = (refl, refl)

cap_for_key_lem_example :
    (limit : ℕ) × (cap_for_key photo ≡ some limit)
    × (limit ≤ absolute_max)
    × (any is_ascii_uppercase photo ≡ false)
cap_for_key_lem_example = cap_for_key_lem photo photo_allowed.0

validate_segments_lem_example :
    (photo ≢ [])
    × (length photo ≤ key_max_bytes)
    × (starts_with (codes "/") photo ≡ false)
    × (join b'/' (split b'/' photo) ≡ photo)
    × All Plain (split b'/' photo)
validate_segments_lem_example = validate_segments_lem photo false photo_allowed.1

-- A theme's style sheet passes; a way up, a plugin and a hidden name do not.
keys_checked :
    (validate_blob_key (codes ".obsidian/themes/dark/theme.css") ≡ true)
    × (validate_blob_key (codes "a/../b.png") ≡ false)
    × (validate_blob_key (codes ".obsidian/plugins/x.css") ≡ false)
    × (validate_blob_key (codes ".png") ≡ false)
unfolding vaultcrdt_server.Blobs.Names.validate_blob_key vaultcrdt_server.Base.Strings.strip_prefix
    vaultcrdt_server.Base.Strings.ends_with vaultcrdt_server.Base.Strings.split_once
    vaultcrdt_server.Base.Strings.rsplit_once vaultcrdt_server.Base.Strings.split
    vaultcrdt_server.Base.Strings.last_of vaultcrdt_server.Base.any vaultcrdt_server.Base.all
    vaultcrdt_server.Base.list_beq
keys_checked = (refl, refl, refl, refl)

ranges_read :
    (parse_byte_range (codes "bytes=2-") 10 ≡ span 2 9)
    × (parse_byte_range (codes "bytes=-3") 10 ≡ span 7 9)
    × (parse_byte_range (codes "bytes=4-99, 1-2") 10 ≡ span 4 9)
    × (parse_byte_range (codes "bytes=10-") 10 ≡ unsatisfiable)
    × (parse_byte_range (codes "items=0-1") 10 ≡ malformed)
    × (parse_content_range (codes "bytes 0-3/8") ≡ some (0, 3, 8))
unfolding vaultcrdt_server.Blobs.Ranges.parse_content_range
    vaultcrdt_server.Blobs.Ranges.parse_byte_range vaultcrdt_server.Base.Strings.strip_prefix
    vaultcrdt_server.Base.Strings.ends_with vaultcrdt_server.Base.Strings.split_once
    vaultcrdt_server.Base.Strings.split vaultcrdt_server.Base.Decimal.parse_unsigned
ranges_read = (refl, refl, refl, refl, refl, refl)

parse_byte_range-Within_example : Within 10 (parse_byte_range (codes "bytes=4-99") 10)
parse_byte_range-Within_example = parse_byte_range-Within (codes "bytes=4-99") 10

-- Every SVG is clean, and every file is empty.
abbrev clean : Bytes → Option Bool
clean bytes = some true

abbrev empty_file : Text → Text → FileRead
empty_file v hash = contents []

abbrev removal : BlobPathBody
removal = record {
  path_key = photo;
  display_path = codes "img/A.png";
  key_version = pos 1;
  generation = pos 2;
  state = codes "deleted";
  content_hash = none;
  size = none;
  peer_id = codes "p";
}

abbrev fresh : Conn
fresh = record { db = empty_db; now = 5; outcomes = [] }

post_blob_path-Refines_example :
    Refines
      (λ _. Unit {0})
      (post_blob_path clean empty_file (codes "v") removal)
      (posted clean empty_file (codes "v") removal)
post_blob_path-Refines_example = post_blob_path-Refines clean empty_file (codes "v") removal

post_blob_path-Advances_example :
    Advances empty_db (post_blob_path clean empty_file (codes "v") removal fresh).1.db
post_blob_path-Advances_example = post_blob_path-Advances clean empty_file (codes "v") removal fresh

abbrev path_at : ℕ → PathState
path_at n = record {
  display_path = photo;
  key_version = 1;
  generation = 1;
  state = deleted;
  content_hash = none;
  size = none;
  peer_id = codes "p";
  updated_at = 5;
  seq = n;
}

abbrev three_paths : Db
three_paths = record empty_db {
  path_states =
      ((codes "v", codes "a"), path_at 3)
      ∷ ((codes "w", codes "a"), path_at 4)
      ∷ ((codes "v", codes "b"), path_at 1)
      ∷ ((codes "v", codes "c"), path_at 2)
      ∷ [];
}

list_blob_paths-walk_example :
    walk (page_limit (pos 2)) (page_sent (codes "v") (pos 2) three_paths 5) 4 (pos 0)
    ≡ states_after (codes "v") (pos 0) three_paths
unfolding vaultcrdt_server.Table.select_where states_after vaultcrdt_server.Base.Sorting.sort_by
    vaultcrdt_server.Base.Sorting.insert_by vaultcrdt_server.Base.Sorting.text_le
    vaultcrdt_server.Base.list_beq
list_blob_paths-walk_example =
    list_blob_paths-walk (codes "v") (pos 2) three_paths 5 4 (pos 0)
      ((omega arith, (omega arith, tt)), ((omega arith, tt), (tt, tt))) (omega arith)
