-- ===== src/Blobs/Intact/Writing.antt =====
-- A segment is written: everything stays intact, also where the disk gives up half-way.
use vaultcrdt_server.Base.{
  nat_eq, list_eq, option_eq, pair_eq, eq_iff, length, take, Bytes, Text, ℕ, ◌+◌, ◌≤◌, ◌≡◌, refl,
  sym, subst, Option, none, some, max, arith,
}
use vaultcrdt_server.Table.{find, put}
use vaultcrdt_server.Table.Laws.{find-put_self}
use vaultcrdt_server.Db.{Upload}
use vaultcrdt_server.Blobs.Disk.{as_it_was, open_tmp, write_tmp, or_empty, overwrite}
use vaultcrdt_server.Blobs.Disk.Lengths.{length-take, length-written_at}
use vaultcrdt_server.Blobs.Disk.Triples.{Store, Triple, bind-Triple, execute-Triple, total-Triple}
use vaultcrdt_server.Blobs.Uploads.{UploadRow}
use vaultcrdt_server.Blobs.Uploads.Put.{write_segment, advance_upload}
use vaultcrdt_server.Blobs.Intact.{IsIntact, put_tmp-IsIntact, put_upload-IsIntact}
use vaultcrdt_server.Blobs.Intact.Discard.{Has, sync-Triple}

module _ (blake3 : Bytes → Text) (v id : Text) (row : UploadRow) where
  abbrev I : Store → Type 0
  I = IsIntact blake3

  -- The row is there.
  abbrev pub Ready : Store → Type 0
  Ready s = I s × Has blake3 v id row s

  -- An upload's file may have any content that is no longer than was claimed.
  refilled-Ready :
      (s : Store) (bytes : Bytes)
      → length bytes ≤ row.size_claimed
      → Ready s
      → Ready (record s { files = record s.files { tmp = put id bytes s.files.tmp } })
  refilled-Ready s bytes l (i, (u, e, w, h, z, r)) = (
    put_tmp-IsIntact blake3 s id bytes
        (λ u' e'.
          let same : u ≡ u' = cc (e, e') in
          subst (λ (x : Upload). length bytes ≤ x.size_claimed) same
            (subst (λ n. length bytes ≤ n) (sym z) l))
        i,
    (u, e, w, h, z, r),
  )

  -- The file that is there fits.
  there-le :
      (s : Store) (o : Option Bytes)
      → find id s.files.tmp ≡ o
      → Ready s
      → length (or_empty o) ≤ row.size_claimed
  there-le s none f h = omega arith
  there-le s (some bytes) f (i, (u, e, w, h, z, r)) =
      subst (λ n. length bytes ≤ n) z (i.fitting id u bytes e f)

  open-Triple : Triple Ready (open_tmp id) (λ _. Ready) I
  unfolding open_tmp
  open-Triple =
      total-Triple Ready (λ _. Ready) I as_it_was tt _
        (λ s p. refilled-Ready s _ (there-le s (find id s.files.tmp) refl p) p) (λ s n p. p.0)
        (λ s p. p.0)

  module _ (buf : Bytes) (fits : row.received_bytes + length buf ≤ row.size_claimed) where
    after : Store → ℕ
    after s = max (row.received_bytes + length buf) (length (or_empty (find id s.files.tmp)))

    overwrite-Ready :
        (s : Store) (part : Bytes)
        → length part ≤ length buf
        → Ready s
        → Ready (record s { files = overwrite id row.received_bytes part s.files })
    overwrite-Ready s part l p =
        refilled-Ready s _
          (omega (
            arith,
            length-written_at row.received_bytes part (or_empty (find id s.files.tmp)),
            there-le s (find id s.files.tmp) refl p,
          ))
          p

    -- Where the segment is the last, the file has its whole length.
    abbrev Wrote : Store → Type 0
    Wrote s = Ready s × (row.received_bytes + length buf ≤ length (or_empty (find id s.files.tmp)))

    wrote :
        (s : Store)
        → Ready s
        → Wrote (record s { files = overwrite id row.received_bytes buf s.files })
    wrote s p = (
      overwrite-Ready s buf (omega arith) p,
      rw find-put_self (
          omega (arith, length-written_at row.received_bytes buf (or_empty (find id s.files.tmp)))),
    )

    write-Triple : Triple Ready (write_tmp id row.received_bytes buf) (λ _. Wrote) I
    unfolding write_tmp
    write-Triple =
        total-Triple Ready (λ _. Wrote) I _ tt _ wrote
          (λ s n p. (overwrite-Ready s (take n buf) (omega (arith, length-take n buf)) p).0)
          (λ s p. p.0)

    -- The upload's file is at least as long as what has been received.
    abbrev pub Grown : Store → Type 0
    Grown s =
        I s
        × (row.received_bytes + length buf ≤ length (or_empty (find id s.files.tmp)))
        × (length (or_empty (find id s.files.tmp)) ≤ row.size_claimed)

    advance-Grown :
        (t : ℕ) (s : Store)
        → Wrote s
        → Grown (record s { db = advance_upload v id (row.received_bytes + length buf) t s.db })
    advance-Grown t s ((i, (u, e, w, h, z, r)), l) = rw e (
        rw ((eq_iff u.vault_id v).1 w) (
          put_upload-IsIntact blake3 s id
              (record u { received_bytes = row.received_bytes + length buf; updated_at = t })
              (omega (arith, z), (i.bounded id u e).1) (λ bytes f. i.fitting id u bytes e f) i,
          l,
          there-le s (find id s.files.tmp) refl (i, (u, e, w, h, z, r)),
        ))

    pub write_segment-Triple :
        Triple Ready (write_segment v id row buf (row.received_bytes + length buf)) (λ _. Grown) I
    unfolding write_segment
    write_segment-Triple =
        bind-Triple Ready (λ _. Ready) (λ _. Grown) I _ _ open-Triple
          λ _.
            bind-Triple Ready (λ _. Ready) (λ _. Grown) I _ _ (sync-Triple Ready I (λ s p. p.0))
              λ _.
                bind-Triple Ready (λ _. Wrote) (λ _. Grown) I _ _ write-Triple
                  λ _.
                    bind-Triple Wrote (λ _. Wrote) (λ _. Grown) I _ _
                      (sync-Triple Wrote I (λ s p. p.0.0))
                      λ _.
                        execute-Triple Wrote (λ _. Grown) I
                          (λ t d. (tt, advance_upload v id (row.received_bytes + length buf) t d))
                          (λ t s p. advance-Grown t s p) (λ s p. p.0.0)
