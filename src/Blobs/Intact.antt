-- ===== src/Blobs/Intact.antt =====
-- What holds of the blobs and the uploads, in the tables and on the disk, between any two calls.
pub mod Discard
pub mod Writing
pub mod Placing
pub mod Registering
pub mod Request
pub mod Finalize
pub mod Put
pub mod Create
pub mod Admit
use vaultcrdt_server.Base.{
  tests, if◌then◌else◌, nat_eq, list_eq, option_eq, pair_eq, ◌==◌, eq_iff, Bool-cases, length,
  Bytes, Text, ℕ, ◌≤◌, ◌≡◌, ◌≢◌, refl, sym, ap, ◌∙◌, subst, ◌⊎◌, inl, inr, Bool, true, false,
  Option, none, some, [], arith, list_beq, list_beq_iff,
}
use vaultcrdt_server.Table.{Table, find, put, remove}
use vaultcrdt_server.Table.Laws.{put-cases, remove-cases, find-put, find-remove}
use vaultcrdt_server.Db.{Db, Key, Blob, Upload}
use vaultcrdt_server.Blobs.Disk.{Files}
use vaultcrdt_server.Blobs.Disk.Triples.{Store}
use vaultcrdt_server.Blobs.Uploads.{absolute_max}

module _ (blake3 : Bytes → Text) where
  -- Two contents under one hash.
  abbrev pub Collision : Type 0
  Collision = (a : Bytes) × (b : Bytes) × (a ≢ b) × (blake3 a ≡ blake3 b)

  -- The file of a blob of this size is there, unless the hash has collided.
  abbrev pub IsBacked : ℕ → Option Bytes → Type 0
  IsBacked size none = ⊥
  IsBacked size (some bytes) = (length bytes ≡ size) ⊎ Collision

  pub record IsIntact (s : Store) : Type 0 where
    -- A file's name is the hash of its content.
    pub named : (k : Key) (bytes : Bytes) → find k s.files.stored ≡ some bytes → blake3 bytes ≡ k.1
    -- Every blob has its file.
    pub backed :
        (k : Key) (b : Blob) → find k s.db.blobs ≡ some b → IsBacked b.size (find k s.files.stored)
    pub bounded :
        (id : Text) (u : Upload)
        → find id s.db.uploads ≡ some u
        → (u.received_bytes ≤ u.size_claimed) × (u.size_claimed ≤ absolute_max)
    -- An upload's file does not outgrow what was claimed.
    pub fitting :
        (id : Text) (u : Upload) (bytes : Bytes)
        → find id s.db.uploads ≡ some u
        → find id s.files.tmp ≡ some bytes
        → length bytes ≤ u.size_claimed

  abbrev pub with_db : Store → Db → Store
  with_db s d = record s { db = d }

  abbrev pub with_tmp : Store → Table Text Bytes → Store
  with_tmp s t = record s { files = record s.files { tmp = t } }

  abbrev pub with_stored : Store → Table Key Bytes → Store
  with_stored s t = record s { files = record s.files { stored = t } }

  pub put_tmp-IsIntact :
      (s : Store) (id : Text) (bytes : Bytes)
      → ((u : Upload) → find id s.db.uploads ≡ some u → length bytes ≤ u.size_claimed)
      → IsIntact s
      → IsIntact (with_tmp s (put id bytes s.files.tmp))
  put_tmp-IsIntact s id bytes fits h = record {
    named = h.named;
    backed = h.backed;
    bounded = h.bounded;
    fitting = λ j u b e f. elim (put-cases id j bytes b s.files.tmp f) [
      | inl (same, e') ↦
          subst (λ x. length x ≤ u.size_claimed) (sym e')
            (fits u (subst (λ i. find i s.db.uploads ≡ some u) (sym same) e))
      | inr old ↦ h.fitting j u b e old
    ];
  }

  pub remove_tmp-IsIntact :
      (s : Store) (id : Text) → IsIntact s → IsIntact (with_tmp s (remove id s.files.tmp))
  remove_tmp-IsIntact s id h = record {
    named = h.named;
    backed = h.backed;
    bounded = h.bounded;
    fitting = λ j u b e f. h.fitting j u b e (remove-cases id j b s.files.tmp f);
  }

  pub remove_upload-IsIntact :
      (s : Store) (id : Text)
      → IsIntact s
      → IsIntact (with_db s (record s.db { uploads = remove id s.db.uploads }))
  remove_upload-IsIntact s id h = record {
    named = h.named;
    backed = h.backed;
    bounded = λ j u e. h.bounded j u (remove-cases id j u s.db.uploads e);
    fitting = λ j u b e f. h.fitting j u b (remove-cases id j u s.db.uploads e) f;
  }

  pub put_upload-IsIntact :
      (s : Store) (id : Text) (u : Upload)
      → (u.received_bytes ≤ u.size_claimed) × (u.size_claimed ≤ absolute_max)
      → ((bytes : Bytes) → find id s.files.tmp ≡ some bytes → length bytes ≤ u.size_claimed)
      → IsIntact s
      → IsIntact (with_db s (record s.db { uploads = put id u s.db.uploads }))
  put_upload-IsIntact s id u bound fits h = record {
    named = h.named;
    backed = h.backed;
    bounded = λ j w e. elim (put-cases id j u w s.db.uploads e) [
      | inl (same, e') ↦ rw e' bound
      | inr old ↦ h.bounded j w old
    ];
    fitting = λ j w b e f. elim (put-cases id j u w s.db.uploads e) [
      | inl (same, e') ↦
          subst (λ x. length b ≤ x.size_claimed) (sym e')
            (fits b (subst (λ i. find i s.files.tmp ≡ some b) (sym same) f))
      | inr old ↦ h.fitting j w b old f
    ];
  }

  -- A blob's file is written where there was none.
  pub put_stored-IsIntact :
      (s : Store) (k : Key) (bytes : Bytes)
      → blake3 bytes ≡ k.1
      → find k s.files.stored ≡ none
      → IsIntact s
      → IsIntact (with_stored s (put k bytes s.files.stored))
  put_stored-IsIntact s k bytes e free h = record {
    named = λ j b f. elim (put-cases k j bytes b s.files.stored f) [
      | inl (same, e') ↦ ap blake3 e' ∙ e ∙ ap (λ i. i.1) same
      | inr old ↦ h.named j b old
    ];
    backed = λ j b f. rw find-put (elsewhere j b f (Bool-cases (k == j)));
    bounded = h.bounded;
    fitting = h.fitting;
  }
    where
      elsewhere :
          (j : Key) (b : Blob)
          → find j s.db.blobs ≡ some b
          → ((k == j) ≡ true) ⊎ ((k == j) ≡ false)
          → IsBacked b.size (if k == j then some bytes else find j s.files.stored)
      elsewhere j b f (inl e) = absurd (
          subst (IsBacked b.size) free
            (h.backed k b (subst (λ i. find i s.db.blobs ≡ some b) (sym ((eq_iff k j).0 e)) f)))
      elsewhere j b f (inr e) = rw e (h.backed j b f)

  -- A blob's file goes where there is no row for it.
  pub remove_stored-IsIntact :
      (s : Store) (k : Key)
      → find k s.db.blobs ≡ none
      → IsIntact s
      → IsIntact (with_stored s (remove k s.files.stored))
  remove_stored-IsIntact s k free h = record {
    named = λ j b f. h.named j b (remove-cases k j b s.files.stored f);
    backed = λ j b f. rw find-remove (elsewhere j b f (Bool-cases (k == j)));
    bounded = h.bounded;
    fitting = h.fitting;
  }
    where
      elsewhere :
          (j : Key) (b : Blob)
          → find j s.db.blobs ≡ some b
          → ((k == j) ≡ true) ⊎ ((k == j) ≡ false)
          → IsBacked b.size (if k == j then none else find j s.files.stored)
      elsewhere j b f (inl e) =
          absurd (cc (free, subst (λ i. find i s.db.blobs ≡ some b) (sym ((eq_iff k j).0 e)) f))
      elsewhere j b f (inr e) = rw e (h.backed j b f)

  pub put_blob-IsIntact :
      (s : Store) (k : Key) (b : Blob)
      → IsBacked b.size (find k s.files.stored)
      → IsIntact s
      → IsIntact (with_db s (record s.db { blobs = put k b s.db.blobs }))
  put_blob-IsIntact s k b back h = record {
    named = h.named;
    backed = λ j c f. elim (put-cases k j b c s.db.blobs f) [
      | inl (same, e) ↦
          subst (λ i. IsBacked c.size (find i s.files.stored)) same
            (subst (λ x. IsBacked x.size (find k s.files.stored)) (sym e) back)
      | inr old ↦ h.backed j c old
    ];
    bounded = h.bounded;
    fitting = h.fitting;
  }

  -- Of a file under the hash of a content: it has the content's size, or the hash has collided.
  pub named-IsBacked :
      (bytes there : Bytes) → blake3 there ≡ blake3 bytes → IsBacked (length bytes) (some there)
  named-IsBacked bytes there e = elim (Bool-cases (list_beq there bytes)) [
    | inl same ↦ inl (ap length ((list_beq_iff there bytes).0 same))
    | inr other ↦ inr (there, bytes, λ x. cc ((list_beq_iff there bytes).1 x, other), e)
  ]
