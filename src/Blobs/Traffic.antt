-- ===== src/Blobs/Traffic.antt =====
-- The life of the blob lane: uploads, downloads and sweeps in any order, with any call of the disk
-- and any statement failing, and other requests in between.
use vaultcrdt_server.Base.{
  nat_eq, list_eq, option_eq, pair_eq, Bytes, Text, ℕ, ◌≤◌, ◌≡◌, refl, subst, Bool, true, Option,
  some, List, is_some,
}
use vaultcrdt_server.Base.Int.{ℤ}
use vaultcrdt_server.Table.{find}
use vaultcrdt_server.Errors.{Result, ok, err}
use vaultcrdt_server.Db.{Db}
use vaultcrdt_server.Sql.{Outcome}
use vaultcrdt_server.Blobs.Disk.{World, DiskOutcome, Io}
use vaultcrdt_server.Blobs.Disk.Triples.{Store, view, Triple, Post, post_of}
use vaultcrdt_server.Blobs.Uploads.{stored, get_upload, sweep_expired_uploads}
use vaultcrdt_server.Blobs.Uploads.Create.{create_upload}
use vaultcrdt_server.Blobs.Uploads.Put.{put_upload}
use vaultcrdt_server.Blobs.Download.{Download, get_blob}
use vaultcrdt_server.Blobs.Download.Laws.{Content, Serves, get_blob-Triple, row-Content}
use vaultcrdt_server.Blobs.Intact.{IsIntact}
use vaultcrdt_server.Blobs.Intact.Create.{create_upload-Triple}
use vaultcrdt_server.Blobs.Intact.Discard.{get_upload-Triple, sweep-Triple}
use vaultcrdt_server.Blobs.Intact.Put.{put_upload-Triple}

module _ (blake3 : Bytes → Text) (svg_at_fixpoint : Bytes → Option Bool) (default_quota : ℕ) where
  mutual
    pub data Step : World → World → Type 0 where
      -- While it has given the connection back, twice, other requests run.
      creating :
          {w : World} (v id hash : Text) (size : ℤ) (before_check before_open : World → World)
          → ((x : World) → Run x (before_check x))
          → ((x : World) → Run x (before_open x))
          → Step w (create_upload default_quota before_check before_open v id hash size w).1
      asking : {w : World} (v id : Text) → Step w (get_upload v id w).1
      putting :
          {w : World} (v id : Text) (content_range : Option Text) (chunks : List (Option Bytes))
          → Step w (put_upload blake3 svg_at_fixpoint v id content_range chunks w).1
      downloading :
          {w : World} (v hash : Text) (range : Option Text) → Step w (get_blob v hash range w).1
      sweeping : {w : World} → Step w (sweep_expired_uploads w).1
      -- Another request leaves these tables alone.
      otherwise :
          {w : World} (d : Db)
          → d.blobs ≡ w.conn.db.blobs
          → d.uploads ≡ w.conn.db.uploads
          → Step w (record w { conn = record w.conn { db = d } })
      -- Which of the calls to come fail is open.
      pausing :
          {w : World} (t : ℕ) (outcomes : List Outcome) (disk : List DiskOutcome)
          → w.conn.now ≤ t
          → Step w (record w { conn = record w.conn { now = t; outcomes = outcomes }; disk = disk })

    pub data Run : World → World → Type 0 where
      start : {w : World} → Run w w
      later : {w a b : World} → Run w a → Step a b → Run w b

  abbrev I : Store → Type 0
  I = IsIntact blake3

  kept :
      {A : Type 0} (Q : A → Store → Type 0) (m : Io A)
      → Triple I m Q I
      → ((a : A) (s : Store) → Q a s → I s)
      → (w : World) → I (view w)
      → I (view (m w).1)
  kept {A} Q m h weaker w i = either (m w).0 (view (m w).1) (h.holds w i)
    where
      either : (r : Result A) (s : Store) → Post Q I r s → I s
      either (ok a) s q = weaker a s q
      either (err e) s q = q

  mutual
    Step-kept : {a b : World} → Step a b → I (view a) → I (view b)
    Step-kept {a} (creating v id hash size before_check before_open checked opened) i =
        kept (λ _. I) _
          (create_upload-Triple blake3 default_quota before_check before_open
            (λ x. Runs-kept (checked x)) (λ x. Runs-kept (opened x)) v id hash size)
          (λ r s h. h) a i
    Step-kept {a} (asking v id) i = kept (λ _. I) _ (get_upload-Triple blake3 v id) (λ r s h. h) a i
    Step-kept {a} (putting v id range chunks) i =
        kept _ _ (put_upload-Triple blake3 svg_at_fixpoint v id range chunks) (λ r s h. h.0) a i
    Step-kept {a} (downloading v hash range) i =
        kept _ _ (get_blob-Triple blake3 v hash range) (λ r s h. h.0) a i
    Step-kept {a} sweeping i = kept (λ _. I) _ (sweep-Triple blake3 I (λ s h. h)) (λ r s h. h) a i
    Step-kept {a} (otherwise d e f) i = record {
      named = i.named;
      backed = λ k b g. i.backed k b (subst (λ t. find k t ≡ some b) e g);
      bounded = λ id u g. i.bounded id u (subst (λ t. find id t ≡ some u) f g);
      fitting = λ id u b g. i.fitting id u b (subst (λ t. find id t ≡ some u) f g);
    }
    Step-kept {a} (pausing t outcomes disk l) i = i

    Runs-kept : {a b : World} → Run a b → I (view a) → I (view b)
    Runs-kept start i = i
    Runs-kept (later run step) i = Step-kept step (Runs-kept run i)

-- Whatever is uploaded, in any order, whatever other requests run while a new upload waits for the
-- connection, and whichever calls of the disk or statements fail: every file of a blob has the hash that
-- it is named by, every blob has its file, of the size of its row unless the hash has collided, and no
-- upload has received, or has on the disk, more than it claimed, which is at most 25 MiB.
pub Run-IsIntact :
    (blake3 : Bytes → Text) (svg_at_fixpoint : Bytes → Option Bool) (default_quota : ℕ)
    (first w : World)
    → IsIntact blake3 (view first)
    → Run blake3 svg_at_fixpoint default_quota first w
    → IsIntact blake3 (view w)
Run-IsIntact blake3 svg_at_fixpoint default_quota first w i run =
    Runs-kept blake3 svg_at_fixpoint default_quota run i

-- After any run, a download that answers 200 serves the whole of a content with the hash it was asked
-- for, and one that answers 206 the bytes of a range that lies within one.
pub get_blob-Serves :
    (blake3 : Bytes → Text) (svg_at_fixpoint : Bytes → Option Bool) (default_quota : ℕ)
    (first w : World) (v hash : Text) (range : Option Text) (answer : Download)
    → IsIntact blake3 (view first)
    → Run blake3 svg_at_fixpoint default_quota first w
    → (get_blob v hash range w).0 ≡ ok answer
    → Serves blake3 v hash answer (view (get_blob v hash range w).1)
get_blob-Serves blake3 svg_at_fixpoint default_quota first w v hash range answer i run e =
    (post_of _ _ _ _ w answer (get_blob-Triple blake3 v hash range)
      (Run-IsIntact blake3 svg_at_fixpoint default_quota first w i run) e).1

-- After any run, a segment that is answered with `201` and a hash has left a blob with this hash in the
-- vault, and a file whose content has it.
pub put_upload-Content :
    (blake3 : Bytes → Text) (svg_at_fixpoint : Bytes → Option Bool) (default_quota : ℕ)
    (first w : World) (v id hash : Text) (content_range : Option Text)
    (chunks : List (Option Bytes))
    → IsIntact blake3 (view first)
    → Run blake3 svg_at_fixpoint default_quota first w
    → let r = put_upload blake3 svg_at_fixpoint v id content_range chunks w in
      r.0 ≡ ok (stored hash)
      → (is_some (find (v, hash) r.1.conn.db.blobs) ≡ true) × Content blake3 v hash (view r.1)
put_upload-Content blake3 svg_at_fixpoint default_quota first w v id hash content_range chunks i run
      e =
    let (intact, said) =
      post_of _ _ _ _ w (stored hash)
        (put_upload-Triple blake3 svg_at_fixpoint v id content_range chunks)
        (Run-IsIntact blake3 svg_at_fixpoint default_quota first w i run) e in
    (said hash refl, row-Content blake3 v hash _ intact (said hash refl))
