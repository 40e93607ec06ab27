-- ===== src/Blobs/Paths/Refinement.antt =====
-- `post_blob_path` does what its description says.
use vaultcrdt_server.Base.{
  if◌then◌else◌, nat_eq, list_eq, option_eq, pair_eq, Bytes, Text, ℕ, ◌≡◌, refl, sym, ap, ◌∙◌, Bool,
  true, false, not, Option, none, some, arith,
}
use vaultcrdt_server.Table.{find}
use vaultcrdt_server.Errors.{ok}
use vaultcrdt_server.Db.{Db, PathState}
use vaultcrdt_server.Blobs.Paths.{
  BlobPathBody, PathReply, blob_not_uploaded, Posted, FileRead, refused, repeats, wins, next_seq,
  write_path, store_path, svg_refused, has_blob, blob_present, publish, attach, compete,
  post_blob_path,
}
use vaultcrdt_server.Sql.{Sql, pure, lift, ◌>>=◌, execute, query}
use vaultcrdt_server.Sql.Refines.{
  Spec, Refines, Runs, Refines-lift, Refines-Runs, Refines-ext, Refines-if,
}
use vaultcrdt_server.Sql.Sequence.{Runs-step}
use vaultcrdt_server.Sql.Transactions.{
  Refines-query, Refines-transaction, Refines-then, Refines-lift_bind,
}
use vaultcrdt_server.Blobs.Paths.Spec.{
  published, present_in, svg_end, attached, competed, posted_unless, posted,
}

abbrev Always : Db → Type 0
Always d = Unit

module _ (v : Text) (body : BlobPathBody) where
  write-Runs :
      (seq : ℕ)
      → Runs Always
          (execute (λ t d. (tt {0}, write_path v body seq t d)) >>= λ _. pure seq)
          (λ t d. (ok seq, write_path v body seq t d))
  unfolding pure lift
  write-Runs seq =
      Runs-step Always (λ _ _. Unit) (λ t d. (tt {0}, write_path v body seq t d))
        (λ _ _ d. (ok seq, d)) _ (λ _. pure seq)
        (λ _. Refines-Runs _ _ _ (Refines-lift _ (ok seq) _ (λ t d p. refl))) (λ t d p. tt)
        (λ t w d p. record { time = t; bound = omega arith; equal = refl })

  store_path-Refines : Refines Always (store_path v body) (published v body)
  unfolding store_path next_seq
  store_path-Refines =
      Refines-ext Always _ _ _
        (Refines-transaction Always (published v body) _ (
          Runs-step Always (λ _ _. Unit) (λ _ d. next_seq d)
            (λ seq t d. (ok seq, write_path v body seq t d)) (published v body) _ write-Runs
            (λ t d p. tt) (λ t w d p. record { time = w; bound = omega arith; equal = refl })))
        (λ d p. p) (λ t d p. refl)

module _ (svg_at_fixpoint : Bytes → Option Bool) (read_blob : Text → Text → FileRead) (v : Text)
    (body : BlobPathBody) where
  publish-Refines :
      (reply : Option PathReply)
      → Refines Always
          (publish svg_at_fixpoint read_blob v body reply)
          (svg_end svg_at_fixpoint read_blob v body (ok reply))
  unfolding publish
  publish-Refines (some reply) = unfold pure lift in Refines-lift _ (ok _) _ (λ t d p. refl)
  publish-Refines none = Refines-then _ _ _ _ (store_path-Refines v body)

  -- What the look for the blob has told.
  abbrev At : (Db → Type 0) → Option Text → Bool → Db → Type 0
  At P hash present d = P d × (present_in v hash d ≡ present)

  blob_present-Refines :
      (P : Db → Type 0) (hash : Option Text) (k : Bool → Sql Posted) (spec : Spec Posted)
      → ((b : Bool) → Refines (At P hash b) (k b) spec)
      → Refines P (blob_present svg_at_fixpoint read_blob v hash >>= k) spec
  unfolding blob_present
  blob_present-Refines P (some hash) k spec h =
      Refines-query P spec (λ _ d. has_blob svg_at_fixpoint read_blob v hash d) k (λ t b. h b)
  blob_present-Refines P none k spec h =
      unfold pure ◌>>=◌ in
      Refines-ext P (k true) spec spec (h true) (λ d p. (p, refl)) (λ t d p. refl)

  attached-At :
      (P : Db → Type 0) (t : ℕ) (d : Db)
      → At P body.content_hash true d
      → svg_end svg_at_fixpoint read_blob v body (svg_refused svg_at_fixpoint read_blob v body) t d
        ≡ attached svg_at_fixpoint read_blob v body t d
  attached-At P t d (p, e) = rw e

  attached_absent :
      (P : Db → Type 0) (t : ℕ) (d : Db)
      → At P body.content_hash false d
      → attached svg_at_fixpoint read_blob v body t d ≡ (ok (blob_not_uploaded, none), d)
  attached_absent P t d (p, e) = rw e

  attach-Refines :
      (P : Db → Type 0)
      → Refines P
          (attach svg_at_fixpoint read_blob v body)
          (attached svg_at_fixpoint read_blob v body)
  unfolding attach
  attach-Refines P = blob_present-Refines P body.content_hash _ _ after
    where
      after :
          (present : Bool)
          → Refines
              (At P body.content_hash present)
              (if not present
                then pure (blob_not_uploaded, none)
                else lift (svg_refused svg_at_fixpoint read_blob v body) >>= λ svg.
                    publish svg_at_fixpoint read_blob v body svg)
              (attached svg_at_fixpoint read_blob v body)
      after false = unfold pure lift in Refines-lift _ (ok _) _ (λ t d p. attached_absent P t d p)
      after true =
          Refines-lift_bind _ _ (svg_refused svg_at_fixpoint read_blob v body) _
            (λ r e.
              Refines-ext _ _ _ _ (publish-Refines r) (λ d p. tt)
                (λ t d p.
                  ap (λ x. svg_end svg_at_fixpoint read_blob v body x t d) (sym e)
                  ∙ attached-At P t d p))
            (λ x e t d p.
              sym (attached-At P t d p)
              ∙ ap (λ x. svg_end svg_at_fixpoint read_blob v body x t d) e)

  abbrev Saw : Option PathState → Db → Type 0
  Saw stored d = Unit {0} × (find (v, body.path_key) d.path_states ≡ stored)

  compete-Refines :
      (stored : Option PathState)
      → Refines
          (Saw stored)
          (compete svg_at_fixpoint read_blob v body stored)
          (competed svg_at_fixpoint read_blob v body stored)
  unfolding compete
  compete-Refines none = attach-Refines (Saw none)
  compete-Refines (some cur) =
      Refines-if _ (repeats body cur) _ _ _
        (λ e. unfold pure lift in Refines-lift _ (ok _) _ (λ t d p. rw e))
        (λ e.
          Refines-if _ (not (wins body cur)) _ _ _
            (λ f. unfold pure lift in Refines-lift _ (ok _) _ (λ t d p. rw e (rw f)))
            (λ f.
              Refines-ext _ _ _ _ (attach-Refines (Saw (some cur))) (λ d p. p)
                (λ t d p. rw e (rw f))))

  -- A post is refused by its fields; or it repeats what is stored and gets that number; or it loses,
  -- and gets the row that won; or its blob is missing or not a clean SVG; or else its row is written
  -- under the next number and announced. A statement that fails changes nothing and is the error.
  pub post_blob_path-Refines :
      Refines
        (λ _. Unit)
        (post_blob_path svg_at_fixpoint read_blob v body)
        (posted svg_at_fixpoint read_blob v body)
  unfolding post_blob_path
  post_blob_path-Refines = decided (refused body)
    where
      decided :
          (r : Option PathReply)
          → Refines
              (λ _. Unit)
              (elim r [
                | some reply ↦ pure (reply, none)
                | none ↦
                    query (λ _ d. find (v, body.path_key) d.path_states)
                    >>= compete svg_at_fixpoint read_blob v body
              ])
              (posted_unless svg_at_fixpoint read_blob v body r)
      decided (some reply) = unfold pure lift in Refines-lift _ (ok _) _ (λ t d p. refl)
      decided none =
          Refines-query _ _ (λ _ d. find (v, body.path_key) d.path_states) _
            (λ t stored.
              Refines-ext _ _ _ _ (compete-Refines stored) (λ d p. p)
                (λ t d p. ap (λ s. competed svg_at_fixpoint read_blob v body s t d) (sym p.1)))
