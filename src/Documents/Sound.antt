-- ===== src/Documents/Sound.antt =====
-- Every way to write documents and tombstones keeps the state sound and only lets tokens grow.
use vaultcrdt_server.Base.{
  is_some, eq_refl, nat_eq, list_eq, option_eq, pair_eq, Bytes, Text, ℕ, ◌≤◌, ◌<◌, ◌≡◌, refl, inl,
  false, ◌&&◌, none, some, arith,
}
use vaultcrdt_server.Table.{find, remove}
use vaultcrdt_server.Table.Laws.{find-put, find-remove, put-cases, remove-cases}
use vaultcrdt_server.Db.{Db, Key, Document, Tombstone}
use vaultcrdt_server.Loro.{Loro}
use vaultcrdt_server.Documents.{replace_document, drop_tombstone}
use vaultcrdt_server.Documents.Spec.{next_token, buried_at}
use vaultcrdt_server.Documents.Tokens.{
  IsSound, Grows, Grows-refl, renewed, renewed-Grows, next_token-renewed, rewritten,
  rewritten-Grows, written_given_out, apart_after, row_with,
}

-- What a step has to keep.
pub record Keeps (d d' : Db) : Type 0 where
  pub grows : Grows d d'
  pub sound : IsSound d → IsSound d'

pub Keeps-refl : (d : Db) → Keeps d d
Keeps-refl d = record { grows = Grows-refl d; sound = λ s. s }

module _ (v u : Text) (snapshot vv : Bytes) (t : ℕ) (d : Db) where
  renewed-counter : (y : Text) → next_token y d ≤ next_token y (renewed v u snapshot vv t d)
  renewed-counter y = (renewed-Grows v u snapshot vv t d).counters y

  renewed-given_out :
      (w x : Text) (row : Document)
      → IsSound d
      → find (w, x) (renewed v u snapshot vv t d).documents ≡ some row
      → (1 ≤ row.incarnation) × (row.incarnation < next_token w (renewed v u snapshot vv t d))
  unfolding replace_document
  renewed-given_out w x row s e =
      written_given_out v u snapshot vv t d (next_token v d) (renewed v u snapshot vv t d) w x row s
        (s.counting v, ground (arith, next_token-renewed v u snapshot vv t d v, eq_refl v))
        renewed-counter
        (put-cases (v, u) (w, x) (row_with v u snapshot vv t d (next_token v d)) row d.documents e)

  pub renewed-Keeps : find (v, u) d.tombstones ≡ none → Keeps d (renewed v u snapshot vv t d)
  unfolding replace_document
  renewed-Keeps dead = record {
    grows = renewed-Grows v u snapshot vv t d;
    sound = λ s. record {
      given_out = λ w x row e. renewed-given_out w x row s e;
      counting = λ y. omega (arith, s.counting y, renewed-counter y);
      apart = λ k. apart_after v u snapshot vv t d k _ s dead;
    };
  }

  dead_of_live :
      (old : Document)
      → IsSound d
      → find (v, u) d.documents ≡ some old
      → find (v, u) d.tombstones ≡ none
  dead_of_live old s live = ground (arith, s.apart (v, u))

  pub rewritten-Keeps :
      (old : Document)
      → find (v, u) d.documents ≡ some old
      → Keeps d (rewritten v u snapshot vv t d old)
  unfolding replace_document
  rewritten-Keeps old live = record {
    grows = rewritten-Grows v u snapshot vv t d old live;
    sound = λ s. record {
      given_out = λ w x row e.
          written_given_out v u snapshot vv t d old.incarnation (rewritten v u snapshot vv t d old)
            w x row s (s.given_out v u old live) (λ y. omega arith)
            (put-cases (v, u) (w, x) (row_with v u snapshot vv t d old.incarnation) row d.documents
              e);
      counting = s.counting;
      apart = λ k. apart_after v u snapshot vv t d k _ s (dead_of_live old s live);
    };
  }

  -- A new row, and the tombstone is gone.
  pub renewed_alone-Keeps : Keeps d (drop_tombstone (v, u) (renewed v u snapshot vv t d))
  unfolding drop_tombstone replace_document
  renewed_alone-Keeps = record {
    grows = record {
      counters = λ y. renewed-counter y;
      tokens = λ w x row e. (renewed-Grows v u snapshot vv t d).tokens w x row e;
    };
    sound = λ s. record {
      given_out = λ w x row e. renewed-given_out w x row s e;
      counting = λ y. omega (arith, s.counting y, renewed-counter y);
      apart = λ k. alone k s;
    };
  }
    where
      alone :
          (k : Key)
          → IsSound d
          → (is_some (find k (renewed v u snapshot vv t d).documents)
              && is_some (find k (remove (v, u) d.tombstones)))
            ≡ false
      alone k s = ground (
        arith,
        find-put (v, u) k (row_with v u snapshot vv t d (next_token v d)) d.documents,
        find-remove (v, u) k d.tombstones,
        s.apart k,
      )

module _ (loro : Loro) (v u : Text) (tomb : Tombstone) (d : Db) where
  pub buried_at-Keeps : Keeps d (buried_at loro (v, u) tomb d)
  buried_at-Keeps = record {
    grows = record {
      counters = λ y. omega arith;
      tokens = λ w x row e. inl (row, remove-cases (v, u) (w, x) row d.documents e, refl);
    };
    sound = λ s. record {
      given_out = λ w x row e. s.given_out w x row (remove-cases (v, u) (w, x) row d.documents e);
      counting = s.counting;
      apart = λ k.
          ground (
            arith,
            find-remove (v, u) k d.documents,
            find-put (v, u) k tomb d.tombstones,
            s.apart k,
          );
    };
  }
