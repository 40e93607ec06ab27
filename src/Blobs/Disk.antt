-- ===== src/Blobs/Disk.antt =====
-- The files under `blob_dir` beside the tables, and the actions on both. Every call of tokio::fs may
-- fail, as a list of outcomes to come says; a write that fails may have written some of its bytes.
-- Where all of a list's outcomes fail from some point on, the process has died there.
pub mod Triples
pub mod Reading
pub mod Lengths
use vaultcrdt_server.Base.{
  if◌then◌else◌, tests, nat_eq, list_eq, option_eq, pair_eq, length, take, drop, is_some, Bytes,
  Text, ℕ, zero, suc, ◌+◌, ◌-◌, Bool, true, false, Option, none, some, List, [], ◌∷◌, ◌++◌, arith,
}
use vaultcrdt_server.Table.{Table, find, put, remove}
use vaultcrdt_server.Errors.{ServerError, Result, ok, err}
use vaultcrdt_server.Db.{Db, Key}
use vaultcrdt_server.Sql.{Conn, Sql}

-- `tmp/{upload_id}`, and `{vault_id}/{hash[..2]}/{hash}` by the vault and the hash.
pub record Files : Type 0 where
  pub tmp : Table Text Bytes
  pub stored : Table Key Bytes

pub record DiskOutcome : Type 0 where
  pub fails : Bool
  pub written : ℕ

pub record World : Type 0 where
  pub conn : Conn
  pub files : Files
  pub disk : List DiskOutcome

abbrev pub Io {ℓ} : Type ℓ → Type ℓ
Io A = World → Result A × World

module _ {ℓ} {A : Type ℓ} where
  unfoldable pub pure : A → Io A
  pure a w = (ok a, w)

  unfoldable pub raise : ServerError → Io A
  raise e w = (err e, w)

  -- An action on the tables alone.
  unfoldable pub sql : Sql A → Io A
  sql m w = let (r, c) = m w.conn in (r, record w { conn = c })

-- The connection is given back here, and other requests may run before it is taken again.
unfoldable pub meanwhile : (World → World) → Io (Unit {0})
meanwhile others w = (ok tt, others w)

module _ {ℓ κ} {A : Type ℓ} {B : Type κ} where
  abbrev pub continue : Result A → (A → Io B) → Io B
  continue (ok a) f w = f a w
  continue (err e) f w = (err e, w)

  infixl 10 ◌>>=◌
  unfoldable pub ◌>>=◌ : Io A → (A → Io B) → Io B
  ◌>>=◌ m f w = let (r, w') = m w in continue r f w'

infixl 10 ◌>>◌
abbrev pub ◌>>◌ {ℓ} : {A : Type ℓ} → Io (Unit {0}) → Io A → Io A
m >> n = m >>= λ _. n

-- `let _ = …`: what happened is not looked at.
module _ {A : Type 0} where
  unfoldable pub attempt : Io A → Io (Result A)
  attempt m w = let (r, w') = m w in (ok r, w')

  abbrev pub ignore : Io A → Io (Unit {0})
  ignore m = attempt m >>= λ _. pure tt

module _ {A : Type 0} where
  abbrev pub performed : Option (A × Files) → World → Result A × World
  performed none w = (err ServerError.io, w)
  performed (some (a, files)) w = (ok a, record w { files = files })

  unfoldable pub next_call :
      List DiskOutcome → (ℕ → Files → Files) → (Files → Option (A × Files)) → Io A
  next_call [] broken f w = performed (f w.files) w
  next_call (o ∷ rest) broken f w =
      if o.fails
      then (err ServerError.io, record w { files = broken o.written w.files; disk = rest })
      else performed (f w.files) (record w { disk = rest })

  -- One call: `f` gives what it does, or no value where it fails by itself; `broken` what is left
  -- where the disk fails.
  unfoldable pub call : (ℕ → Files → Files) → (Files → Option (A × Files)) → Io A
  unfolding next_call
  call broken f w = next_call w.disk broken f w

abbrev pub as_it_was : ℕ → Files → Files
as_it_was _ files = files

-- `create_dir_all`, `seek` and `sync_all`: the directories are not modelled.
unfoldable pub sync : Io (Unit {0})
unfolding call
sync = call as_it_was (λ files. some (tt, files))

-- `File::create`: an empty file, whatever was there.
unfoldable pub create_tmp : Text → Io (Unit {0})
unfolding call
create_tmp id = call as_it_was (λ files. some (tt, record files { tmp = put id [] files.tmp }))

abbrev pub or_empty : Option Bytes → Bytes
or_empty none = []
or_empty (some bytes) = bytes

-- `OpenOptions` with `create(true)` and `truncate(false)`
unfoldable pub open_tmp : Text → Io (Unit {0})
unfolding call
open_tmp id =
    call as_it_was
      (λ files. some (tt, record files { tmp = put id (or_empty (find id files.tmp)) files.tmp }))

unfoldable pub zeros : ℕ → Bytes
zeros zero = []
zeros (suc n) = 0 ∷ zeros n

-- The file after a write at an offset; a gap before it reads as zeros.
unfoldable pub written_at : ℕ → Bytes → Bytes → Bytes
unfolding zeros
written_at offset buf file =
    take offset (file ++ zeros (offset - length file)) ++ (buf ++ drop (offset + length buf) file)

abbrev pub overwrite : Text → ℕ → Bytes → Files → Files
overwrite id offset buf files = record files {
  tmp = put id (written_at offset buf (or_empty (find id files.tmp))) files.tmp;
}

-- `write_all` of the open file, from the offset that `seek` left. A write of nothing leaves the
-- length.
unfoldable pub write_tmp : Text → ℕ → Bytes → Io (Unit {0})
unfolding call written_at
write_tmp id offset buf =
    call (λ n. overwrite id offset (take n buf)) (λ files. some (tt, overwrite id offset buf files))

abbrev pub read_from : Option Bytes → Files → Option (Bytes × Files)
read_from none files = none
read_from (some bytes) files = some (bytes, files)

-- `tokio::fs::read`
unfoldable pub read_tmp : Text → Io Bytes
unfolding call
read_tmp id = call as_it_was (λ files. read_from (find id files.tmp) files)

-- `OpenOptions` with `write(true)` alone
unfoldable pub reopen_tmp : Text → Io (Unit {0})
unfolding call
reopen_tmp id =
    call as_it_was
      (λ files. elim (find id files.tmp) [ none ↦ none | some bytes ↦ some (tt, files) ])

unfoldable pub remove_tmp : Text → Io (Unit {0})
unfolding call
remove_tmp id = call as_it_was (λ files. elim (find id files.tmp) [
  | none ↦ none
  | some bytes ↦ some (tt, record files { tmp = remove id files.tmp })
])

-- `try_exists` of a blob's file
unfoldable pub exists_stored : Key → Io Bool
unfolding call
exists_stored k = call as_it_was (λ files. some (is_some (find k files.stored), files))

unfoldable pub remove_stored : Key → Io (Unit {0})
unfolding call
remove_stored k = call as_it_was (λ files. elim (find k files.stored) [
  | none ↦ none
  | some bytes ↦ some (tt, record files { stored = remove k files.stored })
])

-- `rename` of an upload's file to a blob's
unfoldable pub place : Text → Key → Io (Unit {0})
unfolding call
place id k = call as_it_was (λ files. elim (find id files.tmp) [
  | none ↦ none
  | some bytes ↦
      some (tt, record files { tmp = remove id files.tmp; stored = put k bytes files.stored })
])

-- `metadata` and `read` of a blob's file: `none` stands for the error that there is no file.
unfoldable pub look_stored : Key → Io (Option Bytes)
unfolding call
look_stored k = call as_it_was (λ files. some (find k files.stored, files))
