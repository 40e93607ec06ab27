-- ===== src/Tests/Toy.antt =====
-- A small CRDT for the examples: a document is the list of its characters in the order they came,
-- its version vector counts them under peer 1, and an empty blob cannot be imported.
use vaultcrdt_server.Base.{
  nat_beq, if◌then◌else◌, nat_eq, list_eq, option_eq, pair_eq, length, is_empty, Bytes, Text, codes,
  ℕ, zero, suc, true, false, Option, none, some, List, [], ◌∷◌, ◌++◌,
}
use vaultcrdt_server.Base.Int.{ℤ, pos, negsuc}
use vaultcrdt_server.Loro.{Loro}
use vaultcrdt_server.Protocol.{ClientMsg}

unfoldable pub encode_entries : List (ℕ × ℤ) → Bytes
encode_entries [] = []
encode_entries ((k, pos n) ∷ rest) = k ∷ 0 ∷ n ∷ encode_entries rest
encode_entries ((k, negsuc n) ∷ rest) = k ∷ 1 ∷ n ∷ encode_entries rest

unfoldable pub decode_entries : Bytes → Option (List (ℕ × ℤ))
decode_entries [] = some []
decode_entries (k ∷ []) = none
decode_entries (k ∷ s ∷ []) = none
decode_entries (k ∷ s ∷ n ∷ rest) = elim (decode_entries rest) [
  | none ↦ none
  | some entries ↦ some ((k, if nat_beq s 0 then pos n else negsuc n) ∷ entries)
]

unfoldable pub lookup : List (ℕ × ℤ) → ℕ → Option ℤ
lookup [] k = none
lookup ((j, z) ∷ rest) k = if nat_beq j k then some z else lookup rest k

-- One number per text, as a text of one character has.
unfoldable pub to_json : List (Text × ℤ) → Bytes
to_json [] = []
to_json ((t, pos n) ∷ rest) = t ++ 44 ∷ n ∷ to_json rest
to_json ((t, negsuc n) ∷ rest) = to_json rest

unfoldable pub from_json : Bytes → Option (List (Text × ℤ))
from_json [] = some []
from_json (c ∷ []) = none
from_json (c ∷ s ∷ []) = none
from_json (c ∷ s ∷ n ∷ rest) = elim (from_json rest) [
  | none ↦ none
  | some entries ↦ some ((c ∷ [], pos n) ∷ entries)
]

abbrev pub toy : Loro
toy = record {
  LoroDoc = List ℕ;
  VersionVector = List (ℕ × ℤ);
  new = [];
  import = λ doc bytes. if is_empty bytes then none else some (doc ++ bytes);
  export_snapshot = λ doc. some doc;
  export_updates = λ doc vv. some doc;
  oplog_vv = λ doc. (1, pos (length doc)) ∷ [];
  decode_import_blob_meta =
      λ bytes. some (record { change_num = length bytes; start_frontiers_is_empty = false });
  content = λ doc. doc;
  vv_encode = encode_entries;
  vv_decode = decode_entries;
  vv_entries = λ vv. vv;
  vv_get = lookup;
  vv_new = [];
  vv_insert = λ k z vv. (k, z) ∷ vv;
  json_to_vec = to_json;
  json_from_slice = from_json;
}

abbrev pub vault : Text
vault = codes "v"

abbrev pub note : Text
note = codes "note.md"

abbrev pub peer : Text
peer = codes "p"

-- The frames of the examples, by their one byte.
abbrev frame_at : List ClientMsg → ℕ → Option ClientMsg
frame_at [] n = none
frame_at (m ∷ rest) zero = some m
frame_at (m ∷ rest) (suc n) = frame_at rest n

unfoldable pub from_slice : Bytes → Option ClientMsg
from_slice [] = none
from_slice (byte ∷ _) = frame_at frames byte
  where
    frames : List ClientMsg
    frames =
        ClientMsg.doc_create note (104 ∷ []) peer false (some (codes "r1"))
        ∷ ClientMsg.sync_push note (105 ∷ []) peer (some (codes "r2"))
        ∷ ClientMsg.doc_delete note peer none none (some (codes "r3"))
        ∷ ClientMsg.doc_create note (106 ∷ []) peer true none
        ∷ []
