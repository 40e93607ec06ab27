-- ===== src/Handlers/Checks.antt =====
-- handlers.rs, the limits on the identifiers of a frame, before anything else is done with it.
use vaultcrdt_server.Base.{
  ltb, if◌then◌else◌, nat_eq, list_eq, option_eq, pair_eq, length, Text, ℕ, max, Option, none, some,
}
use vaultcrdt_server.Errors.{
  ServerError, Result, ok, err, Field, too_long, doc_uuid_field, peer_id_field, request_id_field,
  intent_id_field,
}
use vaultcrdt_server.Sql.{Sql, pure, lift, ◌>>=◌}
use vaultcrdt_server.Protocol.{ClientMsg}

-- lib.rs
abbrev pub max_doc_uuid_bytes : ℕ
max_doc_uuid_bytes = 1024

abbrev pub max_peer_id_bytes : ℕ
max_peer_id_bytes = 128

abbrev pub max_request_id_bytes : ℕ
max_request_id_bytes = 128

infixl 10 ◌>>◌
abbrev pub ◌>>◌ {ℓ} : {A : Type ℓ} → Sql (Unit {0}) → Sql A → Sql A
m >> n = m >>= λ _. n

unfoldable pub check_len : Field → Text → ℕ → Result (Unit {0})
check_len field value max =
    if ltb max (length value) then err (ServerError.bad_frame (too_long field)) else ok tt

unfoldable pub check_optional : Field → Option Text → ℕ → Result (Unit {0})
unfolding check_len
check_optional field none max = ok tt
check_optional field (some value) max = check_len field value max

unfoldable pub check_ids : Text → Text → Option Text → Sql (Unit {0})
unfolding check_len check_optional
check_ids doc_uuid peer_id request_id = do
  lift (check_len doc_uuid_field doc_uuid max_doc_uuid_bytes)
  lift (check_len peer_id_field peer_id max_peer_id_bytes)
  lift (check_optional request_id_field request_id max_request_id_bytes)

unfoldable pub check_lengths : ClientMsg → Sql (Unit {0})
unfolding check_ids
check_lengths (ClientMsg.auth token protocol_version features) = pure tt
check_lengths ClientMsg.ping = pure tt
check_lengths ClientMsg.request_doc_list = pure tt
check_lengths (ClientMsg.sync_start doc_uuid client_vv) =
    lift (check_len doc_uuid_field doc_uuid max_doc_uuid_bytes)
check_lengths (ClientMsg.sync_push doc_uuid delta peer_id request_id) =
    check_ids doc_uuid peer_id request_id
check_lengths (ClientMsg.doc_create doc_uuid snapshot peer_id replace_tombstone request_id) =
    check_ids doc_uuid peer_id request_id
check_lengths (ClientMsg.doc_delete doc_uuid peer_id expected_incarnation intent_id request_id) = do
  check_ids doc_uuid peer_id request_id
  lift (check_optional intent_id_field intent_id max_request_id_bytes)
