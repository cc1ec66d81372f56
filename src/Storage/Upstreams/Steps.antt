-- ===== src/Storage/Upstreams/Steps.antt =====
-- internal/storage/admin_upstreams.go: what the statements of any number of gateways, in any order,
-- make of the tables.
use llm_security_audit_gatew.Base.{ℕ, ◌≡◌, refl, subst, String, ℤ, [], Option, none, some, Bool}
use llm_security_audit_gatew.Base.Result.{ok}
use llm_security_audit_gatew.Auth.Keys.{KeyRecord}
use llm_security_audit_gatew.Storage.Upstreams.{Db, Cipher, Texts, upstream_of, key_of}
use llm_security_audit_gatew.Storage.Upstreams.Writes.{
  Draft, create_upstream, update_upstream, create_gateway_api_key, revoke_row,
  revoke_gateway_api_key,
}
use llm_security_audit_gatew.Storage.Upstreams.Deletion.{
  Ending, request_upstream_deletion, finalize_one,
}
use llm_security_audit_gatew.Storage.Upstreams.Rows.{Sound}
use llm_security_audit_gatew.Storage.Upstreams.Lifecycle.{
  create_upstream-Sound, update_upstream-Sound, insert_key-Sound, map_keys-Sound,
  revoke_row-BoundOk,
}
use llm_security_audit_gatew.Storage.Upstreams.Deletion.{next_due}
use llm_security_audit_gatew.Storage.Upstreams.Sweep.{
  request_upstream_deletion-Sound, finalize_one-Sound, SoundOk,
}

-- One transaction; a round of the sweep is one of its own.
pub data Step (db : Db) : Db → Type 0 where
  created :
      (t : Texts) (now : ℕ) (id : String) (d : Draft) (key : Option Cipher) (fault : Option String)
      → Step db (create_upstream t now id d key fault db).1
  updated :
      (t : Texts) (now : ℕ) (id : String) (d : Draft) (key : Option Cipher) (fault : Option String)
      → Step db (update_upstream t now id d key fault db).1
  key_created :
      (now : ℕ) (key : KeyRecord) (fault : Option String)
      → Step db (create_gateway_api_key now key fault db).1
  key_revoked : (now : ℕ) (id : String) → Step db (revoke_gateway_api_key now id db).1
  requested :
      (now : ℕ) (grace : ℤ) (id : String) (ending : Ending)
      → Step db (request_upstream_deletion now grace id ending db).1
  swept :
      {after : Db} (now : ℕ) (locked : String → Bool) (id : String) (ending : Ending)
      → next_due now locked db.upstreams ≡ some id
      → finalize_one id ending db ≡ ok after
      → Step db after

-- The clock of a transaction.
abbrev pub instant : {db after : Db} → Step db after → ℕ
instant (created t now id d key fault) = now
instant (updated t now id d key fault) = now
instant (key_created now key fault) = now
instant (key_revoked now id) = now
instant (requested now grace id ending) = now
instant (swept now locked id ending picked done) = now

pub data Reach (s : Db) : Db → Type 0 where
  here : Reach s s
  next : {t u : Db} → Reach s t → Step t u → Reach s u

create_gateway_api_key-Sound :
    (now : ℕ) (key : KeyRecord) (fault : Option String) (db : Db)
    → Sound db
    → Sound (create_gateway_api_key now key fault db).1
unfolding create_gateway_api_key
create_gateway_api_key-Sound now key (some fault) db v = v
create_gateway_api_key-Sound now key none db v =
    insert_key-Sound now key db (upstream_of key.upstream_id db.upstreams) (key_of key.id db.keys)
      refl v

Step-Sound : {db after : Db} → Step db after → Sound db → Sound after
Step-Sound {db} (created t now id d key fault) v = create_upstream-Sound t now id d key fault db v
Step-Sound {db} (updated t now id d key fault) v = update_upstream-Sound t now id d key fault db v
Step-Sound {db} (key_created now key fault) v = create_gateway_api_key-Sound now key fault db v
Step-Sound {db} (key_revoked now id) v =
    unfold revoke_gateway_api_key in
    map_keys-Sound (revoke_row now id) (revoke_row-BoundOk now id) db v
Step-Sound {db} (requested now grace id ending) v =
    request_upstream_deletion-Sound now grace id ending db v
Step-Sound {db} (swept now locked id ending picked done) v =
    subst SoundOk done (finalize_one-Sound id ending db v)

-- Whatever statements the gateways run and whichever of them fail, from empty tables on: an
-- upstream is enabled exactly where it is active; one that is being deleted has dates by which the
-- sweep can purge it, and no secret; each key's upstream is there, and that of a key that is not
-- revoked is not being deleted.
pub Reach-Sound : {db : Db} → Reach (record { upstreams = []; keys = [] }) db → Sound db
Reach-Sound here = record { rows_ok = tt; keys_ok = tt }
Reach-Sound (next r s) = Step-Sound s (Reach-Sound r)
