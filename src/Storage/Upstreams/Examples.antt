-- ===== src/Storage/Upstreams/Examples.antt =====
-- internal/storage/admin_upstreams.go: the properties at an upstream that is created and deleted.
use llm_security_audit_gatew.Base.{◌≡◌, refl, pos, [], none, some, true, false}
use llm_security_audit_gatew.Storage.Upstreams.{
  UpstreamRow, Db, Texts, upstream_of, encrypt_secret, upstream_lifecycle,
}
use llm_security_audit_gatew.Storage.Upstreams.Writes.{Draft, create_upstream}
use llm_security_audit_gatew.Storage.Upstreams.Deletion.{commits, request_upstream_deletion}
use llm_security_audit_gatew.Storage.Upstreams.Rows.{Sound}
use llm_security_audit_gatew.Storage.Upstreams.Steps.{
  Reach, here, next, created, requested, Reach-Sound,
}
use llm_security_audit_gatew.Storage.Upstreams.Terminal.{StaysOrPurged, deleting_stays}

abbrev texts : Texts
texts = record {
  trim_space = λ s. s;
  trim_slashes = λ s. s;
  byte_length = λ s. 9;
  parse_url = λ s. some (record { scheme = "https"; host = "api.example"; has_user = false });
}

abbrev draft : Draft
draft = record { name = "main"; base_url = "https://api.example"; api_key = ""; enabled = true }

abbrev nothing : Db
nothing = record { upstreams = []; keys = [] }

abbrev one_upstream : Db
one_upstream = (create_upstream texts 5 "u1" draft none none nothing).1

abbrev one_deleting : Db
one_deleting = (request_upstream_deletion 9 (pos 60) "u1" commits one_upstream).1

one_deleting-Reach : Reach nothing one_deleting
one_deleting-Reach =
    next (next here (created texts 5 "u1" draft none none)) (requested 9 (pos 60) "u1" commits)

Reach-Sound_example : Sound one_deleting
Reach-Sound_example = Reach-Sound one_deleting-Reach

abbrev leaving : UpstreamRow
leaving = record {
  id = "u1";
  name = "main";
  base_url = "https://api.example";
  api_key_ciphertext = none;
  enabled = false;
  lifecycle_state = "deleting";
  delete_requested_at = some 9;
  purge_after = some 69;
  created_at = 5;
  updated_at = 9;
}

leaving_found : upstream_of "u1" one_deleting.upstreams ≡ some leaving
unfolding upstream_of create_upstream request_upstream_deletion encrypt_secret upstream_lifecycle
leaving_found = refl

-- A second request, which finds it being deleted.
deleting_stays_example :
    StaysOrPurged 20 "u1" leaving
      (request_upstream_deletion 20 (pos 60) "u1" commits one_deleting).1.upstreams
deleting_stays_example =
    deleting_stays "u1" leaving one_deleting-Reach (requested 20 (pos 60) "u1" commits)
      leaving_found refl
