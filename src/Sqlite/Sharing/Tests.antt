-- ===== src/Sqlite/Sharing/Tests.antt =====
-- Runs of `crates/blobyard-repository-sqlite/src/sharing.rs` on one share that may be downloaded
-- once.
use blobyard_core.Contract.{not_found, NewDownloadGrant}
use blobyard_core.Sqlite.Database.{DownloadRow}
use blobyard_core.Sqlite.Transfers.Downloads.{stored_object}
use blobyard_core.Sqlite.Transfers.Tests.{
  digest, other_digest, upload_a, finished, done_version, done_row, transfer_runs,
}
use blobyard_core.Sqlite.Sharing.Audit.{
  NewAuditEvent, text, validate_metadata, validate_audit, insert_event,
}
use blobyard_core.Sqlite.Sharing.{
  active, NewShare, ShareRow, ShareTarget, ShareDatabase, share_record, find_share, share_by_id,
  validate_capability, validate_new_share, validate_event, insert_share, create_share,
  target_by_capability, validate_grant, consumed, consume, insert_grant, download_target,
  issue_share_download,
}
use blobyard_core.Sqlite.Sharing.Limits.{AllLimited, start, creating, issuing, Run-AllLimited}
use blobyard_core.Sqlite.Sharing.Counting.{Run-le-maximum}
use blobyard_core.Base.{
  ℕ, ◌+◌, ◌≤◌, ◌≡◌, refl, none, some, [], ◌∷◌, arith, Str, lit, str_eq, ok, err,
}

unfoldable sharing_runs : Unit {0}
unfolding transfer_runs validate_metadata validate_audit insert_event share_by_id
    validate_capability validate_new_share validate_event insert_share create_share
    target_by_capability validate_grant consume insert_grant download_target issue_share_download
sharing_runs = tt

abbrev event_of : Str → Str → ℕ → NewAuditEvent
event_of id action at = record {
  id = id;
  workspace_id = lit "workspace";
  actor = lit "operator";
  action = action;
  request_id = lit "request";
  target_type = lit "share";
  metadata = (lit "shareId", text (lit "share")) ∷ [];
  created_at_ms = at;
}

abbrev no_shares : ShareDatabase
no_shares = record {
  uploads = finished;
  workspaces = (lit "project", lit "workspace") ∷ [];
  shares = [];
  events = [];
}

abbrev once : NewShare
once = record {
  id = lit "share";
  workspace_id = lit "workspace";
  version_id = upload_a;
  capability_hash = digest;
  expires_at_ms = 5000;
  maximum_downloads = some 1;
  created_at_ms = 3000;
}

abbrev share_row : ShareRow
share_row = record {
  id = lit "share";
  workspace_id = lit "workspace";
  version_id = some upload_a;
  capability_hash = digest;
  expires_at_ms = 5000;
  status = active;
  consumed_count = 0;
  maximum_downloads = some 1;
  created_at_ms = 3000;
  revoked_at_ms = none;
}

abbrev created_event : NewAuditEvent
created_event = event_of (lit "event-1") (lit "share.created") 3000

abbrev issued_event : NewAuditEvent
issued_event = event_of (lit "event-2") (lit "share.download_issued") 4000

abbrev shared : ShareDatabase
shared = record no_shares { shares = share_row ∷ []; events = created_event ∷ [] }

abbrev ticket : NewDownloadGrant
ticket = record { version_id = upload_a; capability_hash = other_digest; expires_at_ms = 4500 }

abbrev ticket_row : DownloadRow
ticket_row = record { capability_hash = other_digest; version_id = upload_a; expires_at_ms = 4500 }

abbrev spent : ShareDatabase
spent = record {
  uploads = record finished { downloads = ticket_row ∷ [] };
  workspaces = (lit "project", lit "workspace") ∷ [];
  shares = consumed share_row ∷ [];
  events = created_event ∷ issued_event ∷ [];
}

abbrev target : ShareTarget
target = record {
  share = share_record (consumed share_row);
  object = stored_object done_version done_row;
}

run_create : create_share once created_event no_shares ≡ ok (share_record share_row, shared)
unfolding sharing_runs
run_create = refl

run_issue : issue_share_download digest 4000 ticket issued_event shared ≡ ok (target, spent)
unfolding sharing_runs
run_issue = refl

run_again : issue_share_download digest 4000 ticket issued_event spent ≡ err not_found
unfolding sharing_runs
run_again = refl

Run-AllLimited_example : AllLimited spent
unfolding str_eq
Run-AllLimited_example = Run-AllLimited (lit "share") no_shares spent 1 tt (
    issuing digest 4000 ticket issued_event target
      (creating once created_event (share_record share_row) start run_create) run_issue)

found_share : find_share (lit "share") shared ≡ some share_row
unfolding sharing_runs
found_share = refl

Run-le-maximum_example :
    (s : ShareRow) × (find_share (lit "share") spent ≡ some s)
    × (s.consumed_count ≡ 0 + 1)
    × (0 + 1 ≤ 1)
unfolding str_eq
Run-le-maximum_example =
    Run-le-maximum (lit "share") shared spent 1 1 share_row (omega arith, tt) found_share refl
      (issuing digest 4000 ticket issued_event target start run_issue)
