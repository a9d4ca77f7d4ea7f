-- ===== src/Sqlite/Inboxes/Tests.antt =====
-- Runs of `crates/blobyard-repository-sqlite/src/inboxes.rs` and `inbox_uploads.rs` on one inbox.
use blobyard_core.Contract.{ObjectSource, NewUploadReservation, ObjectVersionRecord, conflict}
use blobyard_core.Sqlite.Database.{Database, ReservationRow, reservation_record}
use blobyard_core.Sqlite.Transfers.{
  new_version_row, new_reservation_row, received, completed, completed_version, aborted_row,
  aborted_version, record_uploaded_bytes,
}
use blobyard_core.Sqlite.Transfers.Tests.{digest, other_digest, upload_a, first, transfer_runs}
use blobyard_core.Sqlite.Sharing.{validate_capability}
use blobyard_core.Sqlite.Sharing.Audit.{
  NewAuditEvent, text, number, validate_metadata, validate_audit, insert_event,
}
use blobyard_core.Sqlite.Inboxes.{
  NewInbox, InboxRow, NewInboxUpload, LinkRow, LinkStatus, InboxDatabase, InboxStatus,
  validate_name, inbox_by_id, active_by_capability, upload_of, validate_new_inbox,
  validate_inbox_event, insert_inbox, create_inbox, close_inbox, revoke_inbox, inbox_record, closed,
}
use blobyard_core.Sqlite.Inboxes.Uploads.{
  with_reserved, with_completed, with_status, new_link, validate_scope, update_inbox,
  reserve_capacity, complete_capacity, release_capacity, transition_link, insert_upload, reservable,
  write_reservation, reserve_inbox_upload, inbox_reservation, reserved_inbox_id,
  validate_upload_event, complete_rows, completable, write_completion, complete_inbox_upload,
  abort_rows, abortable, write_abortion, abort_inbox_upload,
}
use blobyard_core.Sqlite.Inboxes.Revoking.{revoke_inbox-revoke_inbox}
use blobyard_core.Sqlite.Inboxes.Ledger.{IsLedger}
use blobyard_core.Sqlite.Inboxes.Steps.{
  start, onward, creating, reserving, receiving, completing, with_uploads, Run-IsLedger,
}
use blobyard_core.Base.{true, false, ◌≡◌, refl, none, [], ◌∷◌, Str, lit, ok, err}

unfoldable inbox_runs : Unit {0}
unfolding transfer_runs validate_metadata validate_audit insert_event validate_capability
    validate_name inbox_by_id active_by_capability upload_of validate_new_inbox validate_inbox_event
    insert_inbox create_inbox close_inbox revoke_inbox validate_scope update_inbox reserve_capacity
    complete_capacity release_capacity transition_link insert_upload reservable write_reservation
    reserve_inbox_upload inbox_reservation reserved_inbox_id validate_upload_event complete_rows
    completable write_completion complete_inbox_upload abort_rows abortable write_abortion
    abort_inbox_upload
inbox_runs = tt

abbrev inbox_id : Str
inbox_id = lit "inbox"

abbrev no_inboxes : InboxDatabase
no_inboxes = record {
  stored = record {
    uploads = record {
      projects = lit "project" ∷ [];
      versions = [];
      reservations = [];
      parts = [];
      downloads = [];
      deleted = [];
    };
    workspaces = (lit "project", lit "workspace") ∷ [];
    shares = [];
    events = [];
  };
  inboxes = [];
  links = [];
}

abbrev new_inbox : NewInbox
new_inbox = record {
  id = inbox_id;
  workspace_id = lit "workspace";
  project_id = lit "project";
  name = lit "Reports";
  capability_hash = digest;
  expires_at_ms = 5000;
  maximum_files = 1;
  maximum_bytes = 10;
  created_at_ms = 500;
}

abbrev created : NewAuditEvent
created = record {
  id = lit "event-1";
  workspace_id = lit "workspace";
  actor = lit "operator";
  action = lit "inbox.created";
  request_id = lit "request";
  target_type = lit "inbox";
  metadata = (lit "inboxId", text inbox_id) ∷ [];
  created_at_ms = 500;
}

abbrev row : InboxRow
row = record {
  id = inbox_id;
  workspace_id = lit "workspace";
  project_id = lit "project";
  name = lit "Reports";
  capability_hash = digest;
  expires_at_ms = 5000;
  status = InboxStatus.active;
  current_files = 0;
  current_bytes = 0;
  reserved_files = 0;
  reserved_bytes = 0;
  maximum_files = 1;
  maximum_bytes = 10;
  created_at_ms = 500;
  revoked_at_ms = none;
}

abbrev opened : InboxDatabase
opened = record no_inboxes {
  stored = record no_inboxes.stored { events = created ∷ [] };
  inboxes = row ∷ [];
}

abbrev arrival : NewInboxUpload
arrival = record { capability_hash = digest; fingerprint_hash = other_digest; now_ms = 1000 }

abbrev value : NewUploadReservation
value = record first { source = ObjectSource.inbox }

abbrev stored_row : ReservationRow
stored_row =
    new_reservation_row value
      (record { expected_size = 5; expires_at_ms = 2000; created_at_ms = 1000; part_size = none })

abbrev version : ObjectVersionRecord
version = new_version_row value 1 1000

abbrev stored : ReservationRow → ObjectVersionRecord → Database
stored r v = record no_inboxes.stored.uploads { reservations = r ∷ []; versions = v ∷ [] }

abbrev link : LinkRow
link = new_link arrival inbox_id upload_a 5 1000

abbrev reserved_db : InboxDatabase
reserved_db = record opened {
  stored = record opened.stored { uploads = stored stored_row version };
  inboxes = with_reserved 5 row ∷ [];
  links = link ∷ [];
}

abbrev received_db : InboxDatabase
received_db = with_uploads (stored (received 5 digest stored_row) version) reserved_db

abbrev uploaded : NewAuditEvent
uploaded = record {
  id = lit "event-2";
  workspace_id = lit "workspace";
  actor = inbox_id;
  action = lit "inbox.uploaded";
  request_id = lit "request";
  target_type = lit "object_version";
  metadata = (lit "byteSize", number 5) ∷ (lit "source", text (lit "inbox")) ∷ [];
  created_at_ms = 1500;
}

abbrev complete_db : InboxDatabase
complete_db = record opened {
  stored = record opened.stored {
    uploads =
        stored (completed (received 5 digest stored_row)) (completed_version 5 digest version);
    events = created ∷ uploaded ∷ [];
  };
  inboxes = with_completed 5 (with_reserved 5 row) ∷ [];
  links = with_status LinkStatus.complete link ∷ [];
}

abbrev aborted_db : InboxDatabase
aborted_db = record opened {
  stored = record opened.stored {
    uploads = stored (aborted_row stored_row) (aborted_version version);
  };
  inboxes = row ∷ [];
  links = with_status LinkStatus.aborted link ∷ [];
}

run_create : create_inbox new_inbox created no_inboxes ≡ ok (inbox_record row, opened)
unfolding inbox_runs
run_create = refl

run_reserve :
    reserve_inbox_upload arrival value opened
    ≡ ok (reservation_record stored_row version, reserved_db)
unfolding inbox_runs
run_reserve = refl

run_receive :
    record_uploaded_bytes upload_a 5 digest reserved_db.stored.uploads
    ≡ ok received_db.stored.uploads
unfolding inbox_runs
run_receive = refl

run_complete :
    complete_inbox_upload digest upload_a 1500 uploaded received_db
    ≡ ok (completed_version 5 digest version, complete_db)
unfolding inbox_runs
run_complete = refl

run_abort :
    abort_inbox_upload digest upload_a 1500 reserved_db
    ≡ ok (reservation_record stored_row version, aborted_db)
unfolding inbox_runs
run_abort = refl

-- The inbox takes one file.
run_full : reserve_inbox_upload arrival value reserved_db ≡ err conflict
unfolding inbox_runs
run_full = refl

nothing-IsLedger : IsLedger no_inboxes
unfolding inbox_runs
nothing-IsLedger = record {
  balanced = λ id row found. absurd (cc);
  backed = λ id l found. absurd (cc);
  owned = λ id missing. refl;
}

Run-IsLedger_example : IsLedger complete_db
Run-IsLedger_example =
    Run-IsLedger {db = no_inboxes} {db' = complete_db}
      (onward
        (onward
          (onward (onward start (creating new_inbox created (inbox_record row) run_create))
            (reserving arrival value (reservation_record stored_row version) run_reserve))
          (receiving upload_a 5 digest received_db.stored.uploads run_receive))
        (completing digest upload_a 1500 uploaded (completed_version 5 digest version)
          run_complete))
      nothing-IsLedger

abbrev revoked_event : NewAuditEvent
revoked_event = record created {
  id = lit "event-3";
  action = lit "inbox.revoked";
  created_at_ms = 600;
}

abbrev revoked_db : InboxDatabase
revoked_db = record opened {
  stored = record opened.stored { events = created ∷ revoked_event ∷ [] };
  inboxes = closed 600 row ∷ [];
}

run_revoke :
    revoke_inbox inbox_id (lit "workspace") 600 revoked_event opened ≡ ok (true, revoked_db)
unfolding inbox_runs
run_revoke = refl

revoke_inbox-revoke_inbox_example :
    revoke_inbox inbox_id (lit "workspace") 700 created revoked_db ≡ ok (false, revoked_db)
revoke_inbox-revoke_inbox_example =
    revoke_inbox-revoke_inbox inbox_id (lit "workspace") 600 700 revoked_event created opened
      revoked_db true run_revoke
