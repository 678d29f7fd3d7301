-- ===== src/Response/Tests.antt =====
-- The theorems on the response writer at a concrete response and error.
use gochoreo.Common.{[]}
use gochoreo.Common.Int.{pos}
use gochoreo.Text.{codes}
use gochoreo.Version.{new_version, default_version}
use gochoreo.Value.{nil}
use gochoreo.Errors.{GoError, migration_error, no_cause}
use gochoreo.Manager.{VersionedResponse}

abbrev response : VersionedResponse
response = record {
  version = new_version (pos 2) (pos 0) (pos 0);
  component = codes "auth";
  operation = codes "login";
  request_id = codes "r1";
  timestamp = codes "9:00";
  payload = nil;
  error = [];
  metadata = [];
}

abbrev failed : GoError
failed = migration_error (codes "auth") default_version default_version (codes "refused") no_cause
