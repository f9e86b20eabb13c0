-- ===== src/Tests/Data.antt =====
-- Entries, requests and states for the examples.
use file_reaper.Prelude.{ℕ, none, Bool, List, [], ◌==◌, if◌then◌else◌}
use file_reaper.Prelude.Int.{pos}
use file_reaper.Prelude.Text.{Text, codes}
use file_reaper.Outcome.{Result, ok}
use file_reaper.Quarantine.{QuarantineEntry, QuarantineStatus, in_flight, FileIdentity}
use file_reaper.Quarantine.Ports.{World}
use file_reaper.Quarantine.Reap.{ReapRequest}
use file_reaper.Tests.Disk.{disk, holds}
use file_reaper.Tests.Table.{table}

abbrev pub source_a : Text
source_a = codes "C:\\a.txt"

abbrev pub source_b : Text
source_b = codes "C:\\b.txt"

abbrev pub surrogate_a : Text
surrogate_a = codes "C:\\q\\1.bin"

abbrev pub surrogate_b : Text
surrogate_b = codes "C:\\q\\2.bin"

abbrev pub entry_a : QuarantineStatus → QuarantineEntry
entry_a status = record {
  id = 1;
  batch_id = none;
  original_path = source_a;
  surrogate_name = codes "1.bin";
  size = 10;
  quarantined_at_unix = pos 100;
  expires_at_unix = pos 200;
  status = status;
}

abbrev pub entry_b : QuarantineStatus → QuarantineEntry
entry_b status = record {
  id = 2;
  batch_id = none;
  original_path = source_b;
  surrogate_name = codes "2.bin";
  size = 20;
  quarantined_at_unix = pos 100;
  expires_at_unix = pos 900;
  status = status;
}

abbrev identity : ℕ → FileIdentity
identity size = record { size = size; modified_at = none }

abbrev pub request_a : ReapRequest
request_a = record {
  entry = entry_a in_flight;
  destination_path = surrogate_a;
  expected_identity = identity 10;
}

abbrev pub request_b : ReapRequest
request_b = record {
  entry = entry_b in_flight;
  destination_path = surrogate_b;
  expected_identity = identity 20;
}

-- Files at the paths, each with its path as its bytes, and rows for the entries. The scripts say which changes fail.
abbrev pub world : List Text → List Bool → List QuarantineEntry → List Bool → World disk table
world paths disk_script entries table_script = record {
  fs = record { files = holds paths; bytes = λ path. path; script = disk_script };
  manifest = record { entries = entries; audit = []; script = table_script };
}

abbrev pub surrogate_path : QuarantineEntry → Result Text
surrogate_path e = if e.id == 1 then ok surrogate_a else ok surrogate_b
