-- ===== src/Tests/Journaling.antt =====
-- Two records of a journal, the second a directory, and an answer that is cut off.
use file_reaper.Prelude.{
  ◌*◌, ◌≤◌, ℕ, ◌+◌, ◌^◌, ◌<◌, ◌≡◌, refl, inl, List, [], ◌∷◌, ◌++◌, map, length, some, arith,
}
use file_reaper.Prelude.Text.{Text}
use file_reaper.Usn.{as_i64, parse_records, parse_read_usn_buffer}
use file_reaper.Usn.Layout.{to_le, RawRecord, IsRecord, encode_all, change_of}
use file_reaper.Usn.Journal.{
  parse_records-fuel, length-parse_records, parse_read_usn_buffer-encode_all,
}

-- Every unit stands for itself.
abbrev lossy : List ℕ → Text
lossy us = us

abbrev raw : ℕ → ℕ → RawRecord
raw file_ref attributes = record {
  major = 2;
  minor = 0;
  file_ref = file_ref;
  parent_ref = 5;
  usn = 4096;
  timestamp = 0;
  reason = 0x100;
  source_info = 0;
  security_id = 0;
  attributes = attributes;
  name = b'a' ∷ 0 ∷ [];
  padding = 0 ∷ 0 ∷ [];
}

raw-IsRecord :
    (file_ref attributes : ℕ)
    → file_ref < 2 ^ 64
    → attributes < 2 ^ 32
    → IsRecord (raw file_ref attributes)
raw-IsRecord file_ref attributes h g = record {
  version = inl refl;
  file_ref = h;
  parent_ref = omega arith;
  usn = omega arith;
  timestamp = omega arith;
  reason = omega arith;
  attributes = g;
  name = omega arith;
  whole = omega arith;
}

abbrev two_records : List RawRecord
two_records = raw (2 ^ 48 + 7) 0x20 ∷ raw 8 0x10 ∷ []

parse_read_usn_buffer-encode_all_example :
    let buf = to_le 8 9000 ++ encode_all two_records in
    parse_read_usn_buffer lossy buf (length buf)
    ≡ some (record { next_start_usn = as_i64 9000; changes = map (change_of lossy) two_records })
parse_read_usn_buffer-encode_all_example =
    parse_read_usn_buffer-encode_all lossy 9000 two_records (omega arith) (
      raw-IsRecord (2 ^ 48 + 7) 0x20 (omega arith) (omega arith),
      (raw-IsRecord 8 0x10 (omega arith) (omega arith), tt),
    )

-- The second record reaches over the limit.
abbrev cut_off : ℕ
cut_off = 100

parse_records-fuel_example :
    parse_records lossy 1 (encode_all two_records) cut_off 0
    ≡ parse_records lossy 1000 (encode_all two_records) cut_off 0
parse_records-fuel_example =
    parse_records-fuel lossy 1 1000 (encode_all two_records) cut_off 0 (omega arith) (omega arith)

length-parse_records_example :
    60 * length (parse_records lossy 100 (encode_all two_records) cut_off 0) + 0 ≤ cut_off
length-parse_records_example =
    length-parse_records lossy 100 (encode_all two_records) cut_off 0 (omega arith)

cut_off_runs : length (parse_records lossy 100 (encode_all two_records) cut_off 0) ≡ 1
unfolding parse_records encode_all
cut_off_runs = refl
