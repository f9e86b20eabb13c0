-- ===== src/Usn/Layout.antt =====
-- core/infra/scan-usn/src/record.rs: how a `USN_RECORD_V2` lies in bytes, as the operating system
-- documents it and as `build_test_record_v2` writes it, apart from the parser.
use file_reaper.Prelude.{
  ℕ, zero, suc, ◌+◌, ◌*◌, ◌/◌, ◌%◌, ◌^◌, ◌<◌, ◌≡◌, ◌⊎◌, none, some, List, [], ◌∷◌, ◌++◌, length,
  ◌==◌, arith, if◌then◌else◌,
}
use file_reaper.Prelude.Text.{Text}
use file_reaper.Usn.{
  Bytes, from_le, as_i64, mft_ref, is_directory_bit, utf16le_to_string, UsnChange,
}

-- `to_le_bytes`, in so many bytes.
unfoldable pub to_le : ℕ → ℕ → Bytes
to_le zero n = []
to_le (suc k) n = n % 256 ∷ to_le k (n / 256)

-- How many numbers so many bytes hold.
abbrev pub capacity : ℕ → ℕ
capacity zero = 1
capacity (suc k) = 256 * capacity k

pub from_le-to_le : (k n : ℕ) → n < capacity k → from_le (to_le k n) ≡ n
unfolding from_le to_le
from_le-to_le zero n h = omega (arith, h)
from_le-to_le (suc k) n h = omega (arith, h, from_le-to_le k (n / 256))

-- The fields of a record, and the bytes that fill it up at its end. Numbers are as the bits tell.
pub record RawRecord : Type 0 where
  pub major : ℕ
  pub minor : ℕ
  pub file_ref : ℕ
  pub parent_ref : ℕ
  pub usn : ℕ
  pub timestamp : ℕ
  pub reason : ℕ
  pub source_info : ℕ
  pub security_id : ℕ
  pub attributes : ℕ
  pub name : Bytes
  pub padding : Bytes

abbrev pub record_length : RawRecord → ℕ
record_length r = 60 + (length r.name + length r.padding)

-- The fixed part, then the name and the filling.
unfoldable pub encode : RawRecord → Bytes
unfolding to_le
encode r =
    to_le 4 (record_length r)
    ++ to_le 2 r.major
    ++ to_le 2 r.minor
    ++ to_le 8 r.file_ref
    ++ to_le 8 r.parent_ref
    ++ to_le 8 r.usn
    ++ to_le 8 r.timestamp
    ++ to_le 4 r.reason
    ++ to_le 4 r.source_info
    ++ to_le 4 r.security_id
    ++ to_le 4 r.attributes
    ++ to_le 2 (length r.name)
    ++ to_le 2 60
    ++ (r.name ++ r.padding)

unfoldable pub encode_all : List RawRecord → Bytes
unfolding encode
encode_all [] = []
encode_all (r ∷ rs) = encode r ++ encode_all rs

-- Every field fits its place, and the version is one that the parser reads.
pub record IsRecord (r : RawRecord) : Type 0 where
  pub version : (r.major ≡ 2) ⊎ (r.major ≡ 3)
  pub file_ref : r.file_ref < 2 ^ 64
  pub parent_ref : r.parent_ref < 2 ^ 64
  pub usn : r.usn < 2 ^ 64
  pub timestamp : r.timestamp < 2 ^ 64
  pub reason : r.reason < 2 ^ 32
  pub attributes : r.attributes < 2 ^ 32
  pub name : length r.name < 2 ^ 16
  pub whole : record_length r < 2 ^ 32

-- What a record tells.
unfoldable pub change_of : (List ℕ → Text) → RawRecord → UsnChange
unfolding as_i64 mft_ref is_directory_bit utf16le_to_string
change_of from_utf16_lossy r = record {
  usn = as_i64 r.usn;
  file_ref = mft_ref r.file_ref;
  parent_ref = mft_ref r.parent_ref;
  reason = r.reason;
  name = utf16le_to_string from_utf16_lossy r.name;
  is_directory = is_directory_bit r.attributes;
  timestamp = if r.timestamp == 0 then none else some (as_i64 r.timestamp);
}
