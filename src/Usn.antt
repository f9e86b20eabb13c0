-- ===== src/Usn.antt =====
-- core/infra/scan-usn/src/record.rs: the parser of the journal of changes of a volume. Bytes are
-- numbers below 256. A slice out of range, on which the code panics, is cut short: the tests on
-- lengths let no slice out of range. The decoding of UTF-16 is the standard library's, a parameter.
pub mod Layout
pub mod Records
pub mod Journal
use file_reaper.Prelude.{
  ℕ, zero, suc, ◌+◌, ◌-◌, ◌*◌, ◌/◌, ◌%◌, ◌^◌, Bool, true, false, ◌||◌, ◌&&◌, not, Option, none,
  some, List, [], ◌∷◌, ltb, leb, ◌==◌, length, take, drop, if◌then◌else◌,
}
use file_reaper.Prelude.Int.{ℤ, pos, negsuc}
use file_reaper.Prelude.Text.{Text}

abbrev pub Bytes : Type 0
Bytes = List ℕ

-- `buf[from..to]`
abbrev pub slice : ℕ → ℕ → Bytes → Bytes
slice from to buf = take (to - from) (drop from buf)

-- `from_le_bytes` of an unsigned number.
unfoldable pub from_le : Bytes → ℕ
from_le [] = 0
from_le (b ∷ bs) = b + 256 * from_le bs

-- The `i64` of 64 bits.
unfoldable pub as_i64 : ℕ → ℤ
as_i64 n = if ltb n (2 ^ 63) then pos n else negsuc (2 ^ 64 - 1 - n)

pub record UsnChange : Type 0 where
  pub usn : ℤ
  pub file_ref : ℕ
  pub parent_ref : ℕ
  pub reason : ℕ
  pub name : Text
  pub is_directory : Bool
  pub timestamp : Option ℤ

pub record ParsedUsnBuffer : Type 0 where
  pub next_start_usn : ℤ
  pub changes : List UsnChange

-- `bytes.chunks_exact(2)`, as numbers of 16 bits.
unfoldable pub units : Bytes → List ℕ
unfolding from_le
units (a ∷ b ∷ bs) = from_le (a ∷ b ∷ []) ∷ units bs
units _ = []

-- `& MFT_REF_MASK`, which is the lower 48 bits.
unfoldable pub mft_ref : ℕ → ℕ
mft_ref n = n % 2 ^ 48

-- `file_attributes & FILE_ATTRIBUTE_DIRECTORY != 0`, where the attribute is the bit 0x10.
unfoldable pub is_directory_bit : ℕ → Bool
is_directory_bit n = n / 16 % 2 == 1

-- `if let Some(change) = parse_usn_record_v2(…) { changes.push(change) }`
abbrev pub add_change : Option UsnChange → List UsnChange → List UsnChange
add_change none changes = changes
add_change (some change) changes = change ∷ changes

-- The loop of `parse_read_usn_buffer` goes on, and does not break at a record of this length.
abbrev pub takes : ℕ → ℕ → ℕ → Bool
takes limit off record_length =
    leb (off + 60) limit && not (ltb record_length 60 || ltb limit (off + record_length))

-- What `String::from_utf16_lossy` does.
module _ (from_utf16_lossy : List ℕ → Text) where
  -- `utf16le_to_string`
  unfoldable pub utf16le_to_string : Bytes → Text
  unfolding units
  utf16le_to_string bytes = from_utf16_lossy (units bytes)

  -- `parse_usn_record_v2`
  unfoldable pub parse_usn_record_v2 : Bytes → Option UsnChange
  unfolding from_le as_i64 mft_ref is_directory_bit utf16le_to_string
  parse_usn_record_v2 rec =
      let major = from_le (slice 4 6 rec) in
      let timestamp_raw = from_le (slice 32 40 rec) in
      let name_len = from_le (slice 56 58 rec) in
      let name_off = from_le (slice 58 60 rec) in
      if ltb (length rec) 60
      then none
      else if not (major == 2) && not (major == 3)
      then none
      else if ltb (length rec) (name_off + name_len)
      then none
      else some (record {
        usn = as_i64 (from_le (slice 24 32 rec));
        file_ref = mft_ref (from_le (slice 8 16 rec));
        parent_ref = mft_ref (from_le (slice 16 24 rec));
        reason = from_le (slice 40 44 rec);
        name = utf16le_to_string (slice name_off (name_off + name_len) rec);
        is_directory = is_directory_bit (from_le (slice 52 56 rec));
        timestamp = if timestamp_raw == 0 then none else some (as_i64 timestamp_raw);
      })

  -- The loop of `parse_read_usn_buffer` from an offset on, for at most so many records.
  unfoldable pub parse_records : ℕ → Bytes → ℕ → ℕ → List UsnChange
  unfolding from_le parse_usn_record_v2
  parse_records zero buf limit off = []
  parse_records (suc fuel) buf limit off =
      let record_length = from_le (slice off (off + 4) buf) in
      let rest = parse_records fuel buf limit (off + record_length) in
      if takes limit off record_length
      then add_change (parse_usn_record_v2 (slice off (off + record_length) buf)) rest
      else []

  -- `parse_read_usn_buffer`; no loop has more turns than bytes.
  unfoldable pub parse_read_usn_buffer : Bytes → ℕ → Option ParsedUsnBuffer
  unfolding parse_records from_le as_i64
  parse_read_usn_buffer buf bytes_returned =
      if ltb bytes_returned 8 || ltb (length buf) bytes_returned
      then none
      else some (record {
        next_start_usn = as_i64 (from_le (slice 0 8 buf));
        changes = parse_records bytes_returned buf bytes_returned 8;
      })
