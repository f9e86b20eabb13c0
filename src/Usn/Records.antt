-- ===== src/Usn/Records.antt =====
-- core/infra/scan-usn/src/record.rs: a record is read back from its bytes.
use file_reaper.Prelude.{
  ℕ, ◌+◌, ◌-◌, ◌≤◌, ◌≡◌, ◌⊎◌, inl, inr, refl, false, not, ◌&&◌, some, List, length, ltb, ◌==◌,
  arith, length-append, take-append,
}
use file_reaper.Prelude.Text.{Text}
use file_reaper.Usn.{slice, from_le, parse_usn_record_v2}
use file_reaper.Usn.Layout.{
  to_le, from_le-to_le, RawRecord, IsRecord, record_length, encode, change_of,
}

pub length-encode : (r : RawRecord) → length (encode r) ≡ record_length r
unfolding encode to_le
length-encode r = omega (arith, length-append r.name r.padding)

-- The name stands behind the fixed part.
slice-name : (r : RawRecord) → slice 60 (60 + length r.name) (encode r) ≡ r.name
unfolding encode to_le
slice-name r = take-append (60 + length r.name - 60) r.name r.padding (omega arith)

-- The numbers that the parser reads, where it reads them.
fields :
    (r : RawRecord)
    → IsRecord r
    → (from_le (slice 4 6 (encode r)) ≡ r.major)
      × (from_le (slice 8 16 (encode r)) ≡ r.file_ref)
      × (from_le (slice 16 24 (encode r)) ≡ r.parent_ref)
      × (from_le (slice 24 32 (encode r)) ≡ r.usn)
      × (from_le (slice 32 40 (encode r)) ≡ r.timestamp)
      × (from_le (slice 40 44 (encode r)) ≡ r.reason)
      × (from_le (slice 52 56 (encode r)) ≡ r.attributes)
      × (from_le (slice 56 58 (encode r)) ≡ length r.name)
      × (from_le (slice 58 60 (encode r)) ≡ 60)
unfolding encode to_le
fields r h = (
  from_le-to_le 2 r.major (elim h.version [ inl e ↦ omega (arith, e) | inr e ↦ omega (arith, e) ]),
  from_le-to_le 8 r.file_ref h.file_ref,
  from_le-to_le 8 r.parent_ref h.parent_ref,
  from_le-to_le 8 r.usn h.usn,
  from_le-to_le 8 r.timestamp h.timestamp,
  from_le-to_le 4 r.reason h.reason,
  from_le-to_le 4 r.attributes h.attributes,
  from_le-to_le 2 (length r.name) h.name,
  from_le-to_le 2 60 (omega arith),
)

pub not-ltb : (a b : ℕ) → b ≤ a → ltb a b ≡ false
not-ltb a b h = ground arith

is_version :
    (major : ℕ) → (major ≡ 2) ⊎ (major ≡ 3) → (not (major == 2) && not (major == 3)) ≡ false
is_version major (inl e) = rw e refl
is_version major (inr e) = rw e refl

module _ (from_utf16_lossy : List ℕ → Text) where
  -- The bytes of a record are read back as what the record tells: versions 2 and 3, with any name and any
  -- filling behind it.
  pub parse_usn_record_v2-encode :
      (r : RawRecord)
      → IsRecord r
      → parse_usn_record_v2 from_utf16_lossy (encode r) ≡ some (change_of from_utf16_lossy r)
  unfolding parse_usn_record_v2 change_of
  parse_usn_record_v2-encode r h =
      let f = fields r h in
      let long = not-ltb (length (encode r)) 60 (omega (arith, length-encode r)) in
      let version = is_version r.major h.version in
      let fits =
        not-ltb (length (encode r)) (60 + length r.name) (omega (arith, length-encode r)) in
      let name = slice-name r in
      rw (f.0, f.1, f.2, f.3, f.4, f.5, f.6, f.7, f.8, long, version, fits, name) refl
