-- ===== src/Usn/Journal.antt =====
-- core/infra/scan-usn/src/record.rs: the loop over the records of an answer, on any bytes and on the
-- bytes of records.
use mathlib.Core.List.{append_assoc}
use mathlib.Core.Path.{subst}
use file_reaper.Prelude.{
  ℕ, zero, suc, ◌+◌, ◌-◌, ◌*◌, ◌^◌, ◌≤◌, ◌<◌, ◌≡◌, refl, ap, sym, ◌∙◌, All, true, false, Option,
  none, some, List, [], ◌∷◌, ◌++◌, map, length, arith, take, length-append, drop-append,
  take-append, inl, inr, Bool-cases,
}
use file_reaper.Prelude.Int.{ℤ}
use file_reaper.Prelude.Text.{Text}
use file_reaper.Usn.{
  Bytes, slice, from_le, as_i64, UsnChange, ParsedUsnBuffer, parse_usn_record_v2, add_change, takes,
  parse_records, parse_read_usn_buffer,
}
use file_reaper.Usn.Layout.{
  to_le, from_le-to_le, RawRecord, IsRecord, record_length, encode, encode_all, change_of,
}
use file_reaper.Usn.Records.{length-encode, not-ltb, parse_usn_record_v2-encode}

takes-bounds : (limit off n : ℕ) → takes limit off n ≡ true → (60 ≤ n) × (off + n ≤ limit)
takes-bounds limit off n h = (ground (arith, h), ground (arith, h))

takes_all : (limit off n : ℕ) → 60 ≤ n → off + n ≤ limit → takes limit off n ≡ true
takes_all limit off n h g = ground (arith, h, g)

takes_none : (limit off n : ℕ) → limit < off + 60 → takes limit off n ≡ false
takes_none limit off n h = ground (arith, h)

length-add_change :
    (o : Option UsnChange) (cs : List UsnChange) → length (add_change o cs) ≤ 1 + length cs
length-add_change none cs = omega arith
length-add_change (some c) cs = omega arith

-- The length that the record at an offset says it has.
abbrev length_at : Bytes → ℕ → ℕ
length_at buf off = from_le (slice off (off + 4) buf)

slice-behind :
    (n : ℕ) (before bytes rest : Bytes)
    → length bytes ≡ n
    → slice (length before) (length before + n) (before ++ (bytes ++ rest)) ≡ bytes
slice-behind n before bytes rest h =
    ap (take (length before + n - length before))
      (drop-append (length before) before (bytes ++ rest) refl)
    ∙ take-append (length before + n - length before) bytes rest (omega (arith, h))

four : (n : ℕ) → n + 4 - n ≡ 4
four n = omega arith

-- The length of a record is read where the record begins.
slice-length :
    (r : RawRecord) (before rest : Bytes)
    → IsRecord r
    → length_at (before ++ (encode r ++ rest)) (length before) ≡ record_length r
unfolding encode to_le
slice-length r before rest h =
    ap from_le (
      ap (take (length before + 4 - length before))
        (drop-append (length before) before (encode r ++ rest) refl))
    ∙ ap (λ k. from_le (take k (encode r ++ rest))) (four (length before))
    ∙ from_le-to_le 4 (record_length r) h.whole

abbrev answer : ℤ → List UsnChange → Option ParsedUsnBuffer
answer next changes = some (record { next_start_usn = next; changes = changes })

module _ (from_utf16_lossy : List ℕ → Text) where
  parse_records-stops :
      (f : ℕ) (buf : Bytes) (limit off : ℕ)
      → takes limit off (length_at buf off) ≡ false
      → parse_records from_utf16_lossy f buf limit off ≡ []
  unfolding parse_records
  parse_records-stops zero buf limit off h = refl
  parse_records-stops (suc f) buf limit off h = rw h refl

  parse_records-takes :
      (f : ℕ) (buf : Bytes) (limit off : ℕ)
      → takes limit off (length_at buf off) ≡ true
      → parse_records from_utf16_lossy (suc f) buf limit off
        ≡ add_change
            (parse_usn_record_v2 from_utf16_lossy (slice off (off + length_at buf off) buf))
            (parse_records from_utf16_lossy f buf limit (off + length_at buf off))
  unfolding parse_records
  parse_records-takes f buf limit off h = rw h refl

  -- The loop takes a record only with fuel.
  no_fuel :
      (A : Type 0) (buf : Bytes) (limit off : ℕ)
      → limit < 60 * 1 + off
      → takes limit off (length_at buf off) ≡ true
      → A
  no_fuel A buf limit off h t =
      absurd (omega (arith, h, (takes-bounds limit off _ t).0, (takes-bounds limit off _ t).1))

  -- One turn for every 60 bytes from the offset to the limit is fuel enough: where the bytes that are
  -- left are fewer than 60 for each turn and one more, the loop returns the same with any other fuel
  -- that is enough.
  pub parse_records-fuel :
      (f g : ℕ) (buf : Bytes) (limit off : ℕ)
      → limit < 60 * (f + 1) + off
      → limit < 60 * (g + 1) + off
      → parse_records from_utf16_lossy f buf limit off
        ≡ parse_records from_utf16_lossy g buf limit off
  unfolding parse_records
  parse_records-fuel zero g buf limit off hf hg =
      elim (Bool-cases (takes limit off (length_at buf off))) [
        | inl go ↦ no_fuel _ buf limit off hf go
        | inr stop ↦ sym (parse_records-stops g buf limit off stop)
      ]
  parse_records-fuel (suc f) zero buf limit off hf hg =
      elim (Bool-cases (takes limit off (length_at buf off))) [
        | inl go ↦ no_fuel _ buf limit off hg go
        | inr stop ↦ parse_records-stops (suc f) buf limit off stop
      ]
  parse_records-fuel (suc f) (suc g) buf limit off hf hg =
      elim (Bool-cases (takes limit off (length_at buf off))) [
        | inr stop ↦
            parse_records-stops (suc f) buf limit off stop
            ∙ sym (parse_records-stops (suc g) buf limit off stop)
        | inl go ↦
            let n = length_at buf off in
            let bounds = takes-bounds limit off n go in
            parse_records-takes f buf limit off go
            ∙ ap (add_change (parse_usn_record_v2 from_utf16_lossy (slice off (off + n) buf))) (
                parse_records-fuel f g buf limit (off + n) (omega (arith, bounds.0, hf))
                  (omega (arith, bounds.0, hg)))
            ∙ sym (parse_records-takes g buf limit off go)
      ]

  -- The loop hands out at most one change for each 60 bytes from its offset to its limit.
  pub length-parse_records :
      (f : ℕ) (buf : Bytes) (limit off : ℕ)
      → off ≤ limit
      → 60 * length (parse_records from_utf16_lossy f buf limit off) + off ≤ limit
  unfolding parse_records
  length-parse_records zero buf limit off h = omega (arith, h)
  length-parse_records (suc f) buf limit off h =
      elim (Bool-cases (takes limit off (length_at buf off))) [
        | inr stop ↦ rw stop omega (arith, h)
        | inl go ↦
            let n = length_at buf off in
            let bounds = takes-bounds limit off n go in
            let rest = length-parse_records f buf limit (off + n) bounds.1 in
            let one =
              length-add_change (parse_usn_record_v2 from_utf16_lossy (slice off (off + n) buf))
                (parse_records from_utf16_lossy f buf limit (off + n)) in
            rw go omega (arith, bounds.0, rest, one)
      ]

  -- The bytes of records from an offset on are taken apart into the records.
  parse_records-encode_all :
      (rs : List RawRecord) (f : ℕ) (before : Bytes)
      → All IsRecord rs
      → length (before ++ encode_all rs) ≤ f + length before
      → parse_records from_utf16_lossy f
          (before ++ encode_all rs)
          (length (before ++ encode_all rs))
          (length before)
        ≡ map (change_of from_utf16_lossy) rs
  unfolding encode_all
  parse_records-encode_all [] f before h enough =
      parse_records-stops f (before ++ []) (length (before ++ [])) (length before)
        (takes_none _ (length before) _ (omega (arith, length-append before [])))
  parse_records-encode_all (r ∷ rs) zero before h enough = absurd (
      omega (
        arith,
        enough,
        length-append before (encode_all (r ∷ rs)),
        length-append (encode r) (encode_all rs),
        length-encode r,
      ))
  parse_records-encode_all (r ∷ rs) (suc f) before h enough =
      let rest = encode_all rs in
      let n = record_length r in
      let buf = before ++ (encode r ++ rest) in
      let off = length before in
      let size = slice-length r before rest h.0 in
      let room = takes_all (length buf) off n (omega arith) (
        omega (
          arith,
          length-append before (encode r ++ rest),
          length-append (encode r) rest,
          length-encode r,
        )) in
      let assoc = append_assoc before (encode r) rest in
      let end = length-append before (encode r) ∙ ap (λ k. off + k) (length-encode r) in
      let next =
        parse_records-encode_all rs f (before ++ encode r) h.1
          (omega (arith, enough, end, ap length assoc)) in
      let next' =
        subst
          (λ o.
            parse_records from_utf16_lossy f buf (length buf) o
            ≡ map (change_of from_utf16_lossy) rs)
          end
          (subst
            (λ b.
              parse_records from_utf16_lossy f b (length b) (length (before ++ encode r))
              ≡ map (change_of from_utf16_lossy) rs)
            assoc next) in
      parse_records-takes f buf (length buf) off (ap (takes (length buf) off) size ∙ room)
      ∙ ap
          (λ k.
            add_change (parse_usn_record_v2 from_utf16_lossy (slice off (off + k) buf))
              (parse_records from_utf16_lossy f buf (length buf) (off + k)))
          size
      ∙ ap
          (λ b.
            add_change (parse_usn_record_v2 from_utf16_lossy b)
              (parse_records from_utf16_lossy f buf (length buf) (off + n)))
          (slice-behind n before (encode r) rest (length-encode r))
      ∙ ap (λ o. add_change o (parse_records from_utf16_lossy f buf (length buf) (off + n)))
          (parse_usn_record_v2-encode from_utf16_lossy r h.0)
      ∙ ap (λ cs. change_of from_utf16_lossy r ∷ cs) next'

  -- An answer that begins with the next number of the journal and goes on with records, each of a
  -- version that the parser reads and with fields that fit, is read back as that number and what the
  -- records tell, in their order.
  pub parse_read_usn_buffer-encode_all :
      (next : ℕ) (rs : List RawRecord)
      → next < 2 ^ 64
      → All IsRecord rs
      → let buf = to_le 8 next ++ encode_all rs in
        parse_read_usn_buffer from_utf16_lossy buf (length buf)
        ≡ some
            (record { next_start_usn = as_i64 next; changes = map (change_of from_utf16_lossy) rs })
  unfolding parse_read_usn_buffer to_le
  parse_read_usn_buffer-encode_all next rs small h =
      let buf = to_le 8 next ++ encode_all rs in
      let changes = parse_records from_utf16_lossy (length buf) buf (length buf) 8 in
      rw (not-ltb (length buf) 8 (omega arith), not-ltb (length buf) (length buf) (omega arith))
        (ap (λ n. answer (as_i64 n) changes) (from_le-to_le 8 next small)
          ∙ ap (answer (as_i64 next))
              (parse_records-encode_all rs (length buf) (to_le 8 next) h (omega arith)))
