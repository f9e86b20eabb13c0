-- ===== src/Index/Packing/RoundTrip.antt =====
-- core/infra/index-memory/src/lib.rs: what packing keeps of a record.
use Prim.Native.Nat.{bit_and, zero, suc}
use file_reaper.Prelude.{
  ℕ, ◌+◌, ◌*◌, ◌/◌, ◌^◌, ◌<◌, ◌≡◌, refl, ap, sym, ◌∙◌, Bool, true, ◌&&◌, Option, none, some, [],
  ◌==◌, arith,
}
use file_reaper.Prelude.Int.{ℤ, pos}
use file_reaper.Aggregate.{Decision, undecided, keep, marked}
use file_reaper.Category.{
  CategoryId, large_files, old_files, forgotten_videos, duplicates, archives, installers,
  temp_files, app_caches, dev_artifacts, empty_folders, sparse_folders, deep_paths, uncategorized,
}
use file_reaper.Index.Packing.{
  FileKind, video, image, audio, archive, installer, disk_image, document, other, CandidateUnit,
  file, folder, SafetyLevel, safe_to_bulk, review_recommended, FileRecord, unix_epoch_filetime_secs,
  max_u32, filetime_to_unix_secs, unix_secs_to_filetime, kind_val, unit_val, category_val,
  safety_val, decision_val, parse_file_kind_val, parse_candidate_unit_val, parse_category_val,
  parse_safety_level_val, parse_decision_val, pack_meta, pack_time, unpack_time, pack,
  unpack_attributes, unpack,
}

-- What holds of every number below a bound, by evaluation.
unfoldable all_below : ℕ → (ℕ → Bool) → Bool
all_below zero p = true
all_below (suc n) p = p n && all_below n p

all_below_lem : (n : ℕ) (p : ℕ → Bool) (x : ℕ) → all_below n p ≡ true → x < n → p x ≡ true
unfolding all_below
all_below_lem zero p x h lt = absurd (omega arith)
all_below_lem (suc n) p x h lt = ground (arith, all_below_lem n p x)

-- The fields can be read again.
abbrev reads_back : ℕ → ℕ → ℕ → ℕ → ℕ → Bool
reads_back k u c s d =
    let m = pack_meta k u c s d in
    (bit_and m 0x7 == k)
    && (bit_and (m / 2 ^ 3) 0x1 == u)
    && (bit_and (m / 2 ^ 4) 0xF == c)
    && (bit_and (m / 2 ^ 8) 0x1 == s)
    && (bit_and (m / 2 ^ 9) 0x3 == d)

reads_back_table :
    all_below 8 (λ k.
      all_below 2 (λ u. all_below 13 (λ c. all_below 2 (λ s. all_below 3 (reads_back k u c s)))))
    ≡ true
unfolding all_below pack_meta
reads_back_table = refl

reads_back_all :
    (k u c s d : ℕ) → k < 8 → u < 2 → c < 13 → s < 2 → d < 3 → reads_back k u c s d ≡ true
reads_back_all k u c s d hk hu hc hs hd =
    all_below_lem 3 (reads_back k u c s) d
      (all_below_lem 2 (λ s. all_below 3 (reads_back k u c s)) s
        (all_below_lem 13 (λ c. all_below 2 (λ s. all_below 3 (reads_back k u c s))) c
          (all_below_lem 2
            (λ u. all_below 13 (λ c. all_below 2 (λ s. all_below 3 (reads_back k u c s)))) u
            (all_below_lem 8
              (λ k.
                all_below 2
                  (λ u. all_below 13 (λ c. all_below 2 (λ s. all_below 3 (reads_back k u c s)))))
              k reads_back_table hk)
            hu)
          hc)
        hs)
      hd

-- The five fields of bits, read from the number that packs them.
reads_back_lem :
    (k u c s d : ℕ)
    → k < 8
    → u < 2
    → c < 13
    → s < 2
    → d < 3
    → let m = pack_meta k u c s d in
      (bit_and m 0x7 ≡ k)
      × (bit_and (m / 2 ^ 3) 0x1 ≡ u)
      × (bit_and (m / 2 ^ 4) 0xF ≡ c)
      × (bit_and (m / 2 ^ 8) 0x1 ≡ s)
      × (bit_and (m / 2 ^ 9) 0x3 ≡ d)
reads_back_lem k u c s d hk hu hc hs hd = ground (arith, reads_back_all k u c s d hk hu hc hs hd)

-- What a record has to be like for nothing of it to get lost.
abbrev pub IsStorableTime : Option ℤ → Type 0
IsStorableTime none = Unit
IsStorableTime (some t) =
    (secs : ℕ) × (0 < secs)
    × (secs < max_u32)
    × (t ≡ pos ((secs + unix_epoch_filetime_secs) * 10000000))

pub record IsStorable (r : FileRecord) : Type 0 where
  pub created : IsStorableTime r.created_at
  pub modified : IsStorableTime r.modified_at
  pub accessed : IsStorableTime r.accessed_at
  pub no_detector : r.detector_id ≡ []
  pub no_explanation : r.explanation ≡ []
  pub flags : unpack_attributes r.attributes.raw_bits ≡ r.attributes

to_unix_secs :
    (secs : ℕ)
    → 0 < secs
    → secs < max_u32
    → filetime_to_unix_secs (pos ((secs + unix_epoch_filetime_secs) * 10000000)) ≡ secs
unfolding filetime_to_unix_secs
to_unix_secs secs h g = ground arith

unpack_secs :
    (secs : ℕ)
    → 0 < secs
    → unpack_time secs ≡ some (pos ((secs + unix_epoch_filetime_secs) * 10000000))
unfolding unpack_time unix_secs_to_filetime
unpack_secs secs h = ground arith

unpack_time-pack_time : (t : Option ℤ) → IsStorableTime t → unpack_time (pack_time t) ≡ t
unfolding pack_time unpack_time
unpack_time-pack_time none h = refl
unpack_time-pack_time (some t) (secs, low, high, e) =
    ap (λ n. unpack_time (filetime_to_unix_secs n)) e
    ∙ ap unpack_time (to_unix_secs secs low high)
    ∙ unpack_secs secs low
    ∙ ap some (sym e)

kind_lem : (x : FileKind) → (kind_val x < 8) × (parse_file_kind_val (kind_val x) ≡ x)
unfolding kind_val parse_file_kind_val
kind_lem video = (omega arith, refl)
kind_lem image = (omega arith, refl)
kind_lem audio = (omega arith, refl)
kind_lem archive = (omega arith, refl)
kind_lem installer = (omega arith, refl)
kind_lem disk_image = (omega arith, refl)
kind_lem document = (omega arith, refl)
kind_lem other = (omega arith, refl)

unit_lem : (x : CandidateUnit) → (unit_val x < 2) × (parse_candidate_unit_val (unit_val x) ≡ x)
unfolding unit_val parse_candidate_unit_val
unit_lem file = (omega arith, refl)
unit_lem folder = (omega arith, refl)

category_lem : (x : CategoryId) → (category_val x < 13) × (parse_category_val (category_val x) ≡ x)
unfolding category_val parse_category_val
category_lem large_files = (omega arith, refl)
category_lem old_files = (omega arith, refl)
category_lem forgotten_videos = (omega arith, refl)
category_lem duplicates = (omega arith, refl)
category_lem archives = (omega arith, refl)
category_lem installers = (omega arith, refl)
category_lem temp_files = (omega arith, refl)
category_lem app_caches = (omega arith, refl)
category_lem dev_artifacts = (omega arith, refl)
category_lem empty_folders = (omega arith, refl)
category_lem sparse_folders = (omega arith, refl)
category_lem deep_paths = (omega arith, refl)
category_lem uncategorized = (omega arith, refl)

safety_lem : (x : SafetyLevel) → (safety_val x < 2) × (parse_safety_level_val (safety_val x) ≡ x)
unfolding safety_val parse_safety_level_val
safety_lem safe_to_bulk = (omega arith, refl)
safety_lem review_recommended = (omega arith, refl)

decision_lem : (x : Decision) → (decision_val x < 3) × (parse_decision_val (decision_val x) ≡ x)
unfolding decision_val parse_decision_val
decision_lem undecided = (omega arith, refl)
decision_lem keep = (omega arith, refl)
decision_lem marked = (omega arith, refl)

-- A record comes back from its packed form as it was, when it has no detector and no explanation, its
-- flags are the ones that `unpack` reads off the raw bits, and each of its times is absent or a whole
-- second from 1970-01-01 00:00:01 to the last but one second that a `u32` counts.
pub unpack-pack :
    (r : FileRecord) (dir_id filename_id : ℕ)
    → IsStorable r
    → unpack (pack r dir_id filename_id) r.path ≡ r
unfolding unpack pack
unpack-pack r dir_id filename_id h =
    let kind = kind_lem r.kind in
    let unit = unit_lem r.unit in
    let category = category_lem r.category in
    let safety = safety_lem r.safety in
    let decision = decision_lem r.decision in
    let m = reads_back_lem _ _ _ _ _ kind.0 unit.0 category.0 safety.0 decision.0 in
    let created = unpack_time-pack_time r.created_at h.created in
    let modified = unpack_time-pack_time r.modified_at h.modified in
    let accessed = unpack_time-pack_time r.accessed_at h.accessed in cc
