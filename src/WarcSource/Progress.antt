-- ===== src/WarcSource/Progress.antt =====
-- The expected bytes of an indexed WARC input.
use duckdb_lance_conversion.Base.{
  saturating_add-min, ℕ, ◌+◌, ◌-◌, ◌≤◌, ◌≡◌, refl, Bool, true, false, Option, none, some, List, [],
  ◌∷◌, Str, min, u64_max, wrapping_add, saturating_add, arith, subst,
}
use duckdb_lance_conversion.Arrow.{Field}
use duckdb_lance_conversion.Error.{Result, ok, err, bail_if, ◌>>◌, map_ok, lit}
use duckdb_lance_conversion.Metrics.{
  and_then, ReadMetrics, set_total_bytes, add_bytes_read, snapshot,
}
use duckdb_lance_conversion.Storage.Open.{S3StorageConfig, Config}
use duckdb_lance_conversion.Storage.Input.{InputFile}
use duckdb_lance_conversion.WarcSegment.{WarcSegment, parse, files}
use duckdb_lance_conversion.WarcIndex.{Range}
use duckdb_lance_conversion.Source.{is_gzipped}
use duckdb_lance_conversion.WarcSource.{
  WarcLibrary, WarcSource, index_location, open_whole, given, open_whole, given, Opened,
  segment_files, work_units, whole_file, indexed_items, source_length, plan_units,
  open_indexed_warc, open_segment, open_located, checked, with_columns, open_checked, open_warc,
  planned,
}

-- The lengths of the units.
abbrev pub lengths : List Range → ℕ
lengths [] = 0
lengths (unit ∷ units) = (unit.end - unit.start) + lengths units

source_length-min :
    (units : List Range) (total : ℕ)
    → source_length units (min total u64_max) ≡ min (total + lengths units) u64_max
source_length-min [] total = omega arith
source_length-min (unit ∷ units) total =
    let n = unit.end - unit.start in
    let one : saturating_add (min total u64_max) n ≡ min (total + n) u64_max =
      omega (arith, saturating_add-min (min total u64_max) n) in
    rw one (omega (arith, source_length-min units (total + n)))

ok-second : {A B : Type 0} (x y : A × B) → ok x ≡ ok y → x.1 ≡ y.1
ok-second x y e = cc

module _ (lib : WarcLibrary) where
  open lib use {storage, Bytes, byte_length, read_range}
  open storage use {Operator}

  -- The units' reads succeed, with all their bytes.
  abbrev pub AllRead : Operator → Str → List Range → Type 0
  AllRead operator path [] = Unit {0}
  AllRead operator path (unit ∷ units) =
      ((bytes : Bytes) × (read_range operator path unit ≡ ok bytes)
        × (byte_length bytes ≡ unit.end - unit.start))
      × AllRead operator path units

  module _ (operator : Operator) (batch_size : ℕ) (projection : List ℕ) (schema : List Field) where
    indexed_items-counts :
        (m : ReadMetrics) (path : Str) (gzipped : Bool) (units : List Range)
        → AllRead operator path units
        → m.bytes_read + lengths units ≤ u64_max
        → ((indexed_items lib operator batch_size projection schema m path gzipped
              units).0.bytes_read
            ≡ m.bytes_read + lengths units)
          × ((indexed_items lib operator batch_size projection schema m path gzipped
                units).0.total_bytes
              ≡ m.total_bytes)
    unfolding indexed_items add_bytes_read wrapping_add
    indexed_items-counts m path gzipped [] h b = (omega arith, refl)
    indexed_items-counts m path gzipped (unit ∷ units) h b =
        let (bytes, e, l) = h.0 in
        let rest =
          indexed_items-counts (add_bytes_read m (byte_length bytes)) path gzipped units h.1
            (omega arith) in
        rw e (omega arith, rest.1)

  -- What an opened source expects, where it is indexed.
  abbrev Expected : ReadMetrics → Opened lib → Type 0
  Expected m (segment_files operator files) = Unit {0}
  Expected m (work_units operator path gzipped units) =
      m.total_bytes ≡ min (m.bytes_read + lengths units) u64_max
  Expected m (whole_file gzipped chunks) = Unit {0}

  abbrev Expects : ReadMetrics × Result (Opened lib) → Type 0
  Expects (m, err e) = Unit {0}
  Expects (m, ok opened) = Expected m opened

  plan_units-Expects :
      (operator : Operator) (path : Str) (m : ReadMetrics) (bytes : Bytes) (r : Result (List Range))
      → m.bytes_read ≡ byte_length bytes
      → Expects (plan_units lib operator path m bytes r)
  unfolding set_total_bytes
  plan_units-Expects operator path m bytes (err e) h = tt
  plan_units-Expects operator path m bytes (ok units) h = omega (
    arith,
    saturating_add-min (byte_length bytes) (source_length units 0),
    source_length-min units 0,
  )

  open_indexed_warc-Expects :
      (fits : (b : Bytes) → byte_length b ≤ u64_max) (m : ReadMetrics) (operator : Operator)
      (path index_path : Str) (s3 : Option S3StorageConfig) (config : Config storage)
      (parallelism : ℕ)
      → m.bytes_read ≡ 0
      → Expects (open_indexed_warc lib m operator path index_path s3 config parallelism)
  unfolding open_indexed_warc add_bytes_read wrapping_add
  open_indexed_warc-Expects fits m operator path index_path s3 config parallelism z =
      located (index_location lib index_path s3 config)
    where
      bytes_in :
          (object_path : Str) (r : Result Bytes)
          → Expects (
              and_then
                (m, r)
                (λ m bytes.
                  plan_units lib operator path
                    (add_bytes_read m (byte_length bytes))
                    bytes
                    (planned lib bytes (is_gzipped object_path) path parallelism)))
      bytes_in object_path (err e) = tt
      bytes_in object_path (ok bytes) =
          let f = fits bytes in
          plan_units-Expects operator path (add_bytes_read m (byte_length bytes)) bytes
            (planned lib bytes (is_gzipped object_path) path parallelism) (omega arith)

      located :
          (l : Result (Operator × Str))
          → Expects (
              and_then
                (m, l)
                (λ m index.
                  and_then
                    (m, lib.read index.0 index.1)
                    (λ m bytes.
                      plan_units lib operator path
                        (add_bytes_read m (byte_length bytes))
                        bytes
                        (planned lib bytes (is_gzipped index.1) path parallelism))))
      located (err e) = tt
      located (ok (op, object_path)) = bytes_in object_path (lib.read op object_path)

  open_whole-Expects :
      (m : ReadMetrics) (operator : Operator) (path : Str)
      → Expects (open_whole lib m operator path)
  open_whole-Expects m operator path = sized (lib.stat operator path)
    where
      read_as :
          (m : ReadMetrics) (r : Result (List Bytes))
          → Expects (and_then (m, r) (λ m chunks. (m, ok (whole_file (is_gzipped path) chunks))))
      read_as m (err e) = tt
      read_as m (ok chunks) = tt

      sized :
          (r : Result ℕ)
          → Expects (
              and_then
                (m, r)
                (λ m size.
                  and_then
                    (set_total_bytes m size, lib.object operator path size)
                    (λ m chunks. (m, ok (whole_file (is_gzipped path) chunks)))))
      sized (err e) = tt
      sized (ok size) = read_as (set_total_bytes m size) (lib.object operator path size)

  open_segment-Expects :
      (s : WarcSource lib) (m : ReadMetrics) (segment : WarcSegment) (operator : Operator)
      → Expects (open_segment lib s m segment operator)
  unfolding open_segment
  open_segment-Expects s m segment operator =
      refused (given lib s.index_path) (files (lib.read operator) lib.gunzip segment)
    where
      refused :
          (b : Bool) (r : Result (List Str))
          → Expects (
            m,
            (bail_if b (lit "index_path is not supported for WARC segments" ∷ [])
                >> map_ok (segment_files operator) r),
          )
      refused true r = tt
      refused false (err e) = tt
      refused false (ok fs) = tt

  open_located-Expects :
      (fits : (b : Bytes) → byte_length b ≤ u64_max) (s : WarcSource lib) (m : ReadMetrics)
      (operator : Operator) (path : Str) (o : Option WarcSegment) (i : Option Str)
      → m.bytes_read ≡ 0
      → Expects (open_located lib s m operator path o i)
  open_located-Expects fits s m operator path (some segment) i z =
      open_segment-Expects s m segment operator
  open_located-Expects fits s m operator path none (some index_path) z =
      open_indexed_warc-Expects fits m operator path index_path s.s3_config s.opendal_config
        s.read_options.max_read_parallelism z
  open_located-Expects fits s m operator path none none z = open_whole-Expects m operator path

  -- What a source that opens to some work expects.
  opened-Expected :
      (columns : List ℕ × List Field) (l : ReadMetrics × Result (Opened lib))
      (c : List ℕ × List Field) (opened : Opened lib)
      → Expects l
      → (and_then l (with_columns lib columns)).1 ≡ ok (c, opened)
      → Expected (and_then l (with_columns lib columns)).0 opened
  opened-Expected columns (m, err e) c opened h k = cc
  opened-Expected columns (m, ok o) c opened h k =
      let same : o ≡ opened = ok-second (columns, o) (c, opened) k in subst (Expected m) same h

  checked-Expected :
      (fits : (b : Bytes) → byte_length b ≤ u64_max) (s : WarcSource lib) (m : ReadMetrics)
      (r : Result ((List ℕ × List Field) × InputFile storage)) (c : List ℕ × List Field)
      (opened : Opened lib)
      → m.bytes_read ≡ 0
      → (and_then (m, r) (open_checked lib s)).1 ≡ ok (c, opened)
      → Expected (and_then (m, r) (open_checked lib s)).0 opened
  checked-Expected fits s m (err e) c opened z k = cc
  checked-Expected fits s m (ok (columns, input)) c opened z k =
      opened-Expected columns
        (open_located lib s m input.operator input.opendal_path (parse input.opendal_path)
          s.index_path)
        c opened
        (open_located-Expects fits s m input.operator input.opendal_path (parse input.opendal_path)
          s.index_path z)
        k

  -- Once all range reads of an indexed WARC input are done, the bytes read are the expected total, the index
  -- included, where none were read before: the counters are those of a source's first scan. Each read receives
  -- its range, and the bytes fit in 64 bits, as those of one buffer always do.
  pub open_warc-progress :
      (fits : (b : Bytes) → byte_length b ≤ u64_max) (first : ReadMetrics) (s : WarcSource lib)
      (columns : List ℕ × List Field) (operator : Operator) (path : Str) (gzipped : Bool)
      (units : List Range)
      → first.bytes_read ≡ 0
      → (open_warc lib s first).1 ≡ ok (columns, work_units operator path gzipped units)
      → AllRead operator path units
      → (open_warc lib s first).0.bytes_read + lengths units ≤ u64_max
      → (snapshot
          (indexed_items lib operator s.batch_size columns.0 columns.1
            (open_warc lib s first).0
            path
            gzipped
            units).0).bytes_read
        ≡ (snapshot
            (indexed_items lib operator s.batch_size columns.0 columns.1
              (open_warc lib s first).0
              path
              gzipped
              units).0).total_bytes
  unfolding open_warc snapshot
  open_warc-progress fits first s columns operator path gzipped units z o h b =
      let m = (open_warc lib s first).0 in
      let counted =
        indexed_items-counts operator s.batch_size columns.0 columns.1 m path gzipped units h b in
      let total : Expected m (work_units operator path gzipped units) =
        checked-Expected fits s first (checked lib s) columns
          (work_units operator path gzipped units) z o in
      rw (counted.0, counted.1) (omega arith)
