-- ===== src/ParquetRead/Open/Progress.antt =====
-- The expected bytes of a Parquet scan.
use duckdb_lance_conversion.Base.{
  saturating_add-min, ℕ, suc, ◌+◌, ◌≤◌, ◌≡◌, refl, sym, ◌∙◌, ap, subst, Bool, inl, inr, Option,
  List, [], ◌∷◌, Str, sum, min, u64_max, saturating_add, wrapping_add, ◌==◌, arith, if◌then◌else◌,
  Bool-cases,
}
use duckdb_lance_conversion.Error.{Result, ok, err, bail_if, map_ok}
use duckdb_lance_conversion.Metrics.{
  and_then, ReadMetrics, set_total_bytes, add_bytes_read, snapshot,
}
use duckdb_lance_conversion.ParquetRead.{
  chunk_bytes, add_row_groups, column_chunk_bytes, project_columns, common_schema,
}
use duckdb_lance_conversion.ParquetRead.Open.{
  ParquetLibrary, count_reads, roots_of, requested_projection, load_files, load_parquet_metadata,
  schemas, includes, unread_bytes, open_files, open_parquet_paths, Stream,
}

-- The bytes of a row group's chunks that the mask includes.
abbrev included_bytes : (ℕ → Bool) → ℕ → List ℕ → ℕ
included_bytes included leaf [] = 0
included_bytes included leaf (bytes ∷ chunks) =
    (if included leaf then bytes else 0) + included_bytes included (suc leaf) chunks

abbrev all_included : (ℕ → Bool) → List (List ℕ) → ℕ
all_included included [] = 0
all_included included (chunks ∷ rest) =
    included_bytes included 0 chunks + all_included included rest

saturated : (a b : ℕ) → saturating_add (min a u64_max) b ≡ min (a + b) u64_max
saturated a b = omega (arith, saturating_add-min (min a u64_max) b)

chunk_bytes-min :
    (included : ℕ → Bool) (leaf : ℕ) (chunks : List ℕ) (total : ℕ)
    → chunk_bytes included leaf chunks (min total u64_max)
      ≡ min (total + included_bytes included leaf chunks) u64_max
chunk_bytes-min included leaf [] total = omega arith
chunk_bytes-min included leaf (bytes ∷ chunks) total = elim (Bool-cases (included leaf)) [
  | inl e ↦
      rw (e, saturated total bytes)
        (omega (arith, chunk_bytes-min included (suc leaf) chunks (total + bytes)))
  | inr e ↦ rw e (omega (arith, chunk_bytes-min included (suc leaf) chunks total))
]

add_row_groups-min :
    (included : ℕ → Bool) (row_groups : List (List ℕ)) (total : ℕ)
    → add_row_groups included row_groups (min total u64_max)
      ≡ min (total + all_included included row_groups) u64_max
add_row_groups-min included [] total = omega arith
add_row_groups-min included (chunks ∷ rest) total =
    rw (chunk_bytes-min included 0 chunks total)
      (omega (arith, add_row_groups-min included rest (total + included_bytes included 0 chunks)))

module _ (lib : ParquetLibrary) where
  open lib use {Field, Metadata, chunk_sizes}

  -- The bytes of all column chunks that a projection selects.
  abbrev pub selected_total : Option (List ℕ) → List (Str × Metadata) → ℕ
  selected_total roots [] = 0
  selected_total roots ((path, metadata) ∷ files) =
      all_included (includes lib metadata roots) (chunk_sizes metadata) + selected_total roots files

  unread_bytes-min :
      (roots : Option (List ℕ)) (files : List (Str × Metadata)) (total : ℕ)
      → unread_bytes lib roots files (min total u64_max)
        ≡ min (total + selected_total roots files) u64_max
  unfolding unread_bytes column_chunk_bytes
  unread_bytes-min roots [] total = omega arith
  unread_bytes-min roots ((path, metadata) ∷ files) total =
      let here = all_included (includes lib metadata roots) (chunk_sizes metadata) in
      let one : add_row_groups (includes lib metadata roots) (chunk_sizes metadata) 0
          ≡ min here u64_max =
        omega (arith, add_row_groups-min (includes lib metadata roots) (chunk_sizes metadata) 0) in
      let next : saturating_add (min total u64_max)
            (add_row_groups (includes lib metadata roots) (chunk_sizes metadata) 0)
          ≡ min (total + here) u64_max =
        rw one (omega (arith, saturated total (min here u64_max))) in
      rw next (omega (arith, unread_bytes-min roots files (total + here)))

  count_reads-sum :
      (m : ReadMetrics) (reads : List ℕ)
      → m.bytes_read + sum reads ≤ u64_max
      → ((count_reads m reads).bytes_read ≡ m.bytes_read + sum reads)
        × ((count_reads m reads).total_bytes ≡ m.total_bytes)
  unfolding count_reads add_bytes_read wrapping_add
  count_reads-sum m [] h = (omega arith, refl)
  count_reads-sum m (bytes ∷ reads) h =
      let rest = count_reads-sum (add_bytes_read m bytes) reads (omega arith) in
      (omega arith, rest.1)

  module _ (batch_size : ℕ) (ordered : Bool) (parallelism : ℕ) (columns : Option (List ℕ)) where
    -- The expected total of an opened scan.
    abbrev Expects : List (Str × Metadata) → ReadMetrics × Result (List Field × Stream lib) → Type 0
    Expects files (m, err e) = Unit {0}
    Expects files (m, ok opened) =
        m.total_bytes
        ≡ min (m.bytes_read + selected_total (roots_of (requested_projection columns)) files)
            u64_max

    abbrev projecting :
        ReadMetrics
        → List Field × List (Str × Metadata)
        → ReadMetrics × Result (List Field × Stream lib)
    projecting m loaded =
        and_then (m, project_columns loaded.0 (requested_projection columns))
          (open_files lib batch_size ordered parallelism (requested_projection columns) loaded.1)

    open_files-Expects :
        (m : ReadMetrics) (files : List (Str × Metadata)) (r : Result (List Field))
        → Expects files (
            and_then
              (m, r)
              (open_files lib batch_size ordered parallelism (requested_projection columns) files))
    unfolding set_total_bytes snapshot
    open_files-Expects m files (err e) = tt
    open_files-Expects m files (ok fields) =
        let roots = roots_of (requested_projection columns) in
        let zero_is : min 0 u64_max ≡ 0 = omega arith in
        let whole =
          ap (unread_bytes lib roots files) (sym zero_is) ∙ unread_bytes-min roots files 0 in
        rw whole (
          omega
            (arith, saturating_add-min m.bytes_read (min (0 + selected_total roots files) u64_max)))

    compared-Expects :
        (m : ReadMetrics) (files : List (Str × Metadata)) (s : Result (List Field))
        → Expects files (and_then (m, map_ok (λ s. (s, files)) s) projecting)
    compared-Expects m files (err e) = tt
    compared-Expects m files (ok fields) =
        open_files-Expects m files (project_columns fields (requested_projection columns))

    loaded-Expects :
        (l : ReadMetrics × Result (List (Str × Metadata))) (files : List (Str × Metadata))
        → l.1 ≡ ok files
        → Expects files (
            and_then
              (and_then l (λ m files.
                (m, map_ok (λ s. (s, files)) (common_schema lib.same_schema (schemas lib files)))))
              projecting)
    loaded-Expects (m, err e) files h = cc
    loaded-Expects (m, ok loaded) files h =
        let same : loaded ≡ files = cc in
        subst
          (λ fs. Expects fs (
            and_then
              (m, map_ok (λ s. (s, loaded)) (common_schema lib.same_schema (schemas lib loaded)))
              projecting))
          same (compared-Expects m loaded (common_schema lib.same_schema (schemas lib loaded)))

    guarded-Expects :
        (m : ReadMetrics) (paths : List Str) (files : List (Str × Metadata))
        (r1 r2 : Result (Unit {0}))
        → (load_files lib m paths).1 ≡ ok files
        → Expects files (
            and_then
              (m, r1)
              (λ m passed.
                and_then
                  (m, r2)
                  (λ m passed. and_then (load_parquet_metadata lib m paths) projecting)))
    unfolding load_parquet_metadata
    guarded-Expects m paths files (err e) r2 h = tt
    guarded-Expects m paths files (ok u) (err e) h = tt
    guarded-Expects m paths files (ok u) (ok v) h = loaded-Expects (load_files lib m paths) files h

    Expects-opened :
        (files : List (Str × Metadata)) (res : ReadMetrics × Result (List Field × Stream lib))
        (opened : List Field × Stream lib)
        → res.1 ≡ ok opened
        → Expects files res
        → res.0.total_bytes
          ≡ min
              (res.0.bytes_read + selected_total (roots_of (requested_projection columns)) files)
              u64_max
    Expects-opened files (m, err e) opened h k = cc
    Expects-opened files (m, ok o) opened h k = k

    -- Once the reads of an opened scan have received as many bytes as the column chunks of its projection
    -- have, in all files and row groups, the bytes read are the expected total, the reads of the footers
    -- included. The bytes fit in 64 bits.
    pub open_parquet_paths-progress :
        (paths : List Str) (m : ReadMetrics) (files : List (Str × Metadata))
        (opened : List Field × Stream lib) (reads : List ℕ)
        → (load_files lib m paths).1 ≡ ok files
        → (open_parquet_paths lib paths batch_size ordered parallelism columns m).1 ≡ ok opened
        → sum reads ≡ selected_total (roots_of (requested_projection columns)) files
        → (open_parquet_paths lib paths batch_size ordered parallelism columns m).0.bytes_read
            + sum reads
          ≤ u64_max
        → (snapshot (
            count_reads
              (open_parquet_paths lib paths batch_size ordered parallelism columns m).0
              reads)).bytes_read
          ≡ (snapshot (
              count_reads
                (open_parquet_paths lib paths batch_size ordered parallelism columns m).0
                reads)).total_bytes
    unfolding open_parquet_paths snapshot
    open_parquet_paths-progress paths m files opened reads l o s b =
        let scan = open_parquet_paths lib paths batch_size ordered parallelism columns m in
        let counted = count_reads-sum scan.0 reads b in
        let total = Expects-opened files scan opened o (
          guarded-Expects m paths files (bail_if (batch_size == 0) _) (bail_if (parallelism == 0) _)
            l) in
        rw (counted.0, counted.1) (omega arith)
