-- ===== src/WarcBatch/Columns.antt =====
-- The columns that a list of records makes, and what appending a record does to them.
use mathlib.Core.List.{map-append}
use duckdb_lance_conversion.Base.{
  ℕ, zero, suc, ◌<◌, ◌≡◌, refl, Option, none, some, List, [], ◌∷◌, ◌++◌, map, All, EachBelow,
  each_below, Str, u64_max, parse_unsigned, ◌==◌, if◌then◌else◌,
}
use duckdb_lance_conversion.Error.{ok, Message, lit}
use duckdb_lance_conversion.WarcSchema.{
  WarcHeader, segment_number, segment_total_length, string_header,
}
use duckdb_lance_conversion.WarcBatch.{
  WarcRecord, ProjectedColumnBuilder, utf8_column, uint64_column, timestamp_column, body_column,
  optional_u64, new_column, new_columns, append_cell, append_cells,
}

-- The number that a header holds.
abbrev pub number_of : Option Str → Option ℕ
number_of none = none
number_of (some value) = parse_unsigned u64_max value

abbrev pub IsNumber : Option Str → Type 0
IsNumber none = Unit {0}
IsNumber (some value) = (n : ℕ) × (parse_unsigned u64_max value ≡ some n)

optional_u64-number :
    (o : Option Str) (m : Message) → IsNumber o → optional_u64 o m ≡ ok (number_of o)
unfolding optional_u64
optional_u64-number none m h = refl
optional_u64-number (some value) m (n, e) = rw (e, optional_u64) (cc e)

abbrev header_column : Option WarcHeader → List WarcRecord → ProjectedColumnBuilder
header_column none rs = utf8_column []
header_column (some h) rs = utf8_column (map (λ (r : WarcRecord). r.header h) rs)

-- The column at an index, over the records and, apart, the bodies appended so far.
unfoldable pub column_of : ℕ → List WarcRecord → List (List ℕ) → ProjectedColumnBuilder
column_of zero rs bs = utf8_column (map (λ (r : WarcRecord). some r.warc_id) rs)
column_of (suc zero) rs bs = uint64_column (map (λ (r : WarcRecord). some r.content_length) rs)
column_of (suc (suc zero)) rs bs = timestamp_column (map (λ (r : WarcRecord). r.date) rs)
column_of (suc (suc (suc zero))) rs bs = utf8_column (map (λ (r : WarcRecord). some r.warc_type) rs)
column_of (suc (suc (suc (suc i)))) rs bs =
    if i == 12
    then uint64_column (map (λ (r : WarcRecord). number_of (r.header segment_number)) rs)
    else if i == 14
    then uint64_column (map (λ (r : WarcRecord). number_of (r.header segment_total_length)) rs)
    else if i == 15
    then body_column bs
    else header_column (string_header (suc (suc (suc (suc i))))) rs

-- The two numeric headers of a record can be read.
abbrev pub HasNumbers : WarcRecord → Type 0
HasNumbers r = IsNumber (r.header segment_number) × IsNumber (r.header segment_total_length)

new_column-empty : (i : ℕ) → i < 20 → new_column i ≡ ok (column_of i [] [])
unfolding new_column column_of string_header
new_column-empty = each_below 20 (λ i. new_column i ≡ ok (column_of i [] [])) every
  where
    every : EachBelow 20 (λ i. new_column i ≡ ok (column_of i [] []))
    every = (
      refl,
      (
        refl,
        (
          refl,
          (
            refl,
            (
              refl,
              (
                refl,
                (
                  refl,
                  (
                    refl,
                    (
                      refl,
                      (
                        refl,
                        (
                          refl,
                          (
                            refl,
                            (refl, (refl, (refl, (refl, (refl, (refl, (refl, (refl, tt)))))))),
                          ),
                        ),
                      ),
                    ),
                  ),
                ),
              ),
            ),
          ),
        ),
      ),
    )

-- Appending a record's metadata to a column appends its value; the body's column waits.
append_cell-snoc :
    (r : WarcRecord) (rs : List WarcRecord) (bs : List (List ℕ))
    → HasNumbers r
    → (i : ℕ) → i < 20
    → append_cell r i (column_of i rs bs) ≡ ok (column_of i (rs ++ (r ∷ [])) bs)
unfolding append_cell column_of string_header
append_cell-snoc r rs bs g = each_below 20 Appends every
  where
    Appends : ℕ → Type 0
    Appends i = append_cell r i (column_of i rs bs) ≡ ok (column_of i (rs ++ (r ∷ [])) bs)

    numbers :
        (optional_u64 (r.header segment_number) (lit "segment number" ∷ [])
          ≡ ok (number_of (r.header segment_number)))
        × (optional_u64 (r.header segment_total_length) (lit "segment total length" ∷ [])
            ≡ ok (number_of (r.header segment_total_length)))
    numbers = (
      optional_u64-number (r.header segment_number) _ g.0,
      optional_u64-number (r.header segment_total_length) _ g.1,
    )

    every : EachBelow 20 Appends
    every = (
      (refl),
      (
        (rw (numbers.1, map-append)),
        (
          (rw map-append),
          (
            (rw (numbers.0, map-append)),
            (
              (rw map-append),
              (
                (rw map-append),
                (
                  (rw map-append),
                  (
                    (rw map-append),
                    (
                      (rw map-append),
                      (
                        (rw map-append),
                        (
                          (rw map-append),
                          (
                            (rw map-append),
                            (
                              (rw map-append),
                              (
                                (rw map-append),
                                (
                                  (rw map-append),
                                  (
                                    (rw map-append),
                                    (
                                      (rw map-append),
                                      ((rw map-append), ((rw map-append), ((rw map-append), tt))),
                                    ),
                                  ),
                                ),
                              ),
                            ),
                          ),
                        ),
                      ),
                    ),
                  ),
                ),
              ),
            ),
          ),
        ),
      ),
    )

unfoldable pub columns_of : List ℕ → List WarcRecord → List (List ℕ) → List ProjectedColumnBuilder
columns_of [] rs bs = []
columns_of (i ∷ is) rs bs = column_of i rs bs ∷ columns_of is rs bs

abbrev pub IsColumn : ℕ → Type 0
IsColumn i = i < 20

pub new_columns-empty : (is : List ℕ) → All IsColumn is → new_columns is ≡ ok (columns_of is [] [])
unfolding new_columns columns_of
new_columns-empty [] h = refl
new_columns-empty (i ∷ is) h = rw (new_column-empty i h.0, new_columns-empty is h.1)

pub append_cells-snoc :
    (r : WarcRecord) (rs : List WarcRecord) (bs : List (List ℕ)) (is : List ℕ)
    → HasNumbers r
    → All IsColumn is
    → append_cells r is (columns_of is rs bs) ≡ ok (columns_of is (rs ++ (r ∷ [])) bs)
unfolding append_cells columns_of
append_cells-snoc r rs bs [] g h = refl
append_cells-snoc r rs bs (i ∷ is) g h =
    rw (append_cell-snoc r rs bs g i h.0, append_cells-snoc r rs bs is g h.1)
