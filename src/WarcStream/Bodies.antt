-- ===== src/WarcStream/Bodies.antt =====
-- The bodies of the records that a batch holds.
use mathlib.Core.List.{map-append, flatten, append_assoc, append-nil}
use duckdb_lance_conversion.Base.{
  ℕ, ◌+◌, ◌≤◌, ◌≡◌, refl, sym, ap, ◌∙◌, false, Option, none, some, List, [], ◌∷◌, ◌++◌, map, length,
  sum, sum-append, u32_max, ltb, arith,
}
use duckdb_lance_conversion.Arrow.{Field}
use duckdb_lance_conversion.Error.{ok}
use duckdb_lance_conversion.WarcBatch.{WarcRecord, position, is_some}
use duckdb_lance_conversion.WarcBatch.Columns.{columns_of}
use duckdb_lance_conversion.WarcBatch.Append.{IsGood, body_of, bodies}
use duckdb_lance_conversion.WarcStream.{RecordBatch, announced_length}

-- The bytes of body that a batch of these records holds.
abbrev pub body_total : List ℕ → List WarcRecord → ℕ
body_total is rs = sum (map length (bodies (position 19 is) rs))

-- The finished batch of some records.
unfoldable pub batch_record : List ℕ → List Field → List WarcRecord → RecordBatch
batch_record is schema rs = record {
  schema = schema;
  columns = columns_of is rs (bodies (position 19 is) rs);
}

pub empty_list : (rs : List WarcRecord) → ltb 0 (length rs) ≡ false → rs ≡ []
empty_list [] h = refl
empty_list (r ∷ rs) h = absurd (ground arith)

pub flatten-snoc :
    (cs : List (List WarcRecord)) (rs : List WarcRecord)
    → flatten (cs ++ (rs ∷ [])) ≡ flatten cs ++ rs
unfolding flatten
flatten-snoc [] rs = append-nil rs
flatten-snoc (c ∷ cs) rs = ap (◌++◌ c) (flatten-snoc cs rs) ∙ sym (append_assoc c (flatten cs) rs)

-- What is announced of a record's body, where bodies are read.
abbrev pub announced : Option ℕ → WarcRecord → ℕ
announced none r = 0
announced (some p) r = r.content_length

pub announced_length-ok :
    (o : Option ℕ) (r : WarcRecord)
    → r.content_length ≤ u32_max
    → announced_length (is_some o) r ≡ ok (announced o r)
unfolding announced_length
announced_length-ok none r h = refl
announced_length-ok (some p) r h = ground arith

pub total_one_more :
    (o : Option ℕ) (rs : List WarcRecord) (r : WarcRecord)
    → IsGood r
    → sum (map length (bodies o (rs ++ (r ∷ [])))) ≡ sum (map length (bodies o rs)) + announced o r
total_one_more none rs r g = refl
total_one_more (some p) rs r g =
    let content : length (body_of r.body) ≡ r.content_length =
      ap (λ (b : Option (List ℕ)). length (body_of b)) g.buffered ∙ g.announced in
    rw (map-append, map-append)
      (omega (
        arith,
        sum-append (map length (map (λ (x : WarcRecord). body_of x.body) rs))
            (length (body_of r.body) ∷ []),
      ))

pub announced_small :
    (o : Option ℕ) (r : WarcRecord) → r.content_length ≤ u32_max → announced o r ≤ u32_max
announced_small none r h = omega arith
announced_small (some p) r h = h
