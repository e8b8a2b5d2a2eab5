-- ===== src/WarcStream/Chunks.antt =====
-- How the records of an input are divided into batches.
use mathlib.Core.List.{map-append, flatten, append_assoc, append-nil}
use duckdb_lance_conversion.Base.{
  ℕ, zero, suc, ◌+◌, ◌-◌, ◌<◌, ◌≤◌, ◌≡◌, ◌⊎◌, refl, sym, ap, ◌∙◌, Option-cases, Bool, true, false,
  ◌||◌, Option, none, some, List, [], ◌∷◌, ◌++◌, map, All, All-append, length, length-append,
  u32_max, saturating_add, ltb, leb, ◌==◌, Bool-cases, arith, inl, inr,
}
use duckdb_lance_conversion.Arrow.{Field}
use duckdb_lance_conversion.Error.{ok, Cause}
use duckdb_lance_conversion.WarcSchema.Projection.{IsDistinct}
use duckdb_lance_conversion.WarcBatch.{
  WarcRecord, ProjectedColumnBuilder, position, is_some, would_exceed_body_limit,
  max_batch_body_bytes,
}
use duckdb_lance_conversion.WarcBatch.Columns.{IsColumn, columns_of}
use duckdb_lance_conversion.WarcBatch.Append.{
  IsGood, bodies, bodies-nil, batch_of, new_batch-empty, append_record-batch_of,
  take_empty-batch_of,
}
use duckdb_lance_conversion.WarcStream.Bodies.{
  body_total, batch_record, empty_list, flatten-snoc, announced, announced_length-ok,
  total_one_more, announced_small,
}
use duckdb_lance_conversion.WarcStream.{
  StreamState, finished, Flow, next, finish, send_batch, flush, make_room, flush_full,
  stream_record, stream_loop, stream_records,
}

module _ (refuses : List Field → List ProjectedColumnBuilder → Option Cause) (is : List ℕ)
    (schema : List Field) (batch_size : ℕ) where
  -- A batch is not empty, has no more records than asked for, and keeps to the limit on body bytes unless
  -- it is a single record.
  pub record IsChunk (rs : List WarcRecord) : Type 0 where
    pub some_record : 0 < length rs
    pub at_most : length rs ≤ batch_size
    pub limited : (body_total is rs ≤ max_batch_body_bytes) ⊎ (length rs ≡ 1)

  -- The batch being built has room for a record.
  record IsOpen (rs : List WarcRecord) : Type 0 where
    room : length rs < batch_size
    below : body_total is rs < max_batch_body_bytes

  abbrev state : List (List WarcRecord) → List WarcRecord → ℕ → StreamState
  state cs rs a = record {
    sent = map (batch_record is schema) cs;
    accepts = a;
    batch = batch_of is schema rs;
  }

  -- Arrow accepts the columns of any list of records.
  abbrev pub Accepts : Type 0
  Accepts =
      (rs : List WarcRecord) → refuses schema (columns_of is rs (bodies (position 19 is) rs)) ≡ none

  finish-batch_of :
      (rs : List WarcRecord)
      → Accepts
      → finish refuses (batch_of is schema rs) ≡ ok (batch_record is schema rs)
  unfolding finish batch_of batch_record
  finish-batch_of rs h = rw (h rs, finish)

  send-state :
      (cs : List (List WarcRecord)) (rs : List WarcRecord) (a : ℕ)
      → Accepts
      → send_batch refuses (map (batch_record is schema) cs) (suc a) (batch_of is schema rs)
        ≡ next (map (batch_record is schema) (cs ++ (rs ∷ [])), a)
  unfolding send_batch
  send-state cs rs a h = rw (finish-batch_of rs h) (rw map-append)

  flush-state :
      (cs : List (List WarcRecord)) (rs : List WarcRecord) (a : ℕ)
      → Accepts
      → All IsColumn is
      → 0 < a
      → flush refuses (state cs rs a) ≡ next (state (cs ++ (rs ∷ [])) [] (a - 1))
  unfolding flush
  flush-state cs rs zero h c p = absurd (omega arith)
  flush-state cs rs (suc a) h c p =
      let less : suc a - 1 ≡ a = omega arith in
      rw less (rw (take_empty-batch_of is schema rs c) (rw (send-state cs rs a h)))

  batch_facts :
      (rs : List WarcRecord)
      → ((batch_of is schema rs).len ≡ length rs)
        × ((batch_of is schema rs).body_bytes ≡ body_total is rs)
        × ((batch_of is schema rs).body_position ≡ position 19 is)
  unfolding batch_of
  batch_facts rs = (refl, refl, refl)

  -- The records so far stand in the chunks sent and in the batch being built, with sends left for these
  -- and for as many more records.
  record Stands (records : List WarcRecord) (more : ℕ) (cs : List (List WarcRecord))
      (rs : List WarcRecord) (a : ℕ) : Type 0 where
    chunks : All IsChunk cs
    complete : flatten cs ++ rs ≡ records
    enough : length rs + more ≤ a

  -- Sending the batch being built keeps the records in place.
  Stands-flush :
      (records : List WarcRecord) (more : ℕ) (cs : List (List WarcRecord)) (rs : List WarcRecord)
      (a : ℕ)
      → Stands records more cs rs a
      → IsChunk rs
      → Stands records more (cs ++ (rs ∷ [])) [] (a - 1)
  Stands-flush records more cs rs a s k = record {
    chunks = All-append IsChunk cs (rs ∷ []) s.chunks (k, tt);
    complete = append-nil _ ∙ flatten-snoc cs rs ∙ s.complete;
    enough = omega (arith, k.some_record);
  }

  IsChunk-open : (rs : List WarcRecord) → 0 < length rs → IsOpen rs → IsChunk rs
  IsChunk-open rs p o = record {
    some_record = p;
    at_most = omega arith;
    limited = inl (omega arith);
  }

  -- Room is made for a record whose body has `n` bytes: the batch is empty, or the body fits in it.
  abbrev HasRoom : List WarcRecord → ℕ → Type 0
  HasRoom rs n =
      (rs ≡ []) ⊎ ((position 19 is ≡ none) ⊎ (body_total is rs + n ≤ max_batch_body_bytes))

  -- Where a step stands, as the state that it returns.
  record Outcome (records : List WarcRecord) (more : ℕ) (P : List WarcRecord → Type 0)
      (f : Flow StreamState) : Type 0 where
    cs : List (List WarcRecord)
    rs : List WarcRecord
    a : ℕ
    returns : f ≡ next (state cs rs a)
    stands : Stands records more cs rs a
    holds : P rs

  would_exceed-false :
      (rs : List WarcRecord) (n : ℕ)
      → n ≤ u32_max
      → body_total is rs < max_batch_body_bytes
      → would_exceed_body_limit (batch_of is schema rs) n ≡ false
      → (position 19 is ≡ none) ⊎ (body_total is rs + n ≤ max_batch_body_bytes)
  unfolding would_exceed_body_limit batch_of saturating_add
  would_exceed-false rs n small below h = elim (Option-cases (position 19 is)) [
    | inl e ↦ inl e
    | inr (p, e) ↦ inr (ground arith)
  ]

  body_total-nil : body_total is [] ≡ 0
  body_total-nil = rw (bodies-nil (position 19 is))

  IsOpen-nil : 0 < batch_size → IsOpen []
  IsOpen-nil b = record { room = b; below = omega (arith, body_total-nil) }

  make_room-Outcome :
      (records : List WarcRecord) (more : ℕ) (cs : List (List WarcRecord)) (rs : List WarcRecord)
      (a n : ℕ)
      → Accepts
      → All IsColumn is
      → n ≤ u32_max
      → 0 < batch_size
      → Stands records more cs rs a
      → IsOpen rs
      → Outcome records more
          (λ rs'. IsOpen rs' × HasRoom rs' n)
          (make_room refuses (state cs rs a) n)
  unfolding make_room batch_of
  make_room-Outcome records more cs rs a n h c small b s o = elim (Bool-cases (ltb 0 (length rs))) [
    | inl full ↦ elim (Bool-cases (would_exceed_body_limit (batch_of is schema rs) n)) [
      | inl over ↦ record {
        cs = cs ++ (rs ∷ []);
        rs = [];
        a = a - 1;
        returns = rw (full, over) (flush-state cs rs a h c (ground arith));
        stands = Stands-flush records more cs rs a s (IsChunk-open rs (ground arith) o);
        holds = (IsOpen-nil b, inl refl);
      }
      | inr fits ↦ record {
        cs = cs;
        rs = rs;
        a = a;
        returns = rw (full, fits);
        stands = s;
        holds = (o, inr (would_exceed-false rs n small o.below fits));
      }
    ]
    | inr vacant ↦ record {
      cs = cs;
      rs = rs;
      a = a;
      returns = rw vacant;
      stands = s;
      holds = (o, inl (empty_list rs vacant));
    }
  ]

  flush_full-Outcome :
      (include : Bool) (records : List WarcRecord) (more : ℕ) (cs : List (List WarcRecord))
      (rs : List WarcRecord) (a : ℕ)
      → Accepts
      → All IsColumn is
      → 0 < batch_size
      → Stands records more cs rs a
      → IsChunk rs
      → Outcome records more IsOpen (flush_full refuses batch_size include (state cs rs a))
  unfolding flush_full batch_of
  flush_full-Outcome include records more cs rs a h c b s k =
      elim (Bool-cases (length rs == batch_size || leb max_batch_body_bytes (body_total is rs))) [
        | inl full ↦ record {
          cs = cs ++ (rs ∷ []);
          rs = [];
          a = a - 1;
          returns = rw full (flush-state cs rs a h c (omega (arith, k.some_record, s.enough)));
          stands = Stands-flush records more cs rs a s k;
          holds = IsOpen-nil b;
        }
        | inr roomy ↦ record {
          cs = cs;
          rs = rs;
          a = a;
          returns = rw roomy;
          stands = s;
          holds = record { room = ground arith; below = ground arith };
        }
      ]

  IsChunk-snoc :
      (rs : List WarcRecord) (r : WarcRecord)
      → IsGood r
      → IsOpen rs
      → HasRoom rs (announced (position 19 is) r)
      → IsChunk (rs ++ (r ∷ []))
  IsChunk-snoc rs r g o h = record {
    some_record = omega (arith, length-append rs (r ∷ []));
    at_most = omega (arith, length-append rs (r ∷ []), o.room);
    limited = limited_by h;
  }
    where
      limited_by :
          HasRoom rs (announced (position 19 is) r)
          → (body_total is (rs ++ (r ∷ [])) ≤ max_batch_body_bytes) ⊎ (length (rs ++ (r ∷ [])) ≡ 1)
      limited_by (inl e) = inr (rw e)
      limited_by (inr (inl e)) = inl (rw e (omega arith))
      limited_by (inr (inr e)) = inl (omega (arith, total_one_more (position 19 is) rs r g))

  stream_record-Outcome :
      (records : List WarcRecord) (more : ℕ) (cs : List (List WarcRecord)) (rs : List WarcRecord)
      (a : ℕ) (r : WarcRecord)
      → Accepts
      → All IsColumn is
      → IsDistinct is
      → 0 < batch_size
      → Stands records (suc more) cs rs a
      → IsOpen rs
      → IsGood r
      → Outcome
          (records ++ (r ∷ []))
          more
          IsOpen
          (stream_record refuses batch_size (is_some (position 19 is)) (state cs rs a) r)
  unfolding stream_record
  stream_record-Outcome records more cs rs a r h c d b s o g =
      let n = announced (position 19 is) r in
      let room =
        make_room-Outcome records (suc more) cs rs a n h c
          (announced_small (position 19 is) r g.fits) b s o in
      let chunk = IsChunk-snoc room.rs r g room.holds.0 room.holds.1 in
      let full =
        flush_full-Outcome (is_some (position 19 is)) (records ++ (r ∷ [])) more room.cs
          (room.rs ++ (r ∷ [])) room.a h c b
          (record {
            chunks = room.stands.chunks;
            complete =
                sym (append_assoc (flatten room.cs) room.rs (r ∷ []))
                ∙ ap (λ (xs : List WarcRecord). xs ++ (r ∷ [])) room.stands.complete;
            enough = omega (arith, room.stands.enough, length-append room.rs (r ∷ []));
          })
          chunk in
      record {
        cs = full.cs;
        rs = full.rs;
        a = full.a;
        returns =
            simp
              (
                announced_length-ok (position 19 is) r g.fits,
                room.returns,
                append_record-batch_of is schema room.rs r c d g,
              )
              full.returns;
        stands = full.stands;
        holds = full.holds;
      }

  loop_end_full :
      (cs : List (List WarcRecord)) (rs : List WarcRecord) (a : ℕ)
      → Accepts
      → ltb 0 (length rs) ≡ true
      → 0 < a
      → stream_loop refuses batch_size (is_some (position 19 is)) (state cs rs a) []
        ≡ (map (batch_record is schema) (cs ++ (rs ∷ [])), finished)
  unfolding stream_loop batch_of
  loop_end_full cs rs zero h full p = absurd (omega arith)
  loop_end_full cs rs (suc a) h full p = rw full (rw (send-state cs rs a h))

  loop_end_vacant :
      (cs : List (List WarcRecord)) (rs : List WarcRecord) (a : ℕ)
      → ltb 0 (length rs) ≡ false
      → stream_loop refuses batch_size (is_some (position 19 is)) (state cs rs a) []
        ≡ (map (batch_record is schema) cs, finished)
  unfolding stream_loop batch_of
  loop_end_vacant cs rs a vacant = rw vacant

  stream_loop-chunks :
      (records rest : List WarcRecord) (cs : List (List WarcRecord)) (rs : List WarcRecord) (a : ℕ)
      → Accepts
      → All IsColumn is
      → IsDistinct is
      → 0 < batch_size
      → Stands records (length rest) cs rs a
      → IsOpen rs
      → All IsGood rest
      → (cs' : List (List WarcRecord)) × (stream_loop refuses batch_size
            (is_some (position 19 is))
            (state cs rs a)
            (map some rest)
          ≡ (map (batch_record is schema) cs', finished))
        × (flatten cs' ≡ records ++ rest)
        × All IsChunk cs'
  unfolding stream_loop
  stream_loop-chunks records [] cs rs a h c d b s o g = elim (Bool-cases (ltb 0 (length rs))) [
    | inl full ↦ (
      cs ++ (rs ∷ []),
      loop_end_full cs rs a h full (ground arith),
      flatten-snoc cs rs ∙ s.complete ∙ sym (append-nil records),
      All-append IsChunk cs (rs ∷ []) s.chunks (IsChunk-open rs (ground arith) o, tt),
    )
    | inr vacant ↦ (
      cs,
      loop_end_vacant cs rs a vacant,
      sym (append-nil (flatten cs))
          ∙ ap (◌++◌ (flatten cs)) (sym (empty_list rs vacant))
          ∙ s.complete
          ∙ sym (append-nil records),
      s.chunks,
    )
  ]
  stream_loop-chunks records (r ∷ rest) cs rs a h c d b s o g =
      let step = stream_record-Outcome records (length rest) cs rs a r h c d b s o g.0 in
      let (cs', runs, whole, chunks) =
        stream_loop-chunks (records ++ (r ∷ [])) rest step.cs step.rs step.a h c d b step.stands
          step.holds g.1 in
      (cs', rw (step.returns, stream_loop) runs, whole ∙ append_assoc records (r ∷ []) rest, chunks)

  -- Every record reaches the consumer once and in order: the batches are those of consecutive chunks
  -- of the records, which joined are the records, and the task finishes without an error. No chunk is
  -- empty or longer than the batch size, and none holds more than the limit of body bytes unless it is
  -- a single record. The batch size is positive, the projected columns exist and differ, the records
  -- are well-formed, the consumer takes as many batches as there are records, and Arrow accepts the
  -- columns.
  pub stream_records-chunks :
      (records : List WarcRecord) (accepts : ℕ)
      → Accepts
      → All IsColumn is
      → IsDistinct is
      → 0 < batch_size
      → length records ≤ accepts
      → All IsGood records
      → (cs : List (List WarcRecord)) × (stream_records refuses batch_size is schema accepts
            (map some records)
          ≡ (map (batch_record is schema) cs, finished))
        × (flatten cs ≡ records)
        × All IsChunk cs
  unfolding stream_records flatten
  stream_records-chunks records accepts h c d b e g =
      let start : Stands [] (length records) [] [] accepts = record {
        chunks = tt;
        complete = refl;
        enough = omega arith;
      } in
      rw (new_batch-empty is schema c, stream_records)
        (stream_loop-chunks [] records [] [] accepts h c d b start (IsOpen-nil b) g)
