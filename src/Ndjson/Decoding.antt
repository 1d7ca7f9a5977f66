-- ===== src/Ndjson/Decoding.antt =====
-- packages/browser/src/ndjson.ts: `push` against a decoder that reads one byte at a time.
use pickforge.Base.{
  ℕ, zero, suc, ◌+◌, ◌≤◌, ◌<◌, ◌≡◌, refl, ap, ◌∙◌, inl, inr, Bool, true, false, List, [], ◌∷◌, ◌++◌,
  some, ok, err, if◌then◌else◌, ltb, ◌==◌, length, arith, Bool-cases, Result-cases, length-append,
}
use mathlib.Core.List.{append_assoc}
use pickforge.Ndjson.Buffer.{
  Platform, JsonRpcRecord, too_long, bad_record, lf, Outcome, done, throw, segment, push_loop, push,
  parse_json_rpc_record,
}

module _ (p : Platform) (max : ℕ) where
  -- The reference: one byte at a time, the limit checked at each, a record parsed at each LF.
  unfoldable pub feed_all : List ℕ → List JsonRpcRecord → List ℕ → Outcome
  feed_all buffered records [] = done buffered records
  feed_all buffered records (b ∷ bs) =
      if ltb max (length buffered + 1)
      then throw [] (too_long max)
      else if b == lf
      then elim (parse_json_rpc_record p (buffered ++ b ∷ [])) [
        | err m ↦ throw [] (bad_record m)
        | ok r ↦ feed_all [] (records ++ r ∷ []) bs
      ]
      else feed_all (buffered ++ b ∷ []) records bs

  -- What both do with a record's bytes, once they are within the limit.
  close_record : List ℕ → List JsonRpcRecord → List ℕ → Outcome
  close_record raw records rest = elim (parse_json_rpc_record p raw) [
    | err m ↦ throw [] (bad_record m)
    | ok r ↦ feed_all [] (records ++ r ∷ []) rest
  ]

  take_segment : List ℕ → List JsonRpcRecord → List ℕ × List ℕ × Bool → Outcome
  unfolding close_record
  take_segment buffered records (s, rest, found) =
      if ltb max (length buffered + length s)
      then throw [] (too_long max)
      else if found
      then close_record (buffered ++ s) records rest
      else done (buffered ++ s) records

  length-segment : (bs : List ℕ) → length (segment bs).0 + length (segment bs).1 ≡ length bs
  unfolding segment
  length-segment [] = omega arith
  length-segment (b ∷ bs) = ground (arith, length-segment bs)

  segment-lf : (b : ℕ) (bs : List ℕ) → (b == lf) ≡ true → segment (b ∷ bs) ≡ (b ∷ [], bs, true)
  unfolding segment
  segment-lf b bs e = rw e

  segment-other :
      (b : ℕ) (bs : List ℕ)
      → (b == lf) ≡ false
      → segment (b ∷ bs) ≡ (b ∷ (segment bs).0, (segment bs).1, (segment bs).2)
  unfolding segment
  segment-other b bs e = rw e

  abbrev checked : List ℕ → Outcome → Outcome
  checked buffered o = if ltb max (length buffered + 1) then throw [] (too_long max) else o

  feed_all-lf :
      (b : ℕ) (bs buffered : List ℕ) (records : List JsonRpcRecord)
      → (b == lf) ≡ true
      → feed_all buffered records (b ∷ bs)
        ≡ checked buffered (close_record (buffered ++ b ∷ []) records bs)
  unfolding feed_all close_record
  feed_all-lf b bs buffered records e = rw e

  feed_all-other :
      (b : ℕ) (bs buffered : List ℕ) (records : List JsonRpcRecord)
      → (b == lf) ≡ false
      → feed_all buffered records (b ∷ bs)
        ≡ checked buffered (feed_all (buffered ++ b ∷ []) records bs)
  unfolding feed_all
  feed_all-other b bs buffered records e = rw e

  -- A byte may be checked and buffered before the rest of its segment.
  take_segment-cons :
      (b : ℕ) (buffered : List ℕ) (records : List JsonRpcRecord) (s rest : List ℕ) (found : Bool)
      → checked buffered (take_segment (buffered ++ b ∷ []) records (s, rest, found))
        ≡ take_segment buffered records (b ∷ s, rest, found)
  unfolding take_segment
  take_segment-cons b buffered records s rest found =
      rw (length-append buffered (b ∷ []), append_assoc buffered (b ∷ []) s) (ground arith)

  take_segment-last :
      (b : ℕ) (buffered : List ℕ) (records : List JsonRpcRecord) (rest : List ℕ)
      → checked buffered (close_record (buffered ++ b ∷ []) records rest)
        ≡ take_segment buffered records (b ∷ [], rest, true)
  unfolding take_segment
  take_segment-last b buffered records rest = ground arith

  take_segment-end :
      (b : ℕ) (buffered : List ℕ) (records : List JsonRpcRecord)
      → checked buffered (feed_all (buffered ++ b ∷ []) records [])
        ≡ take_segment buffered records (b ∷ (segment []).0, (segment []).1, (segment []).2)
  unfolding take_segment feed_all segment
  take_segment-end b buffered records = ground arith

  -- Reading a segment byte by byte is reading it at once.
  feed_all-take_segment :
      (bs : List ℕ) (b : ℕ) (buffered : List ℕ) (records : List JsonRpcRecord)
      → feed_all buffered records (b ∷ bs) ≡ take_segment buffered records (segment (b ∷ bs))
  feed_all-take_segment [] b buffered records = elim (Bool-cases (b == lf)) [
    | inl e ↦
        rw (segment-lf b [] e, feed_all-lf b [] buffered records e)
          (take_segment-last b buffered records [])
    | inr e ↦
        rw (segment-other b [] e, feed_all-other b [] buffered records e)
          (take_segment-end b buffered records)
  ]
  feed_all-take_segment (c ∷ cs) b buffered records = elim (Bool-cases (b == lf)) [
    | inl e ↦
        rw (segment-lf b (c ∷ cs) e, feed_all-lf b (c ∷ cs) buffered records e)
          (take_segment-last b buffered records (c ∷ cs))
    | inr e ↦
        rw (segment-other b (c ∷ cs) e, feed_all-other b (c ∷ cs) buffered records e)
          (ap (checked buffered) (feed_all-take_segment cs c (buffered ++ b ∷ []) records)
            ∙ take_segment-cons b buffered records (segment (c ∷ cs)).0 (segment (c ∷ cs)).1
                (segment (c ∷ cs)).2)
  ]

  -- One round of the loop, by the same helper.
  length-segment_rest : (b : ℕ) (bs : List ℕ) → length (segment (b ∷ bs)).1 ≤ length bs
  unfolding segment
  length-segment_rest b bs = ground (arith, length-segment bs)

  push_loop-step :
      (fuel : ℕ) (buffered : List ℕ) (records : List JsonRpcRecord) (b : ℕ) (bs : List ℕ)
      → ((r : JsonRpcRecord)
          → push_loop p max fuel [] (records ++ r ∷ []) (segment (b ∷ bs)).1
            ≡ some (feed_all [] (records ++ r ∷ []) (segment (b ∷ bs)).1))
      → push_loop p max (suc fuel) buffered records (b ∷ bs)
        ≡ some (take_segment buffered records (segment (b ∷ bs)))
  unfolding push_loop take_segment close_record
  push_loop-step fuel buffered records b bs ih =
      elim (Result-cases (parse_json_rpc_record p (buffered ++ (segment (b ∷ bs)).0))) [
        | inl (r, e) ↦ ground (arith, ih r)
        | inr (m, e) ↦ ground arith
      ]

  push_loop-eq-feed_all :
      (fuel : ℕ) (buffered : List ℕ) (records : List JsonRpcRecord) (bytes : List ℕ)
      → length bytes < fuel
      → push_loop p max fuel buffered records bytes ≡ some (feed_all buffered records bytes)
  push_loop-eq-feed_all zero buffered records bytes h = absurd (omega arith)
  push_loop-eq-feed_all (suc fuel) buffered records [] h = unfold push_loop feed_all in refl
  push_loop-eq-feed_all (suc fuel) buffered records (b ∷ bs) h =
      rw (feed_all-take_segment bs b buffered records) (
        push_loop-step fuel buffered records b bs (λ r.
          push_loop-eq-feed_all fuel [] (records ++ r ∷ []) (segment (b ∷ bs)).1
            (omega (arith, length-segment_rest b bs))))

  -- For every chunk and every kept prefix, `push` gives the records, the bytes kept and the error
  -- that reading the chunk byte by byte gives; so its loop ends on each chunk.
  pub push-feed_all :
      (buffered bytes : List ℕ) → push p max buffered bytes ≡ some (feed_all buffered [] bytes)
  unfolding push
  push-feed_all buffered bytes =
      push_loop-eq-feed_all (suc (length bytes)) buffered [] bytes (omega arith)
