-- ===== src/Ndjson/Chunks.antt =====
-- packages/browser/src/ndjson.ts: a stream that comes in chunks, against a reader of single bytes.
use pickforge.Base.{
  ℕ, ◌+◌, ◌≡◌, refl, sym, ap, ◌∙◌, List, [], ◌∷◌, ◌++◌, Option, none, some, arith, Result-cases,
  inl, inr, ok, err, append_none, if◌then◌else◌, ltb, ◌==◌, length,
}
use mathlib.Core.List.{append_assoc, flatten}
use pickforge.Ndjson.Buffer.{
  Platform, JsonRpcRecord, ProtocolError, too_long, bad_record, lf, Outcome, done, throw, push,
  parse_json_rpc_record,
}
use pickforge.Ndjson.Decoding.{feed_all, push-feed_all}

-- What a pump has given of a stream, and how it stands: it goes on with the bytes kept, or has stopped
-- with an error.
pub data Pumped : Type 0 where
  pumping : (given : List JsonRpcRecord) (buffered : List ℕ) → Pumped
  stopped : (given : List JsonRpcRecord) (buffered : List ℕ) (error : ProtocolError) → Pumped

-- The records that were given before stay given.
abbrev pub prepend : List JsonRpcRecord → Pumped → Pumped
prepend earlier (pumping given buffered) = pumping (earlier ++ given) buffered
prepend earlier (stopped given buffered e) = stopped (earlier ++ given) buffered e

abbrev prepend_all : List JsonRpcRecord → Option Pumped → Option Pumped
prepend_all earlier none = none
prepend_all earlier (some o) = some (prepend earlier o)

-- The records of a chunk are given when `push` returns them; if it throws, it gives none.
abbrev pub and_then : Option Outcome → (List ℕ → Option Pumped) → Option Pumped
and_then none k = none
and_then (some (throw buffered e)) k = some (stopped [] buffered e)
and_then (some (done buffered records)) k = prepend_all records (k buffered)

-- The calls of `push` that the pump makes, one for each chunk, until one throws.
unfoldable pub push_chunks : Platform → ℕ → List ℕ → List (List ℕ) → Option Pumped
push_chunks p max buffered [] = some (pumping [] buffered)
push_chunks p max buffered (c ∷ cs) =
    and_then (push p max buffered c) (λ kept. push_chunks p max kept cs)

-- A pump that goes on has given all the records of the other one; one that has stopped did so with the
-- same error, and has given a first part of them.
abbrev pub Agrees : Pumped → Pumped → Type 0
Agrees (pumping given kept) (pumping all kept') = (given ≡ all) × (kept ≡ kept')
Agrees (stopped given kept e) (stopped all kept' e') =
    (kept ≡ kept') × (e ≡ e') × (later : List JsonRpcRecord) × (all ≡ given ++ later)
Agrees _ _ = ⊥

Agrees-prepend :
    (earlier : List JsonRpcRecord) (a b : Pumped)
    → Agrees a b
    → Agrees (prepend earlier a) (prepend earlier b)
Agrees-prepend earlier (pumping given kept) (pumping all kept') h =
    (ap (λ t. earlier ++ t) (h.0), h.1)
Agrees-prepend earlier (stopped given kept e) (stopped all kept' e') (same, error, later, parts) =
    (same, error, later, ap (λ t. earlier ++ t) parts ∙ sym (append_assoc earlier given later))
Agrees-prepend earlier (pumping given kept) (stopped all kept' e') h = elim h [ ]
Agrees-prepend earlier (stopped given kept e) (pumping all kept') h = elim h [ ]

module _ (p : Platform) (max : ℕ) where
  -- One byte at a time: each record is given as soon as its line ends.
  unfoldable pub read_all : List ℕ → List ℕ → Pumped
  read_all buffered [] = pumping [] buffered
  read_all buffered (b ∷ bs) =
      if ltb max (length buffered + 1)
      then stopped [] [] (too_long max)
      else if b == lf
      then elim (parse_json_rpc_record p (buffered ++ b ∷ [])) [
        | err m ↦ stopped [] [] (bad_record m)
        | ok r ↦ prepend (r ∷ []) (read_all [] bs)
      ]
      else read_all (buffered ++ b ∷ []) bs

  -- What a call of `push` tells of it.
  abbrev told : List JsonRpcRecord → Pumped → Outcome
  told records (pumping given buffered) = done buffered (records ++ given)
  told records (stopped given buffered e) = throw buffered e

  told-prepend :
      (records : List JsonRpcRecord) (r : JsonRpcRecord) (o : Pumped)
      → told (records ++ r ∷ []) o ≡ told records (prepend (r ∷ []) o)
  told-prepend records r (pumping given buffered) =
      ap (done buffered) (append_assoc records (r ∷ []) given)
  told-prepend records r (stopped given buffered e) = refl

  feed_all-told :
      (buffered : List ℕ) (records : List JsonRpcRecord) (bs : List ℕ)
      → feed_all p max buffered records bs ≡ told records (read_all buffered bs)
  unfolding feed_all read_all
  feed_all-told buffered records [] = ground (arith, append_none records)
  feed_all-told buffered records (b ∷ bs) =
      elim (Result-cases (parse_json_rpc_record p (buffered ++ b ∷ []))) [
        | inl (r, e) ↦ ground (
          arith,
          e,
          feed_all-told [] (records ++ r ∷ []) bs,
          told-prepend records r (read_all [] bs),
          feed_all-told (buffered ++ b ∷ []) records bs,
        )
        | inr (m, e) ↦ ground (arith, e, feed_all-told (buffered ++ b ∷ []) records bs)
      ]

  abbrev resume : Pumped → List ℕ → Pumped
  resume (pumping given buffered) ys = prepend given (read_all buffered ys)
  resume (stopped given buffered e) ys = stopped given buffered e

  prepend-prepend :
      (xs ys : List JsonRpcRecord) (o : Pumped) → prepend xs (prepend ys o) ≡ prepend (xs ++ ys) o
  prepend-prepend xs ys (pumping given kept) =
      ap (λ t. pumping t kept) (sym (append_assoc xs ys given))
  prepend-prepend xs ys (stopped given kept e) =
      ap (λ t. stopped t kept e) (sym (append_assoc xs ys given))

  prepend_none : (o : Pumped) → prepend [] o ≡ o
  prepend_none (pumping given kept) = refl
  prepend_none (stopped given kept e) = refl

  prepend-resume :
      (xs : List JsonRpcRecord) (o : Pumped) (ys : List ℕ)
      → prepend xs (resume o ys) ≡ resume (prepend xs o) ys
  prepend-resume xs (pumping given kept) ys = prepend-prepend xs given (read_all kept ys)
  prepend-resume xs (stopped given kept e) ys = refl

  read_all-append :
      (buffered xs ys : List ℕ) → read_all buffered (xs ++ ys) ≡ resume (read_all buffered xs) ys
  unfolding read_all
  read_all-append buffered [] ys = sym (prepend_none (read_all buffered ys))
  read_all-append buffered (b ∷ xs) ys =
      elim (Result-cases (parse_json_rpc_record p (buffered ++ b ∷ []))) [
        | inl (r, e) ↦ ground (
          arith,
          e,
          read_all-append [] xs ys,
          prepend-resume (r ∷ []) (read_all [] xs) ys,
          read_all-append (buffered ++ b ∷ []) xs ys,
        )
        | inr (m, e) ↦ ground (arith, e, read_all-append (buffered ++ b ∷ []) xs ys)
      ]

  abbrev pub IsPumped : Option Pumped → Pumped → Type 0
  IsPumped result all = (o : Pumped) × (result ≡ some o) × Agrees o all

  -- One chunk, and the others after it.
  chunk-IsPumped :
      (o : Pumped) (k : List ℕ → Option Pumped) (ys : List ℕ)
      → ((kept : List ℕ) → IsPumped (k kept) (read_all kept ys))
      → IsPumped (and_then (some (told [] o)) k) (resume o ys)
  chunk-IsPumped (pumping given kept) k ys h =
      let (rest, got, agrees) = h kept in
      (
        prepend given rest,
        ap (prepend_all given) got,
        Agrees-prepend given rest (read_all kept ys) agrees,
      )
  chunk-IsPumped (stopped given kept e) k ys h =
      (stopped [] kept e, refl, (refl, refl, given, refl))

  -- However a stream is cut into chunks, the pump reads it to the end or to an error. Without an error
  -- it gives the records of the stream and keeps the bytes of the last line, as the reader of single
  -- bytes does; with one, it stops with the same error and the same bytes, and has given a first part
  -- of the records before it.
  pub push_chunks-read_all :
      (buffered : List ℕ) (chunks : List (List ℕ))
      → IsPumped (push_chunks p max buffered chunks) (read_all buffered (flatten chunks))
  unfolding push_chunks flatten read_all
  push_chunks-read_all buffered [] = (pumping [] buffered, refl, (refl, refl))
  push_chunks-read_all buffered (c ∷ cs) =
      rw
        (
          push-feed_all p max buffered c,
          feed_all-told buffered [] c,
          read_all-append buffered c (flatten cs),
        )
        (chunk-IsPumped (read_all buffered c) (λ kept. push_chunks p max kept cs) (flatten cs)
          (λ kept. push_chunks-read_all kept cs))
