-- ===== src/Ndjson/Stream.antt =====
-- packages/browser/src/ndjson.ts: the framing of a stream, and sending messages through it.
use pickforge.Base.{
  ℕ, ◌+◌, ◌≤◌, ◌≡◌, ◌≢◌, refl, sym, ap, ◌∙◌, List, [], ◌∷◌, ◌++◌, some, ok, ltb, ◌==◌, length,
  arith, Bool-cases, Result-cases, inl, inr, All, All-append, length-append,
}
use mathlib.Core.List.{append-nil, append_assoc}
use pickforge.Ndjson.Buffer.{Platform, JsonRpcRecord, lf, done, push, parse_json_rpc_record}
use pickforge.Ndjson.Decoding.{feed_all, push-feed_all}

abbrev pub raws : List JsonRpcRecord → List ℕ
raws [] = []
raws (r ∷ rs) = r.raw ++ raws rs

raws-append : (rs qs : List JsonRpcRecord) → raws (rs ++ qs) ≡ raws rs ++ raws qs
raws-append [] qs = refl
raws-append (r ∷ rs) qs = rw (raws-append rs qs) (sym (append_assoc r.raw (raws rs) (raws qs)))

abbrev pub NoLf : List ℕ → Type 0
NoLf = All (λ b. b ≢ lf)

module _ (p : Platform) (max : ℕ) where
  parse-raw : (raw : List ℕ) (r : JsonRpcRecord) → parse_json_rpc_record p raw ≡ ok r → r.raw ≡ raw
  unfolding parse_json_rpc_record
  parse-raw raw r e = ground arith

  -- One line of the stream, with its LF, that the parser takes.
  pub record IsRecord (r : JsonRpcRecord) : Type 0 where
    pub body : List ℕ
    pub line : r.raw ≡ body ++ lf ∷ []
    pub one_line : NoLf body
    pub fits : length r.raw ≤ max
    pub parsed : parse_json_rpc_record p r.raw ≡ ok r

  pub record Frames (stream kept : List ℕ) (records : List JsonRpcRecord) : Type 0 where
    pub whole : raws records ++ kept ≡ stream
    pub partial : NoLf kept
    pub bounded : length kept ≤ max
    pub lines : All IsRecord records

  Frames-byte :
      (b : ℕ) (stream kept : List ℕ) (records : List JsonRpcRecord)
      → Frames stream kept records
      → b ≢ lf
      → length kept + 1 ≤ max
      → Frames (stream ++ b ∷ []) (kept ++ b ∷ []) records
  Frames-byte b stream kept records f h m = record {
    whole = sym (append_assoc (raws records) kept (b ∷ [])) ∙ ap (λ s. s ++ b ∷ []) f.whole;
    partial = All-append _ kept (b ∷ []) f.partial (h, tt);
    bounded = omega (arith, length-append kept (b ∷ []));
    lines = f.lines;
  }

  Frames-record :
      (b : ℕ) (stream kept : List ℕ) (records : List JsonRpcRecord) (r : JsonRpcRecord)
      → Frames stream kept records
      → b ≡ lf
      → length kept + 1 ≤ max
      → parse_json_rpc_record p (kept ++ b ∷ []) ≡ ok r
      → Frames (stream ++ b ∷ []) [] (records ++ r ∷ [])
  Frames-record b stream kept records r f h m e =
      let raw : r.raw ≡ kept ++ b ∷ [] = parse-raw (kept ++ b ∷ []) r e in
      record {
        whole =
            append-nil (raws (records ++ r ∷ []))
            ∙ raws-append records (r ∷ [])
            ∙ ap (λ t. raws records ++ t) (append-nil r.raw ∙ raw)
            ∙ sym (append_assoc (raws records) kept (b ∷ []))
            ∙ ap (λ s. s ++ b ∷ []) f.whole;
        partial = tt;
        bounded = omega arith;
        lines = All-append _ records (r ∷ []) f.lines (
          record {
            body = kept;
            line = rw (raw, h);
            one_line = f.partial;
            fits = rw (raw, length-append kept (b ∷ [])) (omega arith);
            parsed = ap (parse_json_rpc_record p) raw ∙ e;
          },
          tt,
        );
      }

  -- A byte that does not make the decoder throw keeps the frames.
  feed_all-Frames_cons :
      (b : ℕ) (bs stream buffered : List ℕ) (records : List JsonRpcRecord) (kept : List ℕ)
      (out : List JsonRpcRecord)
      → Frames stream buffered records
      → ((buffered' : List ℕ) (records' : List JsonRpcRecord)
          → Frames (stream ++ b ∷ []) buffered' records'
          → feed_all p max buffered' records' bs ≡ done kept out
          → Frames ((stream ++ b ∷ []) ++ bs) kept out)
      → feed_all p max buffered records (b ∷ bs) ≡ done kept out
      → Frames ((stream ++ b ∷ []) ++ bs) kept out
  unfolding feed_all
  feed_all-Frames_cons b bs stream buffered records kept out f ih e =
      elim (Bool-cases (ltb max (length buffered + 1))) [
        | inl over ↦ absurd (ground arith)
        | inr fits ↦ elim (Bool-cases (b == lf)) [
          | inl is_lf ↦ elim (Result-cases (parse_json_rpc_record p (buffered ++ b ∷ []))) [
            | inl (r, parsed) ↦
                ih [] (records ++ r ∷ [])
                  (Frames-record b stream buffered records r f (ground arith) (ground arith) parsed)
                  (ground arith)
            | inr (m, bad) ↦ absurd (ground arith)
          ]
          | inr not_lf ↦
              ih (buffered ++ b ∷ []) records
                (Frames-byte b stream buffered records f (ground arith) (ground arith))
                (ground arith)
        ]
      ]

  feed_all-Frames :
      (bytes stream buffered : List ℕ) (records : List JsonRpcRecord) (kept : List ℕ)
      (out : List JsonRpcRecord)
      → Frames stream buffered records
      → feed_all p max buffered records bytes ≡ done kept out
      → Frames (stream ++ bytes) kept out
  feed_all-Frames [] stream buffered records kept out f e =
      let same_kept : buffered ≡ kept = unfold feed_all in (cc e) in
      let same_records : records ≡ out = unfold feed_all in (cc e) in
      rw (append-nil stream, ← same_kept, ← same_records) f
  feed_all-Frames (b ∷ bs) stream buffered records kept out f e =
      rw (← append_assoc stream (b ∷ []) bs) (
        feed_all-Frames_cons b bs stream buffered records kept out f
          (λ buffered' records' f' e'.
            feed_all-Frames bs (stream ++ b ∷ []) buffered' records' kept out f' e')
          e)

  -- A call of `push` on a fresh decoder that does not throw cuts the stream into its lines: the
  -- records' bytes and the bytes kept are the stream, each record is one line that ends in LF, is
  -- within the limit and is taken by the parser, and the bytes kept are within the limit, with no LF.
  pub push-Frames :
      (stream kept : List ℕ) (records : List JsonRpcRecord)
      → push p max [] stream ≡ some (done kept records)
      → Frames stream kept records
  push-Frames stream kept records e =
      feed_all-Frames stream [] [] [] kept records
        (record { whole = refl; partial = tt; bounded = omega arith; lines = tt })
        (cc (e, push-feed_all p max [] stream))
