-- ===== src/Ndjson/RoundTrip.antt =====
-- packages/browser/src/ndjson.ts: messages that are serialized and pushed come out again.
use pickforge.Base.{
  ℕ, ◌+◌, ◌≤◌, ◌<◌, ◌≡◌, ◌≢◌, refl, ap, ◌∙◌, List, [], ◌∷◌, ◌++◌, some, Result, ok, ◌>>=◌,
  >>=-returned, sym, length, arith, All, length-append, String, map, le→ltb_false,
}
use mathlib.Core.List.{append-nil, append_assoc}
use pickforge.Json.{Json}
use pickforge.Ndjson.Messages.{assert_json_rpc_message}
use pickforge.Ndjson.Buffer.{
  Platform, JsonRpcRecord, lf, cr, content, done, push, parse_json_rpc_record,
  serialize_json_rpc_message,
}
use pickforge.Ndjson.Decoding.{feed_all, push-feed_all}
use pickforge.Ndjson.Stream.{NoLf}

abbrev pub NoCr : List ℕ → Type 0
NoCr = All (λ b. b ≢ cr)

content-append : (xs : List ℕ) → NoCr xs → content (xs ++ lf ∷ []) ≡ xs
unfolding content
content-append [] h = refl
content-append (a ∷ []) h = ground arith
content-append (a ∷ b ∷ []) h = ap (λ r. a ∷ r) (content-append (b ∷ []) h.1)
content-append (a ∷ b ∷ c ∷ xs) h = ap (λ r. a ∷ r) (content-append (b ∷ c ∷ xs) h.1)

-- What is written for a list of messages, one after the other.
unfoldable pub serialize_all : Platform → List Json → Result String (List ℕ)
unfolding serialize_json_rpc_message
serialize_all p [] = ok []
serialize_all p (m ∷ ms) = do
  bytes ← serialize_json_rpc_message p m
  rest ← serialize_all p ms
  ok (bytes ++ rest)

module _ (p : Platform) (max : ℕ) where
  -- What is documented of `JSON.stringify` on a value of JSON: control characters are escaped,
  -- and `JSON.parse` gives the value back.
  pub record Travels (m : Json) : Type 0 where
    pub text : String
    pub no_lf : NoLf (p.stringify m)
    pub no_cr : NoCr (p.stringify m)
    pub not_empty : p.stringify m ≢ []
    pub decoded : p.decode (p.stringify m) ≡ some text
    pub parsed : p.parse text ≡ ok m
    pub fits : length (p.stringify m) < max

  abbrev pub sent : Json → JsonRpcRecord
  sent m = record { message = m; raw = p.stringify m ++ lf ∷ [] }

  parse-sent :
      (m : Json)
      → Travels m
      → assert_json_rpc_message m ≡ ok tt
      → parse_json_rpc_record p (p.stringify m ++ lf ∷ []) ≡ ok (sent m)
  unfolding parse_json_rpc_record
  parse-sent m t valid = ground (arith, content-append (p.stringify m) t.no_cr)

  -- Bytes without LF are kept.
  feed_all-NoLf :
      (xs buffered rest : List ℕ) (records : List JsonRpcRecord)
      → NoLf xs
      → length buffered + length xs ≤ max
      → feed_all p max buffered records (xs ++ rest) ≡ feed_all p max (buffered ++ xs) records rest
  unfolding feed_all
  feed_all-NoLf [] buffered rest records h m = rw (append-nil buffered)
  feed_all-NoLf (b ∷ xs) buffered rest records h m = rw (← append_assoc buffered (b ∷ []) xs) (
      ground (
        arith,
        length-append buffered (b ∷ []),
        feed_all-NoLf xs (buffered ++ b ∷ []) rest records h.1,
      ))

  feed_all-sent :
      (m : Json) (rest : List ℕ) (records : List JsonRpcRecord)
      → Travels m
      → assert_json_rpc_message m ≡ ok tt
      → feed_all p max [] records ((p.stringify m ++ lf ∷ []) ++ rest)
        ≡ feed_all p max [] (records ++ sent m ∷ []) rest
  feed_all-sent m rest records t valid =
      rw
        (
          append_assoc (p.stringify m) (lf ∷ []) rest,
          feed_all-NoLf (p.stringify m) [] (lf ∷ rest) records t.no_lf (omega (arith, t.fits)),
        )
        (unfold feed_all in
          rw (
            le→ltb_false max (length (p.stringify m) + 1) (omega (arith, t.fits)),
            parse-sent m t valid,
          ))

  serialize-ok :
      (m : Json) (bytes : List ℕ)
      → serialize_json_rpc_message p m ≡ ok bytes
      → (assert_json_rpc_message m ≡ ok tt) × (bytes ≡ p.stringify m ++ lf ∷ [])
  unfolding serialize_json_rpc_message
  serialize-ok m bytes e = let (u, valid, same) = >>=-returned _ _ (sym e) in (valid, cc same)

  feed_all-serialize_all :
      (ms : List Json) (bytes : List ℕ) (records : List JsonRpcRecord)
      → All Travels ms
      → serialize_all p ms ≡ ok bytes
      → feed_all p max [] records bytes ≡ done [] (records ++ map sent ms)
  unfolding serialize_all
  feed_all-serialize_all [] bytes records t e =
      let same : [] ≡ bytes = cc e in rw (← same, append-nil records) (unfold feed_all in refl)
  feed_all-serialize_all (m ∷ ms) bytes records t e =
      let (one, e₁, e') = >>=-returned _ (serialize_json_rpc_message p m) (sym e) in
      let (rest, e₂, e₃) = >>=-returned _ (serialize_all p ms) (sym e') in
      let (valid, same) = serialize-ok m one e₁ in
      let all : (p.stringify m ++ lf ∷ []) ++ rest ≡ bytes = cc (e₃, same) in
      rw (
        ← all,
        feed_all-sent m rest records t.0 valid,
        feed_all-serialize_all ms rest (records ++ sent m ∷ []) t.1 e₂,
        append_assoc records (sent m ∷ []) (map sent ms),
      )

  -- Messages that are serialized, written one after the other and pushed into a fresh decoder come
  -- out in order, each with the bytes that were written for it, and no byte is kept.
  pub push-serialize_all :
      (ms : List Json) (bytes : List ℕ)
      → All Travels ms
      → serialize_all p ms ≡ ok bytes
      → push p max [] bytes ≡ some (done [] (map sent ms))
  push-serialize_all ms bytes t e =
      push-feed_all p max [] bytes ∙ ap some (feed_all-serialize_all ms bytes [] t e)
