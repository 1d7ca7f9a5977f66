-- ===== src/Ndjson/Buffer.antt =====
-- packages/browser/src/ndjson.ts: the record decoder `JsonRpcNdjsonBuffer` and the serializer.
-- A chunk is its list of bytes. A call that throws gives the buffer that it leaves behind.
use Prim.Native.String
use pickforge.Base.{
  ℕ, zero, suc, ◌+◌, String, Bool, true, false, List, [], ◌∷◌, ◌++◌, Option, none, some, Result, ok,
  err, ◌>>=◌, ◌>>◌, if◌then◌else◌, ltb, ◌==◌, length,
}
use text.Mathlib.Text.{starts_with}
use pickforge.Json.{Json}
use pickforge.Ndjson.Messages.{assert_json_rpc_message}

-- `TextDecoder` in its fatal mode, `JSON.parse` with the message of its error, and the UTF-8 bytes
-- of `JSON.stringify`.
pub record Platform : Type 0 where
  pub decode : List ℕ → Option String
  pub parse : String → Result String Json
  pub stringify : Json → List ℕ

-- A decoded message, and the bytes of its record with their delimiter.
pub record JsonRpcRecord : Type 0 where
  pub message : Json
  pub raw : List ℕ

pub data ProtocolError : Type 0 where
  too_long : (max_record_bytes : ℕ) → ProtocolError
  bad_record : (message : String) → ProtocolError
  incomplete : ProtocolError

abbrev pub lf : ℕ
lf = 0x0a

abbrev pub cr : ℕ
cr = 0x0d

-- The record without its last byte, its LF, and without a CR before that.
unfoldable pub content : List ℕ → List ℕ
content [] = []
content (a ∷ []) = []
content (a ∷ b ∷ []) = if a == cr then [] else a ∷ []
content (a ∷ b ∷ c ∷ bs) = a ∷ content (b ∷ c ∷ bs)

unfoldable pub decode_utf8 : Platform → List ℕ → Result String String
decode_utf8 p bytes = elim (p.decode bytes) [
  | none ↦ err "JSON-RPC record is not valid UTF-8"
  | some t ↦ ok t
]

-- The `catch` of the parser.
abbrev described : Result String Json → Result String Json
described (ok v) = ok v
described (err m) =
    if starts_with m "JSON-RPC record"
    then err m
    else err (String.◌++◌ "malformed JSON-RPC record: " m)

abbrev is_empty : List ℕ → Bool
is_empty [] = true
is_empty (_ ∷ _) = false

unfoldable pub parse_json_rpc_record : Platform → List ℕ → Result String JsonRpcRecord
unfolding content decode_utf8
parse_json_rpc_record p raw = if is_empty (content raw) then err "empty JSON-RPC record" else do
  parsed ← described (decode_utf8 p (content raw) >>= p.parse)
  assert_json_rpc_message parsed
  ok (record { message = parsed; raw = raw })

-- How a call of `push` ends: it returns the records, or throws; both with the bytes kept.
pub data Outcome : Type 0 where
  done : (buffered : List ℕ) (records : List JsonRpcRecord) → Outcome
  throw : (buffered : List ℕ) (error : ProtocolError) → Outcome

-- The bytes up to the first LF with it, the bytes behind them, and whether an LF was found.
unfoldable pub segment : List ℕ → List ℕ × List ℕ × Bool
segment [] = ([], [], false)
segment (b ∷ bs) =
    if b == lf then (b ∷ [], bs, true) else (let (s, r, found) = segment bs in (b ∷ s, r, found))

-- The loop of `push`, on the bytes not yet read; `none` means that the fuel ran out.
unfoldable pub push_loop : Platform → ℕ → ℕ → List ℕ → List JsonRpcRecord → List ℕ → Option Outcome
push_loop p max zero buffered records bytes = none
push_loop p max (suc fuel) buffered records [] = some (done buffered records)
push_loop p max (suc fuel) buffered records (b ∷ bs) =
    let (s, rest, found) = segment (b ∷ bs) in
    if ltb max (length buffered + length s) then some (throw [] (too_long max)) else elim found [
      | false ↦ some (done (buffered ++ s) records)
      | true ↦ elim (parse_json_rpc_record p (buffered ++ s)) [
        | err m ↦ some (throw [] (bad_record m))
        | ok r ↦ push_loop p max fuel [] (records ++ r ∷ []) rest
      ]
    ]

unfoldable pub push : Platform → ℕ → List ℕ → List ℕ → Option Outcome
unfolding push_loop
push p max buffered bytes = push_loop p max (suc (length bytes)) buffered [] bytes

unfoldable pub close : List ℕ → Result ProtocolError (Unit {0})
close [] = ok tt
close (_ ∷ _) = err incomplete

unfoldable pub serialize_json_rpc_message : Platform → Json → Result String (List ℕ)
serialize_json_rpc_message p message = do
  assert_json_rpc_message message
  ok (p.stringify message ++ lf ∷ [])
