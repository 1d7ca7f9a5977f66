-- ===== src/Ndjson/Tests.antt =====
-- Concrete streams, on a platform that knows one message and its text `{}`.
use mathlib.Core.List.{flatten}
use pickforge.Base.{
  ℕ, ◌≡◌, refl, String, List, [], ◌∷◌, ◌++◌, Option, none, some, ok, map, arith, if◌then◌else◌,
  ◌==◌,
}
use pickforge.Json.{Json, obj, field, end, str, get, has, prop, null, num, nat}
use pickforge.Ndjson.Messages.{
  assert_json_rpc_message, assert_json_rpc_request, assert_json_rpc_response, is_json_rpc_id,
}
use pickforge.Ndjson.Buffer.{
  Platform, lf, done, throw, too_long, bad_record, push, parse_json_rpc_record, content, close,
  segment, serialize_json_rpc_message,
}
use pickforge.Ndjson.Decoding.{feed_all, push-feed_all}
use pickforge.Ndjson.Chunks.{push_chunks, read_all, IsPumped, push_chunks-read_all}
use pickforge.Ndjson.Stream.{Frames, push-Frames}
use pickforge.Ndjson.RoundTrip.{Travels, sent, serialize_all, push-serialize_all}

abbrev ping : Json
ping = obj (field "jsonrpc" (str "2.0") (field "method" (str "ping") end))

abbrev answer : Json
answer = obj (field "jsonrpc" (str "2.0") (field "id" (num (nat 1)) (field "result" null end)))

abbrev braces : List ℕ
braces = b'{' ∷ b'}' ∷ []

abbrev line : List ℕ
line = b'{' ∷ b'}' ∷ 0x0a ∷ []

abbrev decode_braces : List ℕ → Option String
decode_braces (a ∷ b ∷ []) = if a == b'{' then some "{}" else none
decode_braces _ = none

abbrev platform : Platform
platform = record { decode = decode_braces; parse = λ t. ok ping; stringify = λ v. braces }

-- What the decoder computes with.
runs : Unit {0}
unfolding push parse_json_rpc_record content assert_json_rpc_message assert_json_rpc_request
    assert_json_rpc_response get close segment
runs = tt

one_record :
    push platform 8 [] (line ++ b'{' ∷ [])
    ≡ some (done (b'{' ∷ []) (record { message = ping; raw = line } ∷ []))
unfolding runs
one_record = refl

over_limit : push platform 2 [] line ≡ some (throw [] (too_long 2))
unfolding runs
over_limit = refl

invalid_utf8 :
    push platform 8 [] (b'x' ∷ b'y' ∷ lf ∷ [])
    ≡ some (throw [] (bad_record "JSON-RPC record is not valid UTF-8"))
unfolding runs
invalid_utf8 = refl

crlf : content (b'{' ∷ b'}' ∷ 0x0d ∷ 0x0a ∷ []) ≡ braces
unfolding runs
crlf = refl

answer_taken : assert_json_rpc_message answer ≡ ok tt
unfolding runs is_json_rpc_id prop has
answer_taken = refl

push-feed_all_example : push platform 8 [] line ≡ some (feed_all platform 8 [] [] line)
push-feed_all_example = push-feed_all platform 8 [] line

push_chunks-read_all_example :
    IsPumped platform 8
      (push_chunks platform 8 [] (braces ∷ (lf ∷ []) ∷ line ∷ []))
      (read_all platform 8 [] (line ++ line))
unfolding flatten
push_chunks-read_all_example = push_chunks-read_all platform 8 [] (braces ∷ (lf ∷ []) ∷ line ∷ [])

push-Frames_example :
    Frames platform 8 (line ++ b'{' ∷ []) (b'{' ∷ []) (record { message = ping; raw = line } ∷ [])
push-Frames_example = push-Frames platform 8 (line ++ b'{' ∷ []) (b'{' ∷ []) _ one_record

braces-Travels : Travels platform 8 ping
braces-Travels = record {
  text = "{}";
  no_lf = (omega arith, (omega arith, tt));
  no_cr = (omega arith, (omega arith, tt));
  not_empty = λ e. cc;
  decoded = refl;
  parsed = refl;
  fits = omega arith;
}

push-serialize_all_example :
    push platform 8 [] (line ++ line) ≡ some (done [] (map (sent platform 8) (ping ∷ ping ∷ [])))
unfolding runs serialize_all serialize_json_rpc_message
push-serialize_all_example =
    push-serialize_all platform 8 (ping ∷ ping ∷ []) (line ++ line)
      (braces-Travels, (braces-Travels, tt)) refl
