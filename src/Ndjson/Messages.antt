-- ===== src/Ndjson/Messages.antt =====
-- packages/browser/src/ndjson.ts: what a JSON-RPC message must look like.
use pickforge.Base.{
  String, str_eq, Bool, true, false, not, ◌&&◌, ◌||◌, Result, ok, err, require, ◌>>◌, if◌then◌else◌,
}
use pickforge.Json.{
  Json, Fields, str, obj, prop, has, is_undefined, is_null, is_string, is_object, is_array,
  is_finite_number,
}

-- A thrown `Error`, by its message.
abbrev pub Checked : Type 0
Checked = Result String (Unit {0})

abbrev pub is_nonempty_string : Json → Bool
is_nonempty_string (str s) = not (str_eq s "")
is_nonempty_string _ = false

unfoldable pub is_json_rpc_id : Json → Bool
is_json_rpc_id v = is_null v || is_string v || is_finite_number v

unfoldable pub assert_json_rpc_request : Fields → Checked
unfolding is_json_rpc_id prop has
assert_json_rpc_request value = do
  require (is_nonempty_string (prop "method" value))
      "JSON-RPC request method must be a non-empty string"
  require (not (has "result" value || has "error" value))
      "JSON-RPC request cannot contain result or error"
  require
      (not (has "id" value && not (is_undefined (prop "id" value)))
        || (is_json_rpc_id (prop "id" value) && not (is_null (prop "id" value))))
      "JSON-RPC request id must be a string or number"
  require
      ((not (has "params" value) || is_undefined (prop "params" value))
        || (is_object (prop "params" value) || is_array (prop "params" value)))
      "JSON-RPC params must be an object or array"

unfoldable pub assert_json_rpc_error_object : Json → Checked
unfolding prop
assert_json_rpc_error_object (obj error) = do
  require (is_finite_number (prop "code" error))
      "JSON-RPC error must contain numeric code and string message"
  require (is_string (prop "message" error))
      "JSON-RPC error must contain numeric code and string message"
assert_json_rpc_error_object _ = err "JSON-RPC error must contain numeric code and string message"

abbrev same : Bool → Bool → Bool
same true b = b
same false b = not b

unfoldable pub assert_json_rpc_response : Fields → Checked
unfolding is_json_rpc_id prop has assert_json_rpc_error_object
assert_json_rpc_response value = do
  require (has "id" value && is_json_rpc_id (prop "id" value))
      "JSON-RPC response id must be a string, number, or null"
  require (not (same (has "result" value) (has "error" value)))
      "JSON-RPC response must contain exactly one of result or error"
  if has "error" value then assert_json_rpc_error_object (prop "error" value) else ok tt

abbrev pub is_version : Json → Bool
is_version (str s) = str_eq s "2.0"
is_version _ = false

unfoldable pub assert_json_rpc_message : Json → Checked
unfolding prop has
assert_json_rpc_message (obj value) = do
  require (is_version (prop "jsonrpc" value)) "expected a JSON-RPC 2.0 object with jsonrpc: \"2.0\""
  if has "method" value then assert_json_rpc_request value else assert_json_rpc_response value
assert_json_rpc_message _ = err "expected a JSON-RPC 2.0 object with jsonrpc: \"2.0\""
