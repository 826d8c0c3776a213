-- ===== src/Deployment/Http.antt =====
-- clients/sglang_http.py: what the server of a deployment answers. `urlopen` and `json.loads` are
-- parameters.
use Prim.Native.Char.{char}
use sglang_ops_stack.Base.{
  ℕ, String, ◌<>◌, Bool, false, ◌&&◌, [], ◌∷◌, Option, none, some, leb, ltb, if◌then◌else◌,
}
use sglang_ops_stack.Base.Text.{is_empty, rstrip_char}
use sglang_ops_stack.Db.Results.{JsonObject, JsonValue}

-- What `urlopen` and the reading of the body come to; a text is the `str` of the exception.
pub data Fetched : Type 0 where
  answered : (status : ℕ) → (body : String) → Fetched
  http_error : (code : ℕ) → String → Fetched
  url_error : (reason : String) → Fetched
  timed_out : String → Fetched
  raised : String → Fetched

-- What `json.loads` comes to.
pub data Loaded : Type 0 where
  object : JsonObject → Loaded
  value : JsonValue → Loaded
  not_json : Loaded

pub record SglangHttpResponse : Type 0 where
  pub ok : Bool
  pub status_code : Option ℕ
  pub payload : Option JsonObject
  pub error : Option String

abbrev loaded_payload : Loaded → String → JsonObject
loaded_payload (object items) body = items
loaded_payload (value v) body = ("value", v) ∷ []
loaded_payload not_json body = ("text", JsonValue.text body) ∷ []

module _ (loads : String → Loaded) where
  -- `none` where an exception passes through that no clause names.
  unfoldable pub read_response : Fetched → Option SglangHttpResponse
  read_response (answered status body) = some (record {
    ok = leb 200 status && ltb status 300;
    status_code = some status;
    payload = some (if is_empty body then [] else loaded_payload (loads body) body);
    error = none;
  })
  read_response (http_error code message) =
      some (record { ok = false; status_code = some code; payload = none; error = some message })
  read_response (url_error reason) =
      some (record { ok = false; status_code = none; payload = none; error = some reason })
  read_response (timed_out message) =
      some (record { ok = false; status_code = none; payload = none; error = some message })
  read_response (raised message) = none

-- `SGLangHTTPClient(base_url)`, and the address of a request
unfoldable pub request_url : String → String → String
request_url base_url path = rstrip_char (char 47 tt) base_url <> path
