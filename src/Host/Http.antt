-- ===== src/Host/Http.antt =====
-- shared/http/server.ts and errResp and binResp of shared/http.ts: the response around each call.
-- The URL of a request is parsed by the platform; `path` is its pathname.
pub mod Answers
pub mod Handled
pub mod Ends
use diplomatic.Base.{List, Option, [], if◌then◌else◌, none, some, ◌==◌, ◌∷◌}
use diplomatic.Base.Keyed.{bytes_same}
use diplomatic.Codec.{Bytes, Date, Encoder, decoder, new_encoder, prepend_bytes, result}
use diplomatic.Consts.{Status, internal_error, missing_body, not_found, success}
use diplomatic.Exec.{Done, Exec, ValStat, diverged, err, lift, ok, thrown}
use diplomatic.Host.Server.{Call, HostCrypto, handle_peek, handle_pull, handle_push, handle_user}
use diplomatic.Host.Storage.{Storage}
use diplomatic.Text.{Str}
use diplomatic.Wire.RespHead.{RespHead, null_sub_meta, resp_head_codec}

-- The body is missing where the platform gives null.
pub record Request : Type 0 where
  pub method : Str
  pub path : Str
  pub body : Option Bytes

-- A response with status 200 and a body of bytes, or one with status 500 and no body.
pub data Response : Type 0 where
  binary : Bytes → Response
  server_error : Response

-- What `clock.now()` gives: when the request came, in the check of the signed timestamp, for the head
-- in front of the handler's output, for a head that stands alone, and behind an exception.
pub record Times : Type 0 where
  pub rcvd : Date
  pub auth : Date
  pub head : Date
  pub sent : Date
  pub caught : Date

-- What the calls change of the host.
pub record HostState : Type 0 where
  pub storage : Storage
  pub pushed : List (Bytes × Bytes)

-- "POST"
abbrev pub post : Str
post = 80 ∷ 79 ∷ 83 ∷ 84 ∷ []

-- The entries of `callPaths`.
pub data ApiCall : Type 0 where
  user_call : ApiCall
  push_call : ApiCall
  peek_call : ApiCall
  pull_call : ApiCall

-- "/user", "/push", "/peek" and "/pull"
abbrev pub path_of : ApiCall → Str
path_of user_call = 47 ∷ 117 ∷ 115 ∷ 101 ∷ 114 ∷ []
path_of push_call = 47 ∷ 112 ∷ 117 ∷ 115 ∷ 104 ∷ []
path_of peek_call = 47 ∷ 112 ∷ 101 ∷ 101 ∷ 107 ∷ []
path_of pull_call = 47 ∷ 112 ∷ 117 ∷ 108 ∷ 108 ∷ []

unfoldable pub endpoint_at : Str → Option ApiCall
endpoint_at path =
    if bytes_same path (path_of user_call)
    then some user_call
    else if bytes_same path (path_of push_call)
    then some push_call
    else if bytes_same path (path_of peek_call)
    then some peek_call
    else if bytes_same path (path_of pull_call)
    then some pull_call
    else none

abbrev pub head_at : Status → Date → Date → RespHead
head_at status rcvd sent = record {
  status = status;
  time_rcvd = rcvd;
  time_sent = sent;
  subscription = null_sub_meta;
}

-- `binResp`, and status 500 where the head cannot be encoded.
bin_resp : ValStat Done × Encoder → ValStat Response
bin_resp (ok _, enc) = ok (binary (result enc))
bin_resp (err s, enc) = ok server_error
bin_resp (thrown, enc) = thrown
bin_resp (diverged, enc) = diverged

pub err_resp : RespHead → ValStat Response
err_resp head = bin_resp (resp_head_codec.encode head new_encoder)

failed_resp : Times → ValStat Response
failed_resp times = err_resp (head_at internal_error times.rcvd times.caught)

-- `catch`
recover : Times → ValStat Response → ValStat Response
recover times thrown = failed_resp times
recover times r = r

-- The part of the handler that is in `try`, behind the encoding of the head.
with_head : Times → Status → Encoder → ValStat Done × Encoder → ValStat Response
with_head times status enc (ok _, enc_head) =
    if status == success
    then ok (binary (result (prepend_bytes (result enc_head) enc).1))
    else recover times (err_resp (head_at status times.rcvd times.sent))
with_head times status enc (err s, enc_head) = ok server_error
with_head times status enc (thrown, enc_head) = failed_resp times
with_head times status enc (diverged, enc_head) = diverged

answer : Times → Status → Encoder → ValStat Response
answer times status enc =
    with_head times status enc
      (resp_head_codec.encode (head_at status times.rcvd times.head) new_encoder)

-- The response for the status that the call ends with; an exception is caught.
pub respond : Times → ValStat Done → Encoder → ValStat Response
respond times (ok _) enc = answer times success enc
respond times (err s) enc = answer times s enc
respond times thrown enc = failed_resp times
respond times diverged enc = diverged

module _ {VerifyKey : Type 0} (crypto : HostCrypto VerifyKey) where
  -- `endpoint.handleReq`
  unfoldable pub handle_req : ApiCall → Date → Exec Call Done
  handle_req user_call now = handle_user crypto now
  handle_req push_call now = handle_push crypto now
  handle_req peek_call now = handle_peek crypto now
  handle_req pull_call now = handle_pull crypto now

  abbrev pub call_on : Bytes → HostState → Call
  call_on body s = record {
    dec = decoder body;
    enc = new_encoder;
    storage = s.storage;
    pushed = s.pushed;
  }

  abbrev responded : Times → ValStat Done × Call → ValStat Response × HostState
  responded times (r, c) =
      (respond times r c.enc, record { storage = c.storage; pushed = c.pushed })

  refuse : Times → Status → Exec HostState Response
  refuse times status = lift (err_resp (head_at status times.rcvd times.sent))

  run_endpoint : Times → Bytes → Option ApiCall → Exec HostState Response
  run_endpoint times body none s = refuse times not_found s
  run_endpoint times body (some call) s =
      responded times (handle_req call times.auth (call_on body s))

  run_body : Times → Str → Option Bytes → Exec HostState Response
  run_body times path none = refuse times missing_body
  run_body times path (some body) = run_endpoint times body (endpoint_at path)

  -- `DiplomaticHTTPServer.handler`
  pub handler : Times → Request → Exec HostState Response
  handler times req =
      if bytes_same req.method post
      then run_body times req.path req.body
      else refuse times not_found
