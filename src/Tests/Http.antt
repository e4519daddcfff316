-- ===== src/Tests/Http.antt =====
-- The response of the host at a concrete request.
use diplomatic.Base.{[], arith, some}
use diplomatic.Base.Int.{pos}
use diplomatic.Codec.{time}
use diplomatic.Host.Http.{HostState, Request, Times, handler, path_of, post, user_call}
use diplomatic.Host.Http.Handled.{IsHandled, handler-IsHandled}
use diplomatic.Host.Storage.{no_storage}
use diplomatic.Tests.Host.{trusting}

abbrev clock_times : Times
clock_times = record {
  rcvd = time (pos 5);
  auth = time (pos 5);
  head = time (pos 6);
  sent = time (pos 7);
  caught = time (pos 8);
}

-- A POST of an empty body to "/user", on a host without users.
abbrev user_req : Request
user_req = record { method = post; path = path_of user_call; body = some [] }

abbrev fresh_host : HostState
fresh_host = record { storage = no_storage; pushed = [] }

handler-IsHandled_example :
    IsHandled trusting clock_times user_req fresh_host
      (handler trusting clock_times user_req fresh_host)
handler-IsHandled_example =
    handler-IsHandled trusting clock_times
      (record { rcvd = omega arith; head = omega arith; sent = omega arith; caught = omega arith })
      user_req fresh_host
