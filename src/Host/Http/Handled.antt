-- ===== src/Host/Http/Handled.antt =====
-- `handler` of shared/http/server.ts on every request.
use diplomatic.Base.{Bool-cases, Option, [], arith, false, inl, inr, none, refl, some, true, ◌≡◌}
use diplomatic.Base.Keyed.{bytes_same}
use diplomatic.Codec.{Bytes, result}
use diplomatic.Consts.{missing_body, not_found}
use diplomatic.Exec.{Done, ValStat, lift}
use diplomatic.Exec.Ends.{Ends}
use diplomatic.Host.Http.{
  ApiCall, HostState, Request, Response, Times, call_on, endpoint_at, handle_req, handler,
  peek_call, post, pull_call, push_call, refuse, run_body, run_endpoint, user_call,
}
use diplomatic.Host.Http.Answers.{Answers-err_resp, respond-IsAnswer, Answers, IsAnswer, Ticks}
use diplomatic.Host.Http.Ends.{
  Ends-handle_peek, Ends-handle_pull, Ends-handle_push, Ends-handle_user, InInput,
}
use diplomatic.Host.Server.{Call, HostCrypto}

module _ {VerifyKey : Type 0} (crypto : HostCrypto VerifyKey) (times : Times) where
  -- The response, and what changes of the host.
  pub data IsHandled (req : Request) (s : HostState) : ValStat Response × HostState → Type 0 where
    not_post :
        (r : ValStat Response)
        → bytes_same req.method post ≡ false
        → Answers not_found times.rcvd times.sent [] r
        → IsHandled req s (r, s)
    no_body_sent :
        (r : ValStat Response)
        → bytes_same req.method post ≡ true
        → req.body ≡ none
        → Answers missing_body times.rcvd times.sent [] r
        → IsHandled req s (r, s)
    no_endpoint :
        (r : ValStat Response) (body : Bytes)
        → bytes_same req.method post ≡ true
        → req.body ≡ some body
        → endpoint_at req.path ≡ none
        → Answers not_found times.rcvd times.sent [] r
        → IsHandled req s (r, s)
    handled :
        (call : ApiCall) (r : ValStat Response) (body : Bytes) (ended : ValStat Done) (c : Call)
        → bytes_same req.method post ≡ true
        → req.body ≡ some body
        → endpoint_at req.path ≡ some call
        → handle_req crypto call times.auth (call_on crypto body s) ≡ (ended, c)
        → IsAnswer times (result c.enc) ended r
        → IsHandled req s (r, record { storage = c.storage; pushed = c.pushed })

  Ends-handle_req : (call : ApiCall) → Ends InInput (handle_req crypto call times.auth)
  unfolding handle_req
  Ends-handle_req user_call = Ends-handle_user crypto times.auth
  Ends-handle_req push_call = Ends-handle_push crypto times.auth
  Ends-handle_req peek_call = Ends-handle_peek crypto times.auth
  Ends-handle_req pull_call = Ends-handle_pull crypto times.auth

  run_endpoint-IsHandled :
      (k : Ticks times) (req : Request) (s : HostState) (body : Bytes) (call : Option ApiCall)
      → bytes_same req.method post ≡ true
      → req.body ≡ some body
      → endpoint_at req.path ≡ call
      → IsHandled req s (run_endpoint crypto times body call s)
  unfolding run_endpoint refuse lift
  run_endpoint-IsHandled k req s body none m b e =
      no_endpoint _ body m b e (Answers-err_resp not_found times.rcvd times.sent k.rcvd k.sent)
  run_endpoint-IsHandled k req s body (some call) m b e = handled call _ body _ _ m b e refl (
      respond-IsAnswer times _ _ k
        ((Ends-handle_req call).run (call_on crypto body s) (omega arith)).0)

  run_body-IsHandled :
      (k : Ticks times) (req : Request) (s : HostState) (body : Option Bytes)
      → bytes_same req.method post ≡ true
      → req.body ≡ body
      → IsHandled req s (run_body crypto times req.path body s)
  unfolding run_body refuse lift
  run_body-IsHandled k req s none m b =
      no_body_sent _ m b (Answers-err_resp missing_body times.rcvd times.sent k.rcvd k.sent)
  run_body-IsHandled k req s (some body) m b =
      run_endpoint-IsHandled k req s body (endpoint_at req.path) m b refl

  -- Every request has a response that a client can read: a head with the status, when the request came
  -- and when the head was made, and behind it the output of the call where that succeeded, and nothing
  -- otherwise. The status is NotFound for a request that is no POST or has an unknown path, MissingBody
  -- for one without a body, InternalError for a call that throws, and else that of the call, which
  -- always comes to an end. Only the call changes the host. The clock is to give dates that can be
  -- written.
  pub handler-IsHandled :
      (k : Ticks times) (req : Request) (s : HostState)
      → IsHandled req s (handler crypto times req s)
  unfolding handler refuse lift
  handler-IsHandled k req s = elim (Bool-cases (bytes_same req.method post)) [
    | inl e ↦ rw e (run_body-IsHandled k req s req.body e refl)
    | inr e ↦ rw e (not_post _ e (Answers-err_resp not_found times.rcvd times.sent k.rcvd k.sent))
  ]
