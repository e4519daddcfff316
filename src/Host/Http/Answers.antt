-- ===== src/Host/Http/Answers.antt =====
-- What a client reads in the response of `handler` of shared/http/server.ts.
use diplomatic.Wire.RespHead
use diplomatic.Base.{
  ==_iff, Bool-cases, [], ap, append-nil, arith, false, if◌then◌else◌, inl, inr, refl, sym, ◌%◌,
  ◌++◌, ◌<◌, ◌==◌, ◌∙◌, ◌≡◌, ◌≢◌,
}
use diplomatic.Codec.{Bytes, Date, Encoder, Write, decoder, new_encoder, prepend_bytes, result}
use diplomatic.Codec.Stream.{IsTime, at}
use diplomatic.Codec.Structs.{encoding, result-prepend_bytes, round_trip}
use diplomatic.Consts.{Status, internal_error, success}
use diplomatic.Exec.{Done, ValStat, diverged, err, ok, thrown}
use diplomatic.Host.Http.{
  Response, Times, answer, bin_resp, binary, err_resp, failed_resp, head_at, recover, respond,
  with_head,
}
use diplomatic.Wire.RespHead.{RespHead, encode-byte, resp_head_codec, resp_head_laws}
use mathlib.Core.Path.{subst}

-- The response has a body: a head with the status and the two times, and the bytes behind it.
pub record Answers (status : Status) (rcvd sent : Date) (rest : Bytes) (r : ValStat Response)
    : Type 0 where
  pub front : Bytes
  pub sent_as : r ≡ ok (binary (front ++ rest))
  pub head_read :
      resp_head_codec.decode (decoder (front ++ rest))
      ≡ (ok (head_at status rcvd sent), at front rest)

-- A status travels as one byte.
abbrev pub byte_of : Status → Status
byte_of s = s % 256

-- The response for each outcome of a call whose output is `out`.
pub data IsAnswer (times : Times) (out : Bytes) : ValStat Done → ValStat Response → Type 0 where
  succeeded :
      (r : ValStat Response)
      → Answers success times.rcvd times.head out r
      → IsAnswer times out (ok tt) r
  failed_with :
      (s : Status) (r : ValStat Response)
      → (s == success) ≡ false
      → Answers (byte_of s) times.rcvd times.sent [] r
      → IsAnswer times out (err s) r
  status_zero :
      (r : ValStat Response)
      → Answers success times.rcvd times.head out r
      → IsAnswer times out (err success) r
  crashed :
      (r : ValStat Response)
      → Answers internal_error times.rcvd times.caught [] r
      → IsAnswer times out thrown r

-- The clock gives dates that can be written.
pub record Ticks (times : Times) : Type 0 where
  pub rcvd : IsTime times.rcvd
  pub head : IsTime times.head
  pub sent : IsTime times.sent
  pub caught : IsTime times.caught

head_at-IsWellFormed :
    (s : Status) (rcvd sent : Date)
    → s < 256
    → IsTime rcvd
    → IsTime sent
    → RespHead.IsWellFormed (head_at s rcvd sent)
head_at-IsWellFormed s rcvd sent b r t = record {
  status = b;
  time_rcvd = r;
  time_sent = t;
  term = omega arith;
  elapsed = omega arith;
  stat = (omega arith, refl);
  dyn = (omega arith, refl);
}

bin_resp_ok : (r : ValStat Done × Encoder) → r.0 ≡ ok tt → bin_resp r ≡ ok (binary (result r.1))
unfolding bin_resp
bin_resp_ok (ok x, enc) e = refl
bin_resp_ok (err s, enc) e = cc
bin_resp_ok (thrown, enc) e = cc
bin_resp_ok (diverged, enc) e = cc

-- The bytes of a head whose status is cut to a byte, and what is read of them.
head_wire :
    (s : Status) (rcvd sent : Date)
    → IsTime rcvd
    → IsTime sent
    → ((resp_head_codec.encode (head_at s rcvd sent) new_encoder).0 ≡ ok tt)
      × (encoding resp_head_codec (head_at s rcvd sent)
          ≡ encoding resp_head_codec (head_at (byte_of s) rcvd sent))
      × ((pre rest : Bytes)
          → resp_head_codec.decode
              (at pre (encoding resp_head_codec (head_at (byte_of s) rcvd sent) ++ rest))
            ≡ (
              ok (head_at (byte_of s) rcvd sent),
              at (pre ++ encoding resp_head_codec (head_at (byte_of s) rcvd sent)) rest,
            ))
head_wire s rcvd sent r t =
    let (w, reads) =
      round_trip resp_head_laws (head_at (byte_of s) rcvd sent)
        (head_at-IsWellFormed (byte_of s) rcvd sent (omega arith) r t) in
    let same = encode-byte (head_at s rcvd sent) in
    (
      ap (λ (m : Write). (m new_encoder).0) same ∙ w,
      ap (λ (m : Write). result (m new_encoder).1) same,
      reads,
    )

pub Answers-err_resp :
    (s : Status) (rcvd sent : Date)
    → IsTime rcvd
    → IsTime sent
    → Answers (byte_of s) rcvd sent [] (err_resp (head_at s rcvd sent))
unfolding err_resp
Answers-err_resp s rcvd sent r t =
    let (w, same, reads) = head_wire s rcvd sent r t in
    record {
      front = encoding resp_head_codec (head_at (byte_of s) rcvd sent);
      sent_as = bin_resp_ok _ w ∙ ap (λ b. ok (binary b)) (same ∙ sym (append-nil _));
      head_read = reads [] [];
    }

with_head_ok :
    (times : Times) (s : Status) (enc : Encoder) (r : ValStat Done × Encoder)
    → r.0 ≡ ok tt
    → with_head times s enc r ≡ (
        if s == success
        then ok (binary (result (prepend_bytes (result r.1) enc).1))
        else recover times (err_resp (head_at s times.rcvd times.sent)))
unfolding with_head
with_head_ok times s enc (ok x, e) p = refl
with_head_ok times s enc (err x, e) p = cc
with_head_ok times s enc (thrown, e) p = cc
with_head_ok times s enc (diverged, e) p = cc

-- Behind a head that was sent comes the output of the call.
Answers-answer :
    (times : Times) (enc : Encoder)
    → Ticks times
    → Answers success times.rcvd times.head (result enc) (answer times success enc)
unfolding answer
Answers-answer times enc k =
    let (w, same, reads) = head_wire success times.rcvd times.head k.rcvd k.head in
    record {
      front = encoding resp_head_codec (head_at success times.rcvd times.head);
      sent_as =
          with_head_ok times success enc _ w ∙ ap (λ b. ok (binary b)) (result-prepend_bytes _ enc);
      head_read = reads [] (result enc);
    }

recovered :
    (times : Times) (r : ValStat Response) (status : Status) (rcvd sent : Date) (rest : Bytes)
    → Answers status rcvd sent rest r
    → Answers status rcvd sent rest (recover times r)
unfolding recover
recovered times (ok x) status rcvd sent rest a = a
recovered times (err x) status rcvd sent rest a = a
recovered times thrown status rcvd sent rest a = absurd (not_ok a.sent_as)
  where
    not_ok : {b : Response} → thrown ≡ ok b → ⊥
    not_ok e = cc
recovered times diverged status rcvd sent rest a = a

pub respond-IsAnswer :
    (times : Times) (r : ValStat Done) (enc : Encoder)
    → Ticks times
    → r ≢ diverged
    → IsAnswer times (result enc) r (respond times r enc)
unfolding respond failed_resp answer
respond-IsAnswer times (ok x) enc k n = succeeded _ (Answers-answer times enc k)
respond-IsAnswer times (err s) enc k n = elim (Bool-cases (s == success)) [
  | inl e ↦
      subst (λ z. IsAnswer times (result enc) (err z) (answer times z enc))
        (sym ((==_iff s success).0 e)) (status_zero _ (Answers-answer times enc k))
  | inr e ↦ failed_with s _ e (
      subst (Answers (byte_of s) times.rcvd times.sent [])
        (sym (
          with_head_ok times s enc _ (head_wire s times.rcvd times.head k.rcvd k.head).0
          ∙ rw e refl))
        (recovered times _ (byte_of s) times.rcvd times.sent []
          (Answers-err_resp s times.rcvd times.sent k.rcvd k.sent)))
]
respond-IsAnswer times thrown enc k n =
    crashed _ (Answers-err_resp internal_error times.rcvd times.caught k.rcvd k.caught)
respond-IsAnswer times diverged enc k n = absurd (n refl)
