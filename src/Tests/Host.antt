-- ===== src/Tests/Host.antt =====
-- The host at concrete requests.
use diplomatic.Wire.AuthTimestamp
use diplomatic.Base.{List, [], arith, concat, refl, some, true, ℕ, ◌++◌, ◌∷◌, ◌≡◌, ◌≤◌}
use diplomatic.Base.Int.{abs, pos, ◌-ℤ◌}
use diplomatic.Base.Keyed.{lookup}
use diplomatic.Codec.{Date, Decoder, new_encoder, result, time, write_date}
use diplomatic.Codec.Stream.{Writes-date, at}
use diplomatic.Codec.Structs.{RoundTrip}
use diplomatic.Consts.{clock_out_of_sync, clock_tolerance_ms}
use diplomatic.Exec.{err, ok}
use diplomatic.Host.Guard.{
  KeepsStorage, handle_peek-KeepsStorage, handlers_reject, validate_auth_sound,
}
use diplomatic.Host.Guard.Push.{StoresSigned, handle_push-StoresSigned}
use diplomatic.Host.Requests.{PeekCursor, peek_req-RoundTrip, peek_req_codec}
use diplomatic.Host.Server.{
  Call, HostCrypto, by_key, clock_off, handle_peek, handle_pull, handle_push, handle_user, signed,
  validate_auth, verify,
}
use diplomatic.Host.Storage.{SetBagResult, no_storage, or_empty, realm_of, set_bags}
use diplomatic.Host.Storage.Log.{IsLog, numbered, set_bags-IsLog}
use diplomatic.Host.Storage.Results.{FitAll, KeepsOthers, bags_of, set_bags_lem}
use diplomatic.Tests.{zeros}
use diplomatic.Tests.Wire.{small_auth, small_bag}
use diplomatic.Wire.AuthTimestamp.{AuthTimestamp, auth_timestamp_codec, auth_timestamp_laws}

-- Every key can be imported, and every signature is right.
abbrev pub trusting : HostCrypto ℕ
trusting = record { import_verify_key = λ key. some 0; check_sig = λ sig bytes key. true }

abbrev late : Date
late = time (pos 90000)

small_auth-IsWellFormed : AuthTimestamp.IsWellFormed small_auth
small_auth-IsWellFormed = record { pub_key = refl; sig = refl; timestamp = omega arith }

abbrev small_call : Call
small_call = record {
  dec = at [] (concat (AuthTimestamp.wire small_auth) ++ []);
  enc = new_encoder;
  storage = no_storage;
  pushed = [];
}

abbrev after_auth : Decoder
after_auth = at ([] ++ concat (AuthTimestamp.wire small_auth)) []

auth_read : auth_timestamp_codec.decode small_call.dec ≡ (ok small_auth, after_auth)
auth_read = (auth_timestamp_laws.reads small_auth small_auth-IsWellFormed).run [] []

too_late : validate_auth trusting late small_auth ≡ err clock_out_of_sync
unfolding validate_auth clock_off abs ◌-ℤ◌
too_late = refl

handlers_reject_example :
    (handle_user trusting late small_call
      ≡ (err clock_out_of_sync, record small_call { dec = after_auth }))
    × (handle_peek trusting late small_call
        ≡ (err clock_out_of_sync, record small_call { dec = after_auth }))
    × (handle_pull trusting late small_call
        ≡ (err clock_out_of_sync, record small_call { dec = after_auth }))
    × (handle_push trusting late small_call
        ≡ (err clock_out_of_sync, record small_call { dec = after_auth }))
handlers_reject_example =
    handlers_reject trusting late small_call small_auth clock_out_of_sync after_auth auth_read
      too_late

in_time : validate_auth trusting (time (pos 7)) small_auth ≡ ok tt
unfolding validate_auth clock_off abs ◌-ℤ◌ signed verify by_key
in_time = rw ((Writes-date (time (pos 5)) (omega arith)).run new_encoder) refl

validate_auth_sound_example :
    (abs (pos 7 -ℤ pos 5) ≤ clock_tolerance_ms)
    × ((key : ℕ) × (trusting.import_verify_key small_auth.pub_key ≡ some key)
        × (trusting.check_sig small_auth.sig
              (result (write_date small_auth.timestamp new_encoder).1)
              key
            ≡ true))
validate_auth_sound_example =
    validate_auth_sound trusting (time (pos 7)) small_auth (pos 7) (pos 5) refl refl in_time

handle_peek-KeepsStorage_example : KeepsStorage (handle_peek trusting late)
handle_peek-KeepsStorage_example = handle_peek-KeepsStorage trusting late

empty-IsLog : IsLog no_storage
unfolding realm_of or_empty lookup numbered
empty-IsLog key rlm = ([], refl)

set_bags-IsLog_example : IsLog (set_bags (zeros 32) (small_bag ∷ small_bag ∷ []) no_storage).1
set_bags-IsLog_example =
    set_bags-IsLog (zeros 32) (small_bag ∷ small_bag ∷ []) no_storage empty-IsLog

abbrev small_cursor : PeekCursor
small_cursor = record { rlm = zeros 32; seq = pos 4 }

peek_req-RoundTrip_example : RoundTrip peek_req_codec (small_auth, small_cursor)
peek_req-RoundTrip_example =
    peek_req-RoundTrip (small_auth, small_cursor)
      (small_auth-IsWellFormed, record { rlm = refl; seq = omega arith })

set_bags_lem_example :
    (rs : List SetBagResult) × ((set_bags (zeros 32) (small_bag ∷ small_bag ∷ []) no_storage).0
      ≡ ok rs)
    × FitAll
        (bags_of (zeros 32) no_storage)
        (bags_of (zeros 32) (set_bags (zeros 32) (small_bag ∷ small_bag ∷ []) no_storage).1)
        (small_bag ∷ small_bag ∷ [])
        rs
    × KeepsOthers
        (zeros 32)
        no_storage
        (set_bags (zeros 32) (small_bag ∷ small_bag ∷ []) no_storage).1
set_bags_lem_example =
    set_bags_lem (zeros 32) (small_bag ∷ small_bag ∷ []) no_storage (omega arith, (omega arith, tt))

handle_push-StoresSigned_example :
    StoresSigned trusting late small_call.storage (handle_push trusting late small_call).1.storage
handle_push-StoresSigned_example = handle_push-StoresSigned trusting late small_call
