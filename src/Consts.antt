-- ===== src/Consts.antt =====
-- shared/consts.ts: the protocol's sizes, and `Status`, which is a number as a TypeScript enum is.
use diplomatic.Base.{ℕ}

abbrev pub sig_bytes : ℕ
sig_bytes = 64

abbrev pub hash_bytes : ℕ
hash_bytes = 32

abbrev pub pub_key_bytes : ℕ
pub_key_bytes = 32

abbrev pub kdm_bytes : ℕ
kdm_bytes = 8

abbrev pub hsh_bytes : ℕ
hsh_bytes = 32

abbrev pub clock_tolerance_ms : ℕ
clock_tolerance_ms = 30000

abbrev pub notif_inline_body_bytes_threshold : ℕ
notif_inline_body_bytes_threshold = 512

abbrev pub Status : Type 0
Status = ℕ

abbrev pub success : Status
success = 0

abbrev pub invalid_signature : Status
invalid_signature = 3

abbrev pub clock_out_of_sync : Status
clock_out_of_sync = 4

abbrev pub user_not_registered : Status
user_not_registered = 5

abbrev pub missing_body : Status
missing_body = 7

abbrev pub extra_body_content : Status
extra_body_content = 8

abbrev pub missing_param : Status
missing_param = 9

abbrev pub invalid_param : Status
invalid_param = 10

abbrev pub internal_error : Status
internal_error = 12

abbrev pub not_found : Status
not_found = 13

abbrev pub invalid_message : Status
invalid_message = 14

abbrev pub no_change : Status
no_change = 15

abbrev pub storage_error : Status
storage_error = 17

abbrev pub out_of_bounds : Status
out_of_bounds = 23

abbrev pub var_limit_exceeded : Status
var_limit_exceeded = 26

abbrev pub crypto_error : Status
crypto_error = 29

abbrev pub database_error : Status
database_error = 18

abbrev pub hash_mismatch : Status
hash_mismatch = 19

abbrev pub decryption_error : Status
decryption_error = 20
