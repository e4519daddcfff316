-- ===== src/Host/Requests/Bounds.antt =====
-- The request codecs of shared/api stay in the input and come to an end.
use diplomatic.Codec.Bounds.{
  Advances-var_int, Bounded, Bounded-bind, Bounded-bytes, Bounded-lift, Bounded-pure,
  Bounded-var_int,
}
use diplomatic.Codec.Loops.{Bounded-until}
use diplomatic.Host.Requests.{
  peek_cursor_codec, pull_req_codec, read_cursor, read_pull_req, read_seqs,
}
use diplomatic.Wire.Bag.{as_host_rlm-ne-diverged}

pub Bounded-cursor : Bounded peek_cursor_codec.decode
unfolding read_cursor
Bounded-cursor = Bounded-bind _ _ (Bounded-bytes _) (λ raw.
    Bounded-bind _ _ (Bounded-lift _ (as_host_rlm-ne-diverged raw))
      (λ rlm. Bounded-bind _ _ Bounded-var_int (λ seq. Bounded-pure _)))

pub Bounded-pull_req : Bounded pull_req_codec.decode
unfolding read_pull_req read_seqs
Bounded-pull_req = Bounded-bind _ _ (Bounded-bytes _) (λ raw.
    Bounded-bind _ _ (Bounded-lift _ (as_host_rlm-ne-diverged raw))
      (λ rlm. Bounded-bind _ _ (Bounded-until Advances-var_int) (λ seqs. Bounded-pure _)))
