-- ===== src/Host/Storage/Ends.antt =====
-- The calls of shared/storage/memory.ts come to an end.
use diplomatic.Base.{Bool-cases, List, [], inl, inr, length, refl, ℕ, ◌==◌, ◌∷◌, ◌≢◌}
use diplomatic.Base.Int.{ℤ}
use diplomatic.Base.Keyed.{bytes_key, nat_key}
use diplomatic.Codec.{Bytes, Encoder, new_encoder}
use diplomatic.Consts.{hash_bytes}
use diplomatic.Exec.{Done, ValStat, diverged, err, modify, ok, pure, query, thrown}
use diplomatic.Exec.Ends.{AnyState, Ends, Ends-bind, Ends-check, Ends-pure, Ends-alone}
use diplomatic.Host.Storage.{
  add_user, get_bodies, has_user, head_of_bag, list_heads, next_seq, put_back, set_bag, set_bags,
  set_each, store_bag, store_head,
}
use diplomatic.Wire.Bag.{Bag}
use diplomatic.Wire.PeekItemHead.{Ends-peek_item_head, peek_item_head_codec}

Ends-store_head :
    (r : ValStat Done × Encoder) (bag : Bag) (seq : ℕ)
    → r.0 ≢ diverged
    → Ends AnyState (store_head r bag seq)
unfolding store_head
Ends-store_head (ok x, enc) bag seq n = Ends-alone _ (λ b p. cc)
Ends-store_head (err s, enc) bag seq n = Ends-alone _ (λ b p. cc)
Ends-store_head (thrown, enc) bag seq n = Ends-alone _ (λ b p. cc)
Ends-store_head (diverged, enc) bag seq n = absurd (n refl)

Ends-set_bag : (bag : Bag) → Ends AnyState (set_bag bag)
unfolding set_bag store_bag pure
Ends-set_bag bag = elim (Bool-cases (length bag.rlm == hash_bytes)) [
  | inl e ↦ rw e (
      Ends-alone _ (λ b.
        ((Ends-store_head (peek_item_head_codec.encode (head_of_bag bag) new_encoder) bag
            (next_seq bag b) ((Ends-peek_item_head (head_of_bag bag)).run new_encoder tt).0).run
          _ tt).0))
  | inr e ↦ rw e (Ends-alone _ (λ b p. cc))
]

Ends-set_each : (bags : List Bag) → Ends AnyState (set_each bags)
unfolding set_each
Ends-set_each [] = Ends-pure []
Ends-set_each (bag ∷ bags) =
    Ends-bind _ _ (Ends-set_bag bag) (λ r. Ends-bind _ _ (Ends-set_each bags) (λ rs. Ends-pure _))

pub Ends-set_bags : (key : Bytes) (bags : List Bag) → Ends AnyState (set_bags key bags)
unfolding set_bags put_back
Ends-set_bags key [] = Ends-alone _ (λ s p. cc)
Ends-set_bags key (bag ∷ bags) = Ends-alone _ (λ s. ((Ends-set_each (bag ∷ bags)).run _ tt).0)

pub Ends-get_bodies : (key rlm : Bytes) (seqs : List ℤ) → Ends AnyState (get_bodies key rlm seqs)
unfolding get_bodies query
Ends-get_bodies key rlm seqs = Ends-bind _ _ (Ends-check _ _) (λ u. Ends-alone _ (λ s p. cc))

pub Ends-list_heads : (key rlm : Bytes) (seq : ℤ) → Ends AnyState (list_heads key rlm seq)
unfolding list_heads query
Ends-list_heads key rlm seq = Ends-bind _ _ (Ends-check _ _) (λ u. Ends-alone _ (λ s p. cc))

pub Ends-has_user : (key : Bytes) → Ends AnyState (has_user key)
unfolding has_user query
Ends-has_user key = Ends-alone _ (λ s p. cc)

pub Ends-add_user : (key : Bytes) → Ends AnyState (add_user key)
unfolding add_user modify
Ends-add_user key = Ends-alone _ (λ s p. cc)
