-- ===== src/Wire/Kdm.antt =====
-- shared/codecs/kdm.ts: key derivation material, a label and an index.
use diplomatic.Base.{List, [], length, ◌∷◌}
use diplomatic.Base.Int.{pos, ℤ}
use diplomatic.Codec.{Bytes, Codec, Read, Write, read_var_int, write_var_int}
use diplomatic.Codec.Bounds.{Advances, Advances-bind, Bounded-bind, Bounded-pure, Bounded-var_int}
use diplomatic.Codec.Septets.{var_int_wire}
use diplomatic.Codec.Stream.{
  IsSafe, Reads-bind, Reads-int, Reads-pure, Writes-int, Writes-pure, Writes-then, int_wire,
}
use diplomatic.Codec.Strings.{
  Advances-var_string, IsShort, Reads-var_string-then, Writes-var_string, read_var_string,
  write_var_string,
}
use diplomatic.Codec.Structs.{IsLawful}
use diplomatic.Exec.{pure, ◌>>=◌, ◌>>◌}
use diplomatic.Text.{Str, utf8_encode}

pub record Kdm : Type 0 where
  pub label : Str
  pub index : ℤ

-- `nullKDM` of shared/crypto/derivation.ts.
abbrev pub null_kdm : Kdm
null_kdm = record { label = []; index = pos 0 }

pub encode : Kdm → Write
encode kdm = do write_var_string kdm.label; write_var_int kdm.index; pure tt

pub decode : Read Kdm
decode = do
  label ← read_var_string
  index ← read_var_int
  pure (record { label = label; index = index })

abbrev pub kdm_codec : Codec Kdm
kdm_codec = record { encode = encode; decode = decode }

pub record IsWellFormed (kdm : Kdm) : Type 0 where
  pub label : IsShort kdm.label
  pub index : IsSafe kdm.index

abbrev pub wire : Kdm → List Bytes
wire kdm =
    var_int_wire (length (utf8_encode kdm.label)) ∷ utf8_encode kdm.label ∷ int_wire kdm.index ∷ []

pub kdm_laws : IsLawful kdm_codec IsWellFormed wire
unfolding encode decode
kdm_laws = record {
  writes = λ kdm h.
      Writes-then (Writes-var_string kdm.label h.label)
        (Writes-then (Writes-int kdm.index h.index) Writes-pure);
  reads = λ kdm h.
      Reads-var_string-then _ kdm.label h.label
        (Reads-bind _ (Reads-int kdm.index h.index) (Reads-pure _));
}

pub Advances-kdm : Advances kdm_codec.decode
unfolding decode
Advances-kdm =
    Advances-bind _ _ Advances-var_string
      (λ l. Bounded-bind _ _ Bounded-var_int (λ i. Bounded-pure _))
