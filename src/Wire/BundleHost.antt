-- ===== src/Wire/BundleHost.antt =====
-- shared/codecs/bundleHost.ts: a host in an identity bundle. A missing idx is written as 0.
use diplomatic.Base.{List, Option, [], ap, length, none, some, sym, ◌∷◌, ◌≡◌}
use diplomatic.Base.Int.{pos, ℤ}
use diplomatic.Codec.{Bytes, Codec, Read, Write, read_var_int, write_var_int}
use diplomatic.Codec.Bounds.{Advances, Advances-bind, Bounded-bind, Bounded-pure, Bounded-var_int}
use diplomatic.Codec.Septets.{var_int_wire}
use diplomatic.Codec.Stream.{
  IsSafe, Reads, Reads-bind, Reads-int, Reads-pure, Writes-int, Writes-then, int_wire,
}
use diplomatic.Codec.Strings.{
  Advances-var_string, IsShort, Reads-var_string-then, Writes-var_string, read_var_string,
  write_var_string,
}
use diplomatic.Codec.Structs.{IsLawful, RoundTrip, round_trip}
use diplomatic.Exec.{pure, ◌>>=◌, ◌>>◌}
use diplomatic.Text.{Str, utf8_encode}
use mathlib.Core.Path.{subst}

pub record BundleHost : Type 0 where
  pub handle : Str
  pub label : Str
  pub idx : Option ℤ

abbrev pub idx_of : Option ℤ → ℤ
idx_of none = pos 0
idx_of (some idx) = idx

pub encode : BundleHost → Write
encode h = do write_var_string h.handle; write_var_string h.label; write_var_int (idx_of h.idx)

pub decode : Read BundleHost
decode = do
  handle ← read_var_string
  label ← read_var_string
  idx ← read_var_int
  pure (record { handle = handle; label = label; idx = some idx })

abbrev pub bundle_host_codec : Codec BundleHost
bundle_host_codec = record { encode = encode; decode = decode }

pub record IsWellFormed (h : BundleHost) : Type 0 where
  pub handle : IsShort h.handle
  pub label : IsShort h.label
  pub idx : IsSafe (idx_of h.idx)
  pub present : h.idx ≡ some (idx_of h.idx)

abbrev pub wire : BundleHost → List Bytes
wire h =
    var_int_wire (length (utf8_encode h.handle))
    ∷ utf8_encode h.handle
    ∷ var_int_wire (length (utf8_encode h.label))
    ∷ utf8_encode h.label
    ∷ int_wire (idx_of h.idx)
    ∷ []

pub bundle_host_laws : IsLawful bundle_host_codec IsWellFormed wire
unfolding encode decode
bundle_host_laws = record {
  writes = λ b h.
      Writes-then (Writes-var_string b.handle h.handle)
        (Writes-then (Writes-var_string b.label h.label) (Writes-int (idx_of b.idx) h.idx));
  reads = λ b h.
      let same : Path BundleHost (record b { idx = some (idx_of b.idx) }) b =
        ap (λ (i : Option ℤ). record b { idx = i }) (sym h.present) in
      Reads-var_string-then _ b.handle h.handle (
        Reads-var_string-then _ b.label h.label (
          Reads-bind _ (Reads-int (idx_of b.idx) h.idx) (
            subst (λ (t : BundleHost). Reads (pure (record b { idx = some (idx_of b.idx) })) [] t)
              same (Reads-pure _))));
}

pub Advances-bundle_host : Advances bundle_host_codec.decode
unfolding decode
Advances-bundle_host = Advances-bind _ _ Advances-var_string λ handle.
    Bounded-bind _ _ Advances-var_string.inside
      λ label. Bounded-bind _ _ Bounded-var_int (λ idx. Bounded-pure _)

-- A host row whose index is present comes back as written.
pub bundle_host-RoundTrip : (b : BundleHost) → IsWellFormed b → RoundTrip bundle_host_codec b
bundle_host-RoundTrip b h = round_trip bundle_host_laws b h
