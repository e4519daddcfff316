-- ===== src/Wire/IdentityHosts.antt =====
-- shared/codecs/identityBundle.ts: the hosts behind a master seed.
use diplomatic.Base.{List, length, not}
use diplomatic.Base.Int.{ltb_ℤ, pos, pos_part}
use diplomatic.Codec.{Codec, Read, Write, read_var_int, write_structs, write_var_int}
use diplomatic.Codec.Bounds.{
  Advances, Advances-bind, Advances-var_int, Bounded-bind, Bounded-check, Bounded-pure,
}
use diplomatic.Codec.Strings.{Bounded-times, read_times}
use diplomatic.Consts.{invalid_param}
use diplomatic.Exec.{check, pure, ◌>>=◌, ◌>>◌}
use diplomatic.Wire.BundleHost.{Advances-bundle_host, BundleHost, bundle_host_codec}

pub record IdentityHosts : Type 0 where
  pub hosts : List BundleHost

pub encode : IdentityHosts → Write
encode b = do write_var_int (pos (length b.hosts)); write_structs bundle_host_codec b.hosts

pub decode : Read IdentityHosts
decode = do
  n ← read_var_int
  check (not (ltb_ℤ n (pos 0))) invalid_param
  hosts ← read_times (pos_part n) bundle_host_codec.decode
  pure (record { hosts = hosts })

abbrev pub identity_hosts_codec : Codec IdentityHosts
identity_hosts_codec = record { encode = encode; decode = decode }

-- A count that the input cannot hold does not keep the loop from ending.
pub Advances-identity_hosts : Advances identity_hosts_codec.decode
unfolding decode
Advances-identity_hosts = Advances-bind _ _ Advances-var_int λ n.
    Bounded-bind _ _ (Bounded-check _ _) λ u.
      Bounded-bind _ _ (Bounded-times (pos_part n) _ Advances-bundle_host.inside)
        λ hosts. Bounded-pure _
