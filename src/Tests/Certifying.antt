-- ===== src/Tests/Certifying.antt =====
-- Runs of src/ca.rs.
use hexbuffer_proxy.Prelude.{◌≡◌, refl, [], ◌∷◌, none, ok}
use hexbuffer_proxy.Text.{Str, Bytes, codes}
use hexbuffer_proxy.Ca.Tools.{Machine}
use hexbuffer_proxy.Ca.Store.{
  CertificationAuthority, build_ca_params, new_in, make_ca, write_file, ca_key_pem, ca_pem,
}
use hexbuffer_proxy.Ca.Forge.{forge_certificate, forge_new, issue}
use hexbuffer_proxy.Dict.{lookup, insert}
use hexbuffer_proxy.Ca.Again.{then_call, no_more, forge_certificate_again}
use hexbuffer_proxy.Ca.Cache.{new_in_restart, CacheIsIssued, Forges, forge_certificate-Forges}
use hexbuffer_proxy.Tests.Instances.{tools, machine}

abbrev root_pem : Str
root_pem = 7 ∷ codes "Hexbuffer Proxy CA"

abbrev pub authority : CertificationAuthority tools
authority = record {
  ca_params = build_ca_params;
  ca_key = 7;
  ca_cert_pem = root_pem;
  cert_cache = [];
}

-- Behind the first start.
abbrev pub started : Machine
started = record machine {
  file =
      write_file (codes "cert") ca_key_pem (7 ∷ [])
        (write_file (codes "cert") ca_pem root_pem (λ d n. none));
  draws = 8;
}

abbrev pub host : Str
host = codes "a.example"

abbrev pub pair : Bytes × Bytes
pair = (8 ∷ 7 ∷ host, 8 ∷ [])

abbrev pub with_pair : CertificationAuthority tools
with_pair = record authority { cert_cache = (host, pair) ∷ [] }

first_start : new_in tools (codes "cert") machine ≡ ok (authority, started)
unfolding new_in make_ca build_ca_params
first_start = refl

new_in_restart_example : new_in tools (codes "cert") started ≡ ok (authority, started)
new_in_restart_example = new_in_restart tools (codes "cert") machine first_start

pub forged :
    forge_certificate tools authority host started
    ≡ ok (pair, with_pair, record started { draws = 9 })
unfolding forge_certificate lookup forge_new issue insert
forged = refl

-- A call for another host.
abbrev with_both : CertificationAuthority tools
with_both = record with_pair {
  cert_cache = (host, pair) ∷ (codes "b.example", (9 ∷ 7 ∷ codes "b.example", 9 ∷ [])) ∷ [];
}

other_forged :
    forge_certificate tools with_pair (codes "b.example") (record started { draws = 9 })
    ≡ ok ((9 ∷ 7 ∷ codes "b.example", 9 ∷ []), with_both, record started { draws = 10 })
unfolding forge_certificate lookup forge_new issue insert
other_forged = refl

forge_certificate_again_example :
    forge_certificate tools with_both host machine ≡ ok (pair, with_both, machine)
forge_certificate_again_example =
    forge_certificate_again tools authority with_pair with_both host started
      (record started { draws = 9 }) machine pair forged
      (then_call with_pair with_both with_both (codes "b.example") (record started { draws = 9 })
        (record started { draws = 10 }) (9 ∷ 7 ∷ codes "b.example", 9 ∷ []) other_forged
        (no_more with_both))

pub nothing_cached : CacheIsIssued tools authority
unfolding lookup
nothing_cached h p e = cc

forge_certificate-Forges_example : Forges tools authority started.now host pair with_pair
forge_certificate-Forges_example =
    forge_certificate-Forges tools authority host started nothing_cached forged
