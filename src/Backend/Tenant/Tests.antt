-- ===== src/Backend/Tenant/Tests.antt =====
-- Tenant keys on concrete inputs.
use haentgl.Prelude.{◌≡◌, refl, some, [], arith}
use haentgl.Prelude.Text.{codes, byte_len, utf8_width}
use haentgl.Extern.Hex.Digits.{lower_hex}
use haentgl.Backend.Tenant.{TenantKey, encode_tenant_key, decode_tenant_key, obfuscate_string}
use haentgl.Backend.Tenant.RoundTrip.{decode-encode_tenant_key}

abbrev test_key : TenantKey
test_key = record {
  region = [];
  available_zone = [];
  namespace = codes "test-proxy-system";
  cluster_name = codes "test-cluster-1";
}

obfuscated_name : obfuscate_string (codes "test-cluster-1") ≡ codes "jrca-djpkiqa-1"
unfolding obfuscate_string
obfuscated_name = refl

decode-encode_tenant_key_example :
    decode_tenant_key lower_hex (encode_tenant_key lower_hex test_key) ≡ some test_key
unfolding byte_len utf8_width
decode-encode_tenant_key_example =
    decode-encode_tenant_key lower_hex test_key (omega arith) (omega arith)
