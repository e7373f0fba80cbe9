-- ===== src/Directive/Schema/Tests.antt =====
-- internal/directive/schema.go: runs of the coercers and tests, and the theorem at a concrete input.
use tls_impersonate_proxy.Base.{◌≡◌, refl, ◌^◌, ltb, true, false, if◌then◌else◌}
use tls_impersonate_proxy.Text.{
  text, text_eq, contains_text, lower, trim_space, trim, trim_left, trim_right, is_space, split,
  cut, itoa, digits_from,
}
use tls_impersonate_proxy.Net.{split_host_port, has_char}
use tls_impersonate_proxy.Directive.Parse.{Outcome}
use tls_impersonate_proxy.Directive.Schema.{
  is_digit, digits_value, parse_uint, uint32_of, uint64_of, parse_bool, bool_of, is_host_port,
  all_host_ports, is_dns_over_tls, is_profile_id, lowercase,
}
use tls_impersonate_proxy.Directive.Schema.Numbers.{IsBelow, uint_of-itoa}

program : Unit {0}
unfolding text_eq contains_text lower trim_space trim trim_left trim_right is_space split cut itoa
    digits_from split_host_port has_char is_digit digits_value parse_uint uint32_of uint64_of
    parse_bool bool_of is_host_port all_host_ports is_dns_over_tls is_profile_id lowercase
program = tt

reads : uint32_of (text " 65536 ") ≡ Outcome.ok 65536
unfolding program
reads = refl

overflows :
    uint64_of (text "99999999999999999999")
    ≡ Outcome.err (text "must be an unsigned 64-bit integer")
unfolding program
overflows = refl

signed_refused : uint32_of (text "+1") ≡ Outcome.err (text "must be an unsigned 32-bit integer")
unfolding program
signed_refused = refl

maybe_refused : bool_of (text "maybe") ≡ Outcome.err (text "must be true or false")
unfolding program
maybe_refused = refl

provider : is_dns_over_tls (text "CloudFlare") ≡ true
unfolding program
provider = refl

custom_provider : is_dns_over_tls (text "dns.example@1.1.1.1:853, [::1]:853") ≡ true
unfolding program
custom_provider = refl

no_addresses : is_dns_over_tls (text "dns.example@") ≡ false
unfolding program
no_addresses = refl

profile : is_profile_id (lowercase (text " 0123456789AB ")) ≡ true
unfolding program
profile = refl

uint_of-itoa_example :
    IsBelow (2 ^ 32) (uint32_of (text "7"))
    × IsBelow (2 ^ 64) (uint64_of (text "7"))
    × (uint32_of (itoa 4294967296) ≡ (
        if ltb 4294967296 (2 ^ 32)
        then Outcome.ok 4294967296
        else Outcome.err (text "must be an unsigned 32-bit integer")))
    × (uint64_of (itoa 4294967296) ≡ (
        if ltb 4294967296 (2 ^ 64)
        then Outcome.ok 4294967296
        else Outcome.err (text "must be an unsigned 64-bit integer")))
uint_of-itoa_example = uint_of-itoa (text "7") 4294967296
