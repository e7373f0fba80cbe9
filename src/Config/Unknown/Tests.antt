-- ===== src/Config/Unknown/Tests.antt =====
-- internal/config/unknown.go: the keys that a small document has and its type has not.
use tls_impersonate_proxy.Base.{◌≡◌, refl, ◌↔◌, [], ◌∷◌}
use tls_impersonate_proxy.Text.{text, text_eq, text_le, itoa, digits_from}
use tls_impersonate_proxy.Metrics.Routes.{sort, insert_sorted}
use tls_impersonate_proxy.Config.Load.{config_fields}
use tls_impersonate_proxy.Config.Unknown.{
  Doc, end, entry, mapping, sequence, other, item, nil, type_of, keys_of_doc, keys_of_value,
  keys_of_items, unknown_keys, IsKnown, unknown_keys_iff,
}

program : Unit {0}
unfolding text_eq text_le itoa digits_from sort insert_sorted type_of keys_of_doc keys_of_value
    keys_of_items unknown_keys
program = tt

abbrev document : Doc
document = entry (text "sever") other (
    entry (text "metrics")
      (mapping (
        entry (text "routes")
          (sequence (item (mapping (entry (text "nam") other end)) (item other nil)))
          (entry (text "path") other end)))
      (entry (text "logging") (mapping (entry (text "levl") other end)) end))

-- The keys are sorted by their whole names.
found :
    unknown_keys document config_fields []
    ≡ text "logging.levl" ∷ text "metrics.routes[0].nam" ∷ text "sever" ∷ []
unfolding program
found = refl

unknown_keys_iff_example :
    (unknown_keys document config_fields [] ≡ []) ↔ IsKnown document config_fields
unknown_keys_iff_example = unknown_keys_iff document config_fields []
