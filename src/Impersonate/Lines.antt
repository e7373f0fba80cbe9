-- ===== src/Impersonate/Lines.antt =====
-- internal/impersonate/context.go: `lines`, the header lines that a capture keeps of a request. The two
-- keys under which the HTTP library keeps the order of a header are arguments.
use tls_impersonate_proxy.Base.{true, false, not, List, [], ◌∷◌, ◌++◌, map, keep, get_or}
use tls_impersonate_proxy.Text.{Text, text, contains_text, lower}
use tls_impersonate_proxy.Assoc.{lookup}
use tls_impersonate_proxy.Http.{Header, canonical}
use tls_impersonate_proxy.Metrics.Routes.{sort}

abbrev pub line_of : Text → Text → Text
line_of key value = lower key ++ (text ": " ++ value)

abbrev pub lines_of : Text → List Text → List Text
lines_of key values = map (line_of key) values

-- `emit` of each name in turn: the lines, and what is seen behind them.
unfoldable pub emit_all : Header → List Text → List Text → List Text × List Text
emit_all h [] seen = ([], seen)
emit_all h (name ∷ names) seen = elim (contains_text seen (canonical name)) [
  | true ↦ emit_all h names seen
  | false ↦
      let (out, after) = emit_all h names (canonical name ∷ seen) in
      (lines_of (canonical name) (get_or [] (lookup (canonical name) h)) ++ out, after)
]

abbrev pub keys_of : Header → List Text
keys_of h = map (λ e. e.0) h

module _ (order_key pheader_key : Text) where
  abbrev pub order_keys : List Text
  order_keys = order_key ∷ pheader_key ∷ []

  unfoldable pub lines : Header → List Text
  unfolding emit_all
  lines h =
      let (first, seen) = emit_all h (get_or [] (lookup order_key h)) order_keys in
      first ++ (emit_all h (sort (keep (λ key. not (contains_text seen key)) (keys_of h))) seen).0
