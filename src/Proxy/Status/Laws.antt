-- ===== src/Proxy/Status/Laws.antt =====
-- internal/proxy/status.go: what a reader of Proxy-Status gets back of a quoted text.
use tls_impersonate_proxy.Base.{
  ℕ, ◌≡◌, refl, Bool, true, false, ◌&&◌, ◌||◌, Option, none, some, [], ◌∷◌, ◌++◌, ◌==◌, leb, arith,
  if◌then◌else◌, append_assoc, ap,
}
use tls_impersonate_proxy.Text.{Text}
use tls_impersonate_proxy.Proxy.Status.{sf_char, sf_chars, sf_string}

abbrev cons_first : ℕ → Option (Text × Text) → Option (Text × Text)
cons_first c none = none
cons_first c (some (s, rest)) = some (c ∷ s, rest)

abbrev pub is_printable : ℕ → Bool
is_printable c = leb 0x20 c && leb c 0x7e

-- A reader of a Structured Field string (RFC 8941, 4.2.5) behind its first quote: the text and what
-- follows the closing quote. The flag says that a backslash was read.
unfoldable pub read_sf : Bool → Text → Option (Text × Text)
read_sf escaped [] = none
read_sf true (c ∷ s) =
    let rest = read_sf false s in if c == b'"' || c == 92 then cons_first c rest else none
read_sf false (c ∷ s) =
    let plain = read_sf false s in
    let escape = read_sf true s in
    if c == b'"'
    then some ([], s)
    else if c == 92
    then escape
    else if is_printable c
    then cons_first c plain
    else none

-- Characters that such a string cannot hold are shown as `?`.
unfoldable pub visible : Text → Text
visible [] = []
visible (c ∷ s) = (if is_printable c then c else b'?') ∷ visible s

read_sf-chars : (s rest : Text) → read_sf false (sf_chars s ++ b'"' ∷ rest) ≡ some (visible s, rest)
unfolding read_sf sf_chars sf_char visible
read_sf-chars [] rest = refl
read_sf-chars (c ∷ s) rest = ground (arith, read_sf-chars s rest)

-- Whatever text it is given, `sfString` writes one Structured Field string: a reader gets the text back,
-- with `?` for what such a string cannot hold, and stands exactly behind its closing quote.
pub read_sf-sf_string :
    (s rest : Text)
    → (tail : Text) × (sf_string s ++ rest ≡ b'"' ∷ tail)
      × (read_sf false tail ≡ some (visible s, rest))
unfolding sf_string
read_sf-sf_string s rest = (
  sf_chars s ++ b'"' ∷ rest,
  ap (◌∷◌ b'"') (append_assoc (sf_chars s) (b'"' ∷ []) rest),
  read_sf-chars s rest,
)
