-- ===== src/Proxy/Encoding.antt =====
-- internal/proxy/encoding.go: which encodings a client accepts, and when a body is decoded. The decoders
-- are libraries: whether one opens the body is an argument, and what it reads then is left out; where one
-- errs, what it leaves of the body is said. A body that is only peeked at is read from its first byte all
-- the same.
pub mod Decoder
pub mod Laws
use tls_impersonate_proxy.Base.{
  ℕ, ◌+◌, ◌*◌, ◌%◌, Bool, true, false, not, ◌&&◌, ◌||◌, Option, none, some, List, [], ◌∷◌, ◌++◌,
  ◌==◌, is_nil, if◌then◌else◌,
}
use tls_impersonate_proxy.Text.{
  Text, text, text_eq, contains_text, lower, trim_space, split, cut_head, has_prefix,
}
use tls_impersonate_proxy.Http.{Header, get, del}

-- The tokens of one value of `Accept-Encoding`.
unfoldable pub tokens : List Text → List Text
tokens [] = []
tokens (part ∷ parts) =
    let token = lower (trim_space (cut_head b';' part)) in
    let rest = tokens parts in if is_nil token then rest else token ∷ rest

unfoldable pub accept_encodings : List Text → List Text
accept_encodings [] = []
accept_encodings (value ∷ values) = tokens (split b',' value) ++ accept_encodings values

-- An upstream's response, as far as `negotiate` reads and writes it; no length is -1. `head` says that it
-- answers a HEAD request, and `decoded` names the decoder between the body and the client.
pub record Reply : Type 0 where
  pub status_code : ℕ
  pub header : Header
  pub content_length : Option ℕ
  pub head : Bool
  pub uncompressed : Bool
  pub body : Text
  pub decoded : Option Text

-- `Peek(2)` gives a zlib header: method 8, and a checksum that 31 divides.
unfoldable pub is_zlib : Text → Bool
is_zlib [] = false
is_zlib (a ∷ []) = false
is_zlib (a ∷ b ∷ s) = (a % 16 == 8) && ((a * 256 + b) % 31 == 0)

abbrev pub gzip_magic : Text
gzip_magic = 0x1f ∷ 0x8b ∷ []

abbrev pub zstd_magic : Text
zstd_magic = 0x28 ∷ 0xb5 ∷ 0x2f ∷ 0xfd ∷ []

unfoldable pub encoding_of : Reply → Text
encoding_of resp = lower (trim_space (get resp.header (text "Content-Encoding")))

-- The two tests that leave a response as it is.
unfoldable pub is_wanted : Text → List Text → Text → Bool
is_wanted mode accept encoding =
    is_nil encoding
    || text_eq encoding (text "identity")
    || text_eq mode (text "passthrough")
    || (text_eq mode (text "negotiate")
        && (contains_text accept encoding || contains_text accept (text "*")))

abbrev pub is_zero : Option ℕ → Bool
is_zero none = false
is_zero (some n) = n == 0

unfoldable pub is_bodiless : Reply → Bool
is_bodiless resp =
    resp.status_code == 204 || resp.status_code == 304 || is_zero resp.content_length || resp.head

-- What the library's `NewReader` makes of a body: a reader, or an error, with what it has not read.
pub data Opening : Type 0 where
  opened : Opening
  refused : Text → Opening

module _ (opens : Text → Text → Opening) where
  -- A body behind the test of its first bytes.
  abbrev behind : Bool → Text → Text → Text × Bool
  behind matched encoding body =
      if matched
      then (elim (opens encoding body) [ opened ↦ (body, true) | refused rest ↦ (rest, false) ])
      else (body, false)

  -- `decoder`: the body that is left, which is the source where a reader is put before it, and whether it
  -- is decodable.
  unfoldable pub decoder : Text → Text → Text × Bool
  decoder encoding body =
      if text_eq encoding (text "gzip")
      then behind (has_prefix gzip_magic body) encoding body
      else if text_eq encoding (text "deflate")
      then behind (is_zlib body) encoding body
      else if text_eq encoding (text "br")
      then (body, true)
      else if text_eq encoding (text "zstd")
      then behind (has_prefix zstd_magic body) encoding body
      else (body, false)

  abbrev pub is_decodable : Text → Text → Bool
  is_decodable encoding body = (decoder encoding body).1

  unfoldable pub negotiate : Text → List Text → Reply → Reply
  negotiate mode accept resp =
      let encoding = encoding_of resp in
      if is_wanted mode accept encoding
      then resp
      else if is_bodiless resp
      then resp
      else if not (is_decodable encoding resp.body)
      then record resp { body = (decoder encoding resp.body).0 }
      else record resp {
        header = del (text "Content-Length") (del (text "Content-Encoding") resp.header);
        content_length = none;
        uncompressed = true;
        body = (decoder encoding resp.body).0;
        decoded = some encoding;
      }
