-- ===== src/Impersonate/Catalogue/Ids.antt =====
-- internal/impersonate/catalogue.go: the id of a profile is one that the schema of `X-Tip-Profile` takes.
use tls_impersonate_proxy.Base.{
  ℕ, ◌*◌, ◌/◌, ◌%◌, ◌<◌, ◌≤◌, zero, suc, ◌≡◌, refl, true, List, [], ◌∷◌, arith, length, All,
}
use tls_impersonate_proxy.Text.{Text, lower}
use tls_impersonate_proxy.Directive.Parse.{take}
use tls_impersonate_proxy.Directive.Schema.{is_profile_id, is_hex, all_hex}
use tls_impersonate_proxy.Impersonate.Catalogue.{Surf, hex_digit, hex_of, short_sum}

is_hex-hex_digit : (n : ℕ) → n < 16 → is_hex (hex_digit n) ≡ true
is_hex-hex_digit n h = ground arith

all_hex-hex_of : (bytes : List ℕ) → All (λ b. b < 256) bytes → all_hex (hex_of bytes) ≡ true
unfolding hex_of
all_hex-hex_of [] h = refl
all_hex-hex_of (b ∷ bytes) (small, h) =
    rw
      (
        is_hex-hex_digit (b / 16) (omega arith),
        is_hex-hex_digit (b % 16) (omega arith),
        all_hex-hex_of bytes h,
      )
      refl

length-hex_of : (bytes : List ℕ) → length (hex_of bytes) ≡ 2 * length bytes
unfolding hex_of
length-hex_of [] = omega arith
length-hex_of (b ∷ bytes) = omega (arith, length-hex_of bytes)

length-take : (n : ℕ) (s : Text) → n ≤ length s → length (take n s) ≡ n
unfolding take
length-take zero s h = refl
length-take (suc n) [] h = omega arith
length-take (suc n) (c ∷ s) h = omega (arith, length-take n s (omega arith))

all_hex-take : (n : ℕ) (s : Text) → all_hex s ≡ true → all_hex (take n s) ≡ true
unfolding take
all_hex-take zero s h = refl
all_hex-take (suc n) [] h = refl
all_hex-take (suc n) (c ∷ s) h = ground (arith, all_hex-take n s)

pub lower-all_hex : (s : Text) → all_hex s ≡ true → lower s ≡ s
unfolding lower
lower-all_hex [] h = refl
lower-all_hex (c ∷ s) h = ground (arith, lower-all_hex s)

-- What SHA-256 is: 32 bytes, whatever the text.
pub record IsSha256 (sha256 : Text → List ℕ) : Type 0 where
  pub size : (t : Text) → length (sha256 t) ≡ 32
  pub bytes : (t : Text) → All (λ b. b < 256) (sha256 t)

pub short_sum-is_profile_id :
    (surf : Surf) → IsSha256 surf.sha256 → (t : Text) → is_profile_id (short_sum surf t) ≡ true
unfolding short_sum is_profile_id
short_sum-is_profile_id surf sum t =
    let sum_hex = hex_of (surf.sha256 t) in
    rw
      (
        length-take 12 sum_hex (omega (arith, length-hex_of (surf.sha256 t), sum.size t)),
        all_hex-take 12 sum_hex (all_hex-hex_of (surf.sha256 t) (sum.bytes t)),
      )
      refl
