-- ===== src/Proxy/Ca.antt =====
-- internal/proxy/ca.go: the CA's certificate and key on disk.
-- A file is absent, not to be looked at, or there with its permissions and its text; a mode is the number
-- that its octal digits stand for, and the umask clears none of the bits that the program asks for. A file
-- that is there can be read. The key generator, the certificate maker and `X509KeyPair` are arguments.
mod Tests
use tls_impersonate_proxy.Base.{
  ℕ, ◌%◌, ◌/◌, ◌+◌, ◌≡◌, refl, ◌≢◌, inl, inr, ◌⊎◌, Bool, true, false, not, Option, none, some, List,
  [], ◌∷◌, ◌++◌, arith, ◌==◌, ltb, ◌&&◌, ◌∙◌, if◌then◌else◌, Bool-cases, Option-cases, map,
}
use tls_impersonate_proxy.Text.{Text, text, join, split}

pub data File : Type 0 where
  absent : File
  unreachable : Text → File
  present : ℕ → Text → File

pub record Disk : Type 0 where
  pub cert : File
  pub key : File

-- A result, or the text of an error.
pub data Result {ℓ} (A : Type ℓ) : Type ℓ where
  ok : A → Result A
  err : Text → Result A

-- The PEM texts that a new pair gives, or the error of one of the calls up to them; the errors of the two
-- writes, if they fail, each with the file that it leaves, which may be made and written in part; and what `X509KeyPair` makes of two texts. `C` are the certificates.
pub record Library (C : Type 0) : Type 0 where
  pub generated : Result (Text × Text)
  pub cert_write : Option (Text × File)
  pub key_write : Option (Text × File)
  pub key_pair : Text → Text → Result C

-- 0o644 and 0o600
abbrev pub cert_mode : ℕ
cert_mode = 420

abbrev pub key_mode : ℕ
key_mode = 384

-- `Perm()&0o007 != 0`
unfoldable pub is_open_to_others : ℕ → Bool
is_open_to_others mode = not (mode % 8 == 0)

pub record Loaded (C : Type 0) : Type 0 where
  pub disk : Disk
  pub created : Bool
  pub ca : Result C

abbrev pub is_absent : File → Bool
is_absent absent = true
is_absent f = false

module _ {C : Type 0} (lib : Library C) where
  -- `createCA`
  unfoldable pub create_ca : Disk → Loaded C
  create_ca d = elim lib.generated [
    | Result.err e ↦ record { disk = d; created = true; ca = Result.err e }
    | Result.ok (cert_pem, key_pem) ↦ elim lib.cert_write [
      | some (e, left) ↦ record {
        disk = record d { cert = left };
        created = true;
        ca = Result.err e;
      }
      | none ↦
          let d' : Disk = record d { cert = present cert_mode cert_pem } in
          elim lib.key_write [
            | some (e, left) ↦ record {
              disk = record d' { key = left };
              created = true;
              ca = Result.err e;
            }
            | none ↦ record {
              disk = record d' { key = present key_mode key_pem };
              created = true;
              ca = lib.key_pair cert_pem key_pem;
            }
          ]
    ]
  ]

  -- The cases of `LoadOrCreateCA` behind the first: both files are looked at before either is read.
  unfoldable pub load_ca : Disk → Loaded C
  load_ca d = elim d.cert [
    | absent ↦ record { disk = d; created = false; ca = Result.err (text "no certificate") }
    | unreachable e ↦ record { disk = d; created = false; ca = Result.err e }
    | present cert_bits cert_pem ↦ elim d.key [
      | absent ↦ record { disk = d; created = false; ca = Result.err (text "no key") }
      | unreachable e ↦ record { disk = d; created = false; ca = Result.err e }
      | present bits key_pem ↦
          if is_open_to_others bits
          then record {
            disk = d;
            created = false;
            ca = Result.err (text "the key is world-readable");
          }
          else record { disk = d; created = false; ca = lib.key_pair cert_pem key_pem }
    ]
  ]

  -- `LoadOrCreateCA`
  unfoldable pub load_or_create_ca : Disk → Loaded C
  load_or_create_ca d = if is_absent d.cert && is_absent d.key then create_ca d else load_ca d

-- `hex.EncodeToString` in upper case, of one byte.
abbrev hex_digit : ℕ → ℕ
hex_digit n = if ltb n 10 then b'0' + n else b'7' + n

abbrev pub hex_pair : ℕ → Text
hex_pair byte = hex_digit (byte / 16) ∷ hex_digit (byte % 16) ∷ []

unfoldable pub hex_of : List ℕ → Text
hex_of [] = []
hex_of (byte ∷ bytes) = hex_digit (byte / 16) ∷ hex_digit (byte % 16) ∷ hex_of bytes

-- The loop of `Fingerprint`; a single digit at the end would be an index out of range.
unfoldable pub pairs_of : Text → List Text
pairs_of (a ∷ b ∷ rest) = (a ∷ b ∷ []) ∷ pairs_of rest
pairs_of rest = []

-- `Fingerprint`, of the bytes of the SHA-256 sum.
unfoldable pub fingerprint : List ℕ → Text
unfolding hex_of pairs_of
fingerprint sum = join (text ":") (pairs_of (hex_of sum))

-- A key file that makes no pair with the certificate.
abbrev pub IsUseless : {C : Type 0} → Library C → Text → File → Type 0
IsUseless lib cert_pem (present bits key_pem) =
    (is_open_to_others bits ≡ true) ⊎ ((f : Text) × (lib.key_pair cert_pem key_pem ≡ Result.err f))
IsUseless lib cert_pem left = Unit

useless_key :
    {C : Type 0} (lib : Library C) (cert_pem : Text) (left : File)
    → IsUseless lib cert_pem left
    → let d : Disk = record { cert = present cert_mode cert_pem; key = left } in
      (f : Text) × (load_ca lib d ≡ record { disk = d; created = false; ca = Result.err f })
unfolding load_ca
useless_key lib cert_pem absent u = (_, refl)
useless_key lib cert_pem (unreachable e) u = (_, refl)
useless_key lib cert_pem (present bits key_pem) (inl shared) = rw shared (_, refl)
useless_key lib cert_pem (present bits key_pem) (inr (f, bad)) =
    elim (Bool-cases (is_open_to_others bits)) [
      | inl shared ↦ rw shared (_, refl)
      | inr closed ↦ rw (closed, bad) (_, refl)
    ]

module _ {C : Type 0} (lib : Library C) where
  load_ca-again :
      (d : Disk) (ca : C)
      → (load_ca lib d).ca ≡ Result.ok ca
      → (is_absent d.cert ≡ false)
        × (load_ca lib d ≡ record { disk = d; created = false; ca = Result.ok ca })
  unfolding load_ca
  load_ca-again d ca h = ground arith

  create_ca-again :
      (d : Disk) (ca : C)
      → (create_ca lib d).ca ≡ Result.ok ca
      → (is_absent (create_ca lib d).disk.cert ≡ false)
        × (load_ca lib (create_ca lib d).disk
            ≡ record { disk = (create_ca lib d).disk; created = false; ca = Result.ok ca })
  unfolding create_ca load_ca is_open_to_others
  create_ca-again d ca h = ground arith

  -- Where `LoadOrCreateCA` returns a CA, made or loaded, calling it again on the files that it leaves
  -- loads the same CA, makes none, and changes no file.
  pub load_or_create_ca-again :
      (d : Disk) (ca : C)
      → (load_or_create_ca lib d).ca ≡ Result.ok ca
      → load_or_create_ca lib (load_or_create_ca lib d).disk
        ≡ record { disk = (load_or_create_ca lib d).disk; created = false; ca = Result.ok ca }
  unfolding load_or_create_ca
  load_or_create_ca-again d ca h = elim (Bool-cases (is_absent d.cert && is_absent d.key)) [
    | inl new ↦ let (there, again) = create_ca-again d ca (rw new at h) in rw new (rw there again)
    | inr old ↦ let (there, again) = load_ca-again d ca (rw old at h) in rw old (ground arith)
  ]

  -- Where there are no files, a pair is made, and its certificate is written but the write of its key
  -- fails, and leaves no file, one that cannot be looked at, one that is open to others, or a text that
  -- makes no pair with the certificate: `LoadOrCreateCA` returns the error of that write and leaves the
  -- certificate, and every later call, whatever would be made and written then, fails too, makes no pair
  -- and changes no file.
  pub load_or_create_ca-half :
      (later : Library C) (d : Disk) (cert_pem key_pem e : Text) (left : File)
      → d.cert ≡ absent
      → d.key ≡ absent
      → lib.generated ≡ Result.ok (cert_pem, key_pem)
      → lib.cert_write ≡ none
      → lib.key_write ≡ some (e, left)
      → IsUseless later cert_pem left
      → ((load_or_create_ca lib d).ca ≡ Result.err e)
        × ((load_or_create_ca lib d).disk.cert ≡ present cert_mode cert_pem)
        × ((f : Text) × (load_or_create_ca later (load_or_create_ca lib d).disk ≡ record {
          disk = (load_or_create_ca lib d).disk;
          created = false;
          ca = Result.err f;
        }))
  unfolding load_or_create_ca create_ca
  load_or_create_ca-half later d cert_pem key_pem e left no_cert no_key made written failed
        useless =
      let disk : Disk = record { cert = present cert_mode cert_pem; key = left } in
      let (f, again) = useless_key later cert_pem left useless in
      rw (no_cert, no_key, made, written, failed) (refl, refl, (f, again))
