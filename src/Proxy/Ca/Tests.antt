-- ===== src/Proxy/Ca/Tests.antt =====
-- internal/proxy/ca.go: runs of the CA files, and the theorems at concrete disks.
use tls_impersonate_proxy.Base.{inr, if◌then◌else◌, ◌≡◌, refl, false, none, some, [], ◌∷◌, ◌++◌}
use tls_impersonate_proxy.Text.{Text, text, text_eq, join}
use tls_impersonate_proxy.Proxy.Ca.{
  cert_mode, Disk, Result, Library, absent, present, is_open_to_others, create_ca, load_ca,
  load_or_create_ca, fingerprint, load_or_create_ca-again, load_or_create_ca-half,
}

program : Unit {0}
unfolding text_eq join is_open_to_others create_ca load_ca load_or_create_ca fingerprint
program = tt

abbrev good : Library Text
good = record {
  generated = Result.ok (text "cert", text "key");
  cert_write = none;
  key_write = none;
  key_pair = λ cert key.
      if text_eq key (text "key") then Result.ok (cert ++ key) else Result.err (text "no PEM data");
}

abbrev failing : Library Text
failing = record good { key_write = some (text "no space left on device", present 384 (text "k")) }

abbrev empty : Disk
empty = record { cert = absent; key = absent }

abbrev shared : Disk
shared = record { cert = present 420 (text "cert"); key = present 420 (text "key") }

shared_refused : (load_or_create_ca good shared).ca ≡ Result.err (text "the key is world-readable")
unfolding program
shared_refused = refl

prints : fingerprint (0x0a ∷ 0xff ∷ 0x70 ∷ []) ≡ text "0A:FF:70"
unfolding program
prints = refl

load_or_create_ca-again_example :
    load_or_create_ca good (load_or_create_ca good empty).disk ≡ record {
      disk = (load_or_create_ca good empty).disk;
      created = false;
      ca = Result.ok (text "certkey");
    }
load_or_create_ca-again_example =
    load_or_create_ca-again good empty (text "certkey") (unfold program in refl)

load_or_create_ca-half_example :
    ((load_or_create_ca failing empty).ca ≡ Result.err (text "no space left on device"))
    × ((load_or_create_ca failing empty).disk.cert ≡ present cert_mode (text "cert"))
    × ((f : Text) × (load_or_create_ca good (load_or_create_ca failing empty).disk ≡ record {
      disk = (load_or_create_ca failing empty).disk;
      created = false;
      ca = Result.err f;
    }))
unfolding program
load_or_create_ca-half_example =
    load_or_create_ca-half failing good empty (text "cert") (text "key")
      (text "no space left on device") (present 384 (text "k")) refl refl refl refl refl
      (inr (text "no PEM data", refl))
