-- ===== src/Impersonate/Infer/Tests.antt =====
-- Runs of `Infer` and `finalize`, and their theorems at concrete agents and headers.
use tls_impersonate_proxy.Base.{◌≡◌, refl, ◌⊎◌, [], ◌∷◌, ◌++◌, if◌then◌else◌}
use tls_impersonate_proxy.Text.{Text, text, text_eq, contains_text, contains, cut_prefix, In}
use tls_impersonate_proxy.Assoc.{lookup}
use tls_impersonate_proxy.Http.{Header, values}
use tls_impersonate_proxy.Impersonate.Context.{keep_names, is_named, values-keep_names}
use tls_impersonate_proxy.Impersonate.Infer.{
  firefox, oses_of, contains_os, platform, closest, detected, exact_os, exact, infer,
}
use tls_impersonate_proxy.Impersonate.Infer.Laws.{IsAvailable, infer-IsAvailable}

program : Unit {0}
unfolding text_eq contains_text contains cut_prefix lookup oses_of contains_os platform closest
    detected exact_os exact infer
program = tt

abbrev agent : Text → Text → Text
agent name os = name ++ (text " on " ++ os)

edge_lem :
    infer agent (text "Windows Edg/1") ≡ record { browser = text "edge"; os = text "windows" }
unfolding program
edge_lem = refl

edge_ios_lem :
    infer agent (text "iPad EdgiOS/1") ≡ record { browser = text "chrome"; os = text "ios" }
unfolding program
edge_ios_lem = refl

linux_listed : In firefox.oses (text "linux")
unfolding program
linux_listed = refl

infer-IsAvailable_example :
    ((infer agent (text "iPad EdgiOS/1")).browser ≡ [])
    ⊎ IsAvailable (infer agent (text "iPad EdgiOS/1"))
infer-IsAvailable_example = infer-IsAvailable agent (text "iPad EdgiOS/1")

abbrev sent : Header
sent = (text "Accept", text "a" ∷ text "b" ∷ []) ∷ []

abbrev written : Header
written = (text "Accept", text "*/*" ∷ []) ∷ []

values-keep_names_example :
    values (keep_names sent (text "accept" ∷ []) written) (text "Accept") ≡ (
      if is_named (text "accept" ∷ []) (text "Accept")
      then values sent (text "Accept")
      else values written (text "Accept"))
values-keep_names_example = values-keep_names sent written (text "accept" ∷ []) (text "Accept")
