-- ===== src/Command/Laws.antt =====
-- cmd/tip/main.go: what a configuration that `run` starts with enforces on every request, and a path of
-- the metrics with which it does not start.
use tls_impersonate_proxy.Base.{
  ◌≡◌, refl, ◌≢◌, inl, inr, Bool, true, false, Option, none, some, List, [], ◌∷◌, arith, map,
  Bool-cases, All, Has, ◌∙◌, sym, ap, subst, if◌then◌else◌,
}
use tls_impersonate_proxy.Text.{Text, lower, contains_text, In}
use tls_impersonate_proxy.Net.{Url}
use tls_impersonate_proxy.Config.{Config}
use tls_impersonate_proxy.Config.Load
use tls_impersonate_proxy.Directive.Types.{Directive}
use tls_impersonate_proxy.Directive.Policy.{Policy, Made, denied, proxy_hosts, require_proxy}
use tls_impersonate_proxy.Directive.Policy.Hosts.{
  PatternMatches, pattern_of, proxy_allowed_iff, proxy_hosts-ok,
}
use tls_impersonate_proxy.Directive.Operator.{deny_key, new_policy, new_policy-ok}
use tls_impersonate_proxy.Directive.Parse.{Header, is_prefixed, key_of, parse}
use tls_impersonate_proxy.Directive.Parse.Admits.{IsAdmitted, parse-IsAdmitted}
use tls_impersonate_proxy.Metrics.Registry.{Metrics}
use tls_impersonate_proxy.Metrics.Routes.{Checked}
use tls_impersonate_proxy.Proxy.Ca.{Disk, load_or_create_ca}
use tls_impersonate_proxy.Logging.{new_logger}
use tls_impersonate_proxy.Command.{
  World, Ran, Setup, Ending, signalled, server_closed, server_failed, ◌>>=◌, of_made, of_load,
  of_new_logger, of_result, of_error, of_checked, end_of, admin_paths, policy_of, metrics_of,
  admin_of, setup, run,
}

>>=-eq-ok {ℓ κ} :
    {A : Type ℓ} {B : Type κ} (m : Ran A) (f : A → Ran B) {b : B}
    → (m >>= f) ≡ Ran.ok b
    → (a : A) × (m ≡ Ran.ok a) × (f a ≡ Ran.ok b)
>>=-eq-ok (Ran.ok a) f h = (a, refl, h)
>>=-eq-ok (Ran.failed e) f h = cc
>>=-eq-ok Ran.panic f h = cc

of_made-ok : (m : Made Policy) (p : Policy) → of_made m ≡ Ran.ok p → m ≡ Made.ok p
of_made-ok (Made.ok q) p h = cc
of_made-ok (Made.err e) p h = cc

ok_injective : (a b : Setup) → Ran.ok a ≡ Ran.ok b → a ≡ b
ok_injective a b h = cc

module _ (w : World) where
  -- What the policy takes from the configuration.
  record Follows (cfg : Config) (p : Policy) : Type 0 where
    denies : (key : Text) → denied p key ≡ contains_text (map deny_key cfg.directives.deny) key
    hosts : p.proxy_hosts ≡ map pattern_of cfg.directives.proxy_hosts
    requires : p.require_proxy ≡ cfg.directives.require_proxy

  require_proxy-ok :
      (p q : Policy) → require_proxy p ≡ Made.ok q → record p { require_proxy = true } ≡ q
  unfolding require_proxy
  require_proxy-ok p q h = ground arith

  policy_of-Follows : (cfg : Config) (p : Policy) → policy_of w cfg ≡ Ran.ok p → Follows cfg p
  unfolding policy_of denied
  policy_of-Follows cfg p h =
      let (a, e, h) =
        >>=-eq-ok (of_made (new_policy w.directives cfg.directives.defaults cfg.directives.deny)) _
          h in
      let (b, f, h) =
        >>=-eq-ok (of_made (proxy_hosts w.directives.url_parse a cfg.directives.proxy_hosts)) _ h in
      let (denies, known, admitted, empty, free) =
        new_policy-ok w.directives cfg.directives.defaults cfg.directives.deny a
          (of_made-ok _ a e) in
      let (hosts, sound, default, rest) =
        proxy_hosts-ok w.directives.url_parse a b cfg.directives.proxy_hosts (of_made-ok _ b f) in
      let deny : b.deny ≡ a.deny = ap (λ (q : Policy). q.deny) rest in
      let free_b : b.require_proxy ≡ false = ap (λ (q : Policy). q.require_proxy) rest ∙ free in
      elim (Bool-cases cfg.directives.require_proxy) [
        | inl on ↦
            let same = require_proxy-ok b p (of_made-ok (require_proxy b) p (ground (arith, h))) in
            rw (← same) (record {
              denies = λ key. ap (λ (d : List Text). contains_text d key) deny ∙ denies key;
              hosts = hosts;
              requires = sym on;
            })
        | inr off ↦
            let same : b ≡ p = ground (arith, h) in
            rw (← same) (record {
              denies = λ key. ap (λ (d : List Text). contains_text d key) deny ∙ denies key;
              hosts = hosts;
              requires = free_b ∙ sym off;
            })
      ]

  setup-policy :
      (disk : Disk) (cfg : Config) (su : Setup)
      → setup w disk cfg ≡ Ran.ok su
      → (policy_of w cfg ≡ Ran.ok su.policy)
        × ((m : Option Metrics) × (metrics_of w cfg ≡ Ran.ok m)
            × ((admin : List Text) × (admin_of w cfg m ≡ Ran.ok admin)))
  unfolding setup
  setup-policy disk cfg su h =
      let (handler, a, h) =
        >>=-eq-ok (of_new_logger (new_logger w.level_error cfg.logging.level cfg.logging.format)) _
          h in
      let (ca, b, h) = >>=-eq-ok (of_result (load_or_create_ca w.ca disk).ca) _ h in
      let (p, c, h) = >>=-eq-ok (policy_of w cfg) _ h in
      let (m, d, h) = >>=-eq-ok (metrics_of w cfg) _ h in
      let (x, e, h) = >>=-eq-ok (of_error (w.listen cfg.server.listen)) _ h in
      let (y, f, h) = >>=-eq-ok (of_error (w.listen cfg.metrics.listen)) _ h in
      let (admin, g, h) = >>=-eq-ok (admin_of w cfg m) _ h in
      let same = c ∙ ap Ran.ok (ap (λ (s : Setup). s.policy) (ok_injective _ su h)) in
      (same, (m, d, (admin, g)))

  run-ok :
      (disk : Disk) (path : Text) (ending : Ending) (su : Setup)
      → run w disk path ending ≡ Ran.ok su
      → (cfg : Config) × (Load.load w.config path ≡ Load.Result.ok cfg)
        × (setup w disk cfg ≡ Ran.ok su)
  unfolding run
  run-ok disk path ending su h =
      let (cfg, a, h) = >>=-eq-ok (of_load (Load.load w.config path)) _ h in
      let (s, b, h) = >>=-eq-ok (setup w disk cfg) _ h in
      (cfg, of_load-ok _ cfg a, b ∙ ap Ran.ok (end_of-ok ending s su h))
    where
      of_load-ok :
          (r : Load.Result Config Load.LoadError) (cfg : Config)
          → of_load r ≡ Ran.ok cfg
          → r ≡ Load.Result.ok cfg
      of_load-ok (Load.Result.ok c) cfg h = cc
      of_load-ok (Load.Result.err e) cfg h = cc

      end_of-ok : (e : Ending) (s su : Setup) → end_of w e s ≡ Ran.ok su → s ≡ su
      end_of-ok signalled s su h = ok_injective s su h
      end_of-ok server_closed s su h = ok_injective s su h
      end_of-ok (server_failed e) s su h = cc

  -- A setting that `run` ends with, and so served with, is that of a configuration which loads, and holds
  -- every request that is accepted to it: no directive of the request is on the configured list of denied
  -- ones; the request has a proxy, if the configuration requires one; and where the configuration lists
  -- hosts of proxies, a proxy of the request is a URL that one of their patterns matches.
  pub run-parse :
      (disk : Disk) (path : Text) (ending : Ending) (su : Setup)
      → run w disk path ending ≡ Ran.ok su
      → (cfg : Config) × (Load.load w.config path ≡ Load.Result.ok cfg)
        × ((header : Header) (d : Directive)
            → parse w.directives header su.policy ≡ (d, [])
            → All
                (λ h.
                  is_prefixed h.0 ≡ true
                  → contains_text (map deny_key cfg.directives.deny) (key_of h.0) ≡ false)
                header
              × (cfg.directives.require_proxy ≡ true → d.proxy ≢ [])
              × (map pattern_of cfg.directives.proxy_hosts ≢ []
                  → d.proxy ≢ []
                  → (u : Url) × (w.directives.url_parse d.proxy ≡ some u)
                    × Has
                        (λ pattern. PatternMatches pattern (lower u.hostname) u.port)
                        (map pattern_of cfg.directives.proxy_hosts)))
  run-parse disk path ending su h =
      let (cfg, loaded, built) = run-ok disk path ending su h in
      let follows = policy_of-Follows cfg su.policy (setup-policy disk cfg su built).0 in
      (cfg, loaded, λ header d accepted. held cfg follows header d accepted)
    where
      undenied :
          (cfg : Config)
          → Follows cfg su.policy
          → (header : Header) → All (IsAdmitted w.directives su.policy) header
          → All
              (λ h.
                is_prefixed h.0 ≡ true
                → contains_text (map deny_key cfg.directives.deny) (key_of h.0) ≡ false)
              header
      undenied cfg f [] a = tt
      undenied cfg f (h ∷ hs) (a, b) =
          (λ on. sym (f.denies (key_of h.0)) ∙ (a on).1, undenied cfg f hs b)

      held :
          (cfg : Config)
          → Follows cfg su.policy
          → (header : Header) (d : Directive) → parse w.directives header su.policy ≡ (d, [])
          → All
              (λ h.
                is_prefixed h.0 ≡ true
                → contains_text (map deny_key cfg.directives.deny) (key_of h.0) ≡ false)
              header
            × (cfg.directives.require_proxy ≡ true → d.proxy ≢ [])
            × (map pattern_of cfg.directives.proxy_hosts ≢ []
                → d.proxy ≢ []
                → (u : Url) × (w.directives.url_parse d.proxy ≡ some u)
                  × Has
                      (λ pattern. PatternMatches pattern (lower u.hostname) u.port)
                      (map pattern_of cfg.directives.proxy_hosts))
      held cfg f header d accepted =
          let (admitted, required, allowed, rest) =
            parse-IsAdmitted w.directives header su.policy d accepted in
          (
            undenied cfg f header admitted,
            λ on none_there.
                let free : su.policy.require_proxy ≡ false = required none_there in
                let held : su.policy.require_proxy ≡ true = f.requires ∙ on in
                absurd (ground arith),
            λ listed some_there.
                let (u, parsed, matched) =
                  (proxy_allowed_iff w.directives.url_parse su.policy d.proxy
                      (λ e. listed (sym f.hosts ∙ e))).0
                    (allowed some_there) in
                (
                  u,
                  parsed,
                  subst (Has (λ pattern. PatternMatches pattern (lower u.hostname) u.port)) f.hosts
                      matched,
                ),
          )

  admin_of-conflicts :
      (cfg : Config) (m : Metrics) (admin : List Text)
      → w.conflicts admin_paths cfg.metrics.path ≡ true
      → admin_of w cfg (some m) ≢ Ran.ok admin
  unfolding admin_of
  admin_of-conflicts cfg m admin c h = ground arith

  metrics_of-none : (cfg : Config) → cfg.metrics.enabled ≡ true → metrics_of w cfg ≢ Ran.ok none
  unfolding metrics_of
  metrics_of-none cfg on h = chosen-none cfg.metrics.enabled _ on h
    where
      of_checked-none : (c : Option (Checked Metrics)) → of_checked c ≢ Ran.ok none
      of_checked-none (some (Checked.ok m)) h = cc
      of_checked-none (some (Checked.err e)) h = cc
      of_checked-none none h = cc

      chosen-none :
          (b : Bool) (c : Option (Checked Metrics))
          → b ≡ true
          → (if b then of_checked c else Ran.ok none) ≢ Ran.ok none
      chosen-none true c on h = of_checked-none c h
      chosen-none false c on h = cc

  -- When `ServeMux.Handle` panics on a pattern that is there already, `run` does not start a server with
  -- metrics whose path is `/healthz`, `/readyz`, `/ca.pem` or `/profiles`, although the configuration
  -- loads: it never ends as a setting that served.
  pub run-conflicts :
      (disk : Disk) (path : Text) (ending : Ending) (cfg : Config)
      → ((patterns : List Text) (p : Text) → In patterns p → w.conflicts patterns p ≡ true)
      → Load.load w.config path ≡ Load.Result.ok cfg
      → cfg.metrics.enabled ≡ true
      → In admin_paths cfg.metrics.path
      → (su : Setup) → run w disk path ending ≢ Ran.ok su
  run-conflicts disk path ending cfg repeats loaded on taken su h =
      let (c, loaded_c, built) = run-ok disk path ending su h in
      let (same, (m, made, (admin, added))) = setup-policy disk c su built in
      let e : c ≡ cfg = loaded_injective c cfg _ loaded_c loaded in
      refuted m (subst (λ (c : Config). metrics_of w c ≡ Ran.ok m) e made) admin
        (subst (λ (c : Config). admin_of w c m ≡ Ran.ok admin) e added)
    where
      loaded_injective :
          (a b : Config) (r : Load.Result Config Load.LoadError)
          → r ≡ Load.Result.ok a
          → r ≡ Load.Result.ok b
          → a ≡ b
      loaded_injective a b r f g = cc

      refuted :
          (m : Option Metrics)
          → metrics_of w cfg ≡ Ran.ok m
          → (admin : List Text) → admin_of w cfg m ≡ Ran.ok admin
          → ⊥
      refuted none made admin added = metrics_of-none cfg on made
      refuted (some m) made admin added = admin_of-conflicts cfg m admin (repeats _ _ taken) added
