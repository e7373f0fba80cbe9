-- ===== src/Proxy/Handler/Laws.antt =====
-- internal/proxy/handler.go: every request is either answered and accounted for at once, or sent on with a
-- client of its spec and without its directives; a tunnel keeps the identity that it picked.
use tls_impersonate_proxy.Base.{
  ◌≡◌, refl, ◌≢◌, ◌⊎◌, inl, inr, Bool, true, false, Option, none, some, List, [], ◌∷◌, arith,
  Option-cases, List-cases, sym, ap, ◌∙◌,
}
use tls_impersonate_proxy.Text.{Text, text_eq_refl, contains_text, In}
use tls_impersonate_proxy.Proxy.Handler.Tunnels.{
  Picking, Reach, Reach-Keeps, Reach-remembered, Reach-refused, without,
}
use tls_impersonate_proxy.Assoc.{lookup-put}
use tls_impersonate_proxy.Directive.Types.{Directive}
use tls_impersonate_proxy.Directive.Resolve.{Picks, resolve}
use tls_impersonate_proxy.Proxy.Handler.{
  Identity, Tunnel, World, later, pick_key, remember, picked, resolve_for,
}

triple_inj {ℓ κ μ} :
    {A : Type ℓ} {B : Type κ} {C : Type μ} {a a' : A} {b b' : B} {c c' : C}
    → ◌≡◌ {A = Option (A × B × C)} (some (a, b, c)) (some (a', b', c'))
    → (a ≡ a') × (b ≡ b') × (c ≡ c')
triple_inj {A = A} {B = B} {C = C} {a = a} {b = b} {c = c} h =
    (ap (λ o. (from o).0) h, ap (λ o. (from o).1) h, ap (λ o. (from o).2) h)
  where
    from : Option (A × B × C) → A × B × C
    from none = (a, b, c)
    from (some x) = x

module _ (w : World) where
  pub resolve_for_kept :
      (picks : Picks) (t : Option Tunnel) (d : Directive) (id : Identity)
      → picked t (pick_key d) ≡ some id
      → resolve_for w picks t d ≡ some (t, record d { browser = id.browser; os = id.os }, true)
  unfolding resolve_for
  resolve_for_kept picks t d id h = rw (h, resolve_for) refl

  pub resolve_for_new :
      (picks : Picks) (t : Option Tunnel) (d r : Directive)
      → picked t (pick_key d) ≡ none
      → resolve w.families w.oses picks d ≡ some (r, true)
      → resolve_for w picks t d ≡ some (remember (pick_key d) r (later w t), r, true)
  unfolding resolve_for
  resolve_for_new picks t d r h e = rw (h, e, resolve_for) refl

  pub resolve_for_refused :
      (picks : Picks) (t : Option Tunnel) (d r : Directive)
      → picked t (pick_key d) ≡ none
      → resolve w.families w.oses picks d ≡ some (r, false)
      → resolve_for w picks t d ≡ some (later w t, d, false)
  unfolding resolve_for
  resolve_for_refused picks t d r h e = rw (h, e, resolve_for) refl

  resolve_for_panic :
      (picks : Picks) (t : Option Tunnel) (d : Directive)
      → picked t (pick_key d) ≡ none
      → resolve w.families w.oses picks d ≡ none
      → resolve_for w picks t d ≡ none
  unfolding resolve_for
  resolve_for_panic picks t d h e = rw (h, e, resolve_for) refl

  picked-remember :
      (key : Text) (r : Directive) (t : Tunnel)
      → r.browser ≢ []
      → picked (remember key r (some t)) key ≡ some (record { browser = r.browser; os = r.os })
  unfolding picked remember
  picked-remember key r t n = elim (List-cases r.browser) [
    | inl e ↦ absurd (n e)
    | inr (b, bs, e) ↦
        ground (
          arith,
          lookup-put key key (record { browser = r.browser; os = r.os }) t,
          text_eq_refl key,
        )
  ]

  Option-pair-cases :
      (o : Option (Directive × Bool))
      → (o ≡ none)
        ⊎ (((r : Directive) × (o ≡ some (r, true))) ⊎ ((r : Directive) × (o ≡ some (r, false))))
  Option-pair-cases none = inl refl
  Option-pair-cases (some (r, true)) = inr (inl (r, refl))
  Option-pair-cases (some (r, false)) = inr (inr (r, refl))

  -- The tunnel that a request leaves has its pick.
  resolve_for-picked :
      (picks : Picks) (t t' : Tunnel) (d r : Directive)
      → resolve_for w picks (some t) d ≡ some (some t', r, true)
      → r.browser ≢ []
      → picked (some t') (pick_key d) ≡ some (record { browser = r.browser; os = r.os })
  resolve_for-picked picks t t' d r h n = elim (Option-cases (picked (some t) (pick_key d))) [
    | inr (id, known) ↦
        let f = resolve_for_kept picks (some t) d id known in
        let (tunnels, chosen, good) = triple_inj (sym f ∙ h) in rw (← tunnels, ← chosen) known
    | inl fresh ↦ elim (Option-pair-cases (resolve w.families w.oses picks d)) [
      | inl panic ↦ absurd (ground (arith, resolve_for_panic picks (some t) d fresh panic))
      | inr (inl (r', chosen)) ↦
          let f = resolve_for_new picks (some t) d r' fresh chosen in
          let (tunnels, same_directive, good) = triple_inj (sym f ∙ h) in
          rw (← tunnels, ← same_directive)
            (picked-remember (pick_key d) r' (w.meanwhile t) (λ q. n (rw (← same_directive) q)))
      | inr (inr (r', refused)) ↦
          let f = resolve_for_refused picks (some t) d r' fresh refused in
          let (tunnels, same_directive, never) = triple_inj (sym f ∙ h) in absurd (ground arith)
    ]
  ]

-- `resolve_for` takes steps of the relation: if the tunnel's other requests take such steps between its look
-- and its own change, it does so from before its look to behind its change.
resolve_for-Reach :
    (w : World) (picks : Picks) (t t' : Tunnel) (d r : Directive) (ok : Bool)
    (pending pending' : List Text)
    → resolve_for w picks (some t) d ≡ some (some t', r, ok)
    → picked (some t) (pick_key d) ≡ none
    → Reach
        (record { picks = t; pending = pick_key d ∷ pending })
        (record { picks = w.meanwhile t; pending = pending' })
    → In pending' (pick_key d)
    → Reach
        (record { picks = t; pending = pending })
        (record { picks = t'; pending = without (pick_key d) pending' })
resolve_for-Reach w picks t t' d r ok pending pending' h fresh moves i =
    elim (Option-pair-cases w (resolve w.families w.oses picks d)) [
      | inl panic ↦ absurd (ground (arith, resolve_for_panic w picks (some t) d fresh panic))
      | inr (inl (r', chosen)) ↦
          let f = resolve_for_new w picks (some t) d r' fresh chosen in
          let (tunnels, same_directive, same_ok) = triple_inj (sym f ∙ h) in
          Reach-remembered d r' t (w.meanwhile t) t' pending pending' fresh moves i tunnels
      | inr (inr (r', refused)) ↦
          let f = resolve_for_refused w picks (some t) d r' fresh refused in
          let (tunnels, same_directive, same_ok) = triple_inj (sym f ∙ h) in
          let same : w.meanwhile t ≡ t' = cc in
          rw (← same) (Reach-refused d t (w.meanwhile t) pending pending' fresh moves i)
    ]

-- Once a request of a tunnel has been given a browser, and no request that names the same browsers and OSes
-- is then between its look at the picks and its own change of them: whatever the requests of the tunnel do
-- from there, in any order of their steps, a request that names the same browsers and OSes and looks at the
-- picks then is given the same browser and OS, whatever the random numbers are.
pub resolve_for-sticky :
    (w w' : World) (picks picks' : Picks) (t t' : Tunnel) (pending : List Text) (c : Picking)
    (d e r : Directive)
    → resolve_for w picks (some t) d ≡ some (some t', r, true)
    → r.browser ≢ []
    → contains_text pending (pick_key d) ≡ false
    → Reach (record { picks = t'; pending = pending }) c
    → pick_key e ≡ pick_key d
    → resolve_for w' picks' (some c.picks) e
      ≡ some (some c.picks, record e { browser = r.browser; os = r.os }, true)
resolve_for-sticky w w' picks picks' t t' pending c d e r h n free moves same =
    let id : Identity = record { browser = r.browser; os = r.os } in
    let (known, rest) =
      Reach-Keeps (pick_key d) id moves (resolve_for-picked w picks t t' d r h n, free) in
    resolve_for_kept w' picks' (some c.picks) e id (ap (picked (some c.picks)) same ∙ known)
