-- ===== src/Proxy/Handler/Tunnels.antt =====
-- internal/proxy/handler.go: the requests of one tunnel, which look at its picks and change them in steps
-- of their own.
use tls_impersonate_proxy.Base.{
  ◌≡◌, refl, inl, inr, true, false, none, some, List, [], ◌∷◌, arith, Bool-cases, List-cases,
  if◌then◌else◌, sym, ap, ◌∙◌,
}
use tls_impersonate_proxy.Text.{Text, text_eq, text_eq_iff, contains_text, In}
use tls_impersonate_proxy.Assoc.{lookup-put}
use tls_impersonate_proxy.Directive.Types.{Directive}
use tls_impersonate_proxy.Proxy.Handler.{Identity, Tunnel, pick_key, picked, remember}

-- The picks, and the keys of the requests that looked for one, found none and have not gone on yet.
pub record Picking : Type 0 where
  pub picks : Tunnel
  pub pending : List Text

-- The list without the first of these keys.
unfoldable pub without : Text → List Text → List Text
without key [] = []
without key (k ∷ ks) = let rest = without key ks in if text_eq k key then ks else k ∷ rest

-- A look that finds a pick changes nothing. A request whose look found none goes on with what `Resolve` gave
-- it, or is refused.
pub data Step (c : Picking) : Picking → Type 0 where
  looked :
      (d : Directive)
      → picked (some c.picks) (pick_key d) ≡ none
      → Step c (record c { pending = pick_key d ∷ c.pending })
  remembered :
      {t : Tunnel} (key : Text) (r : Directive)
      → In c.pending key
      → remember key r (some c.picks) ≡ some t
      → Step c (record { picks = t; pending = without key c.pending })
  refused : (key : Text) → In c.pending key → Step c (record c { pending = without key c.pending })

pub data Reach (c : Picking) : Picking → Type 0 where
  here : Reach c c
  next : {d e : Picking} → Reach c d → Step d e → Reach c e

-- The key has a pick, and nobody is about to change it.
abbrev pub Keeps : Text → Identity → Picking → Type 0
Keeps key id c = (picked (some c.picks) key ≡ some id) × (contains_text c.pending key ≡ false)

contains_text-without :
    (k key : Text) (ks : List Text)
    → contains_text ks k ≡ false
    → contains_text (without key ks) k ≡ false
unfolding contains_text without
contains_text-without k key [] h = refl
contains_text-without k key (j ∷ ks) h = ground (arith, contains_text-without k key ks)

-- A change under another key.
picked-remember_other :
    (key k : Text) (r : Directive) (t t' : Tunnel)
    → text_eq key k ≡ false
    → remember key r (some t) ≡ some t'
    → picked (some t') k ≡ picked (some t) k
unfolding remember picked
picked-remember_other key k r t t' other h = elim (List-cases r.browser) [
  | inl e ↦ ground arith
  | inr (b, bs, e) ↦ ground (arith, lookup-put key k (record { browser = r.browser; os = r.os }) t)
]

apart :
    (key k : Text) (ks : List Text) → In ks key → contains_text ks k ≡ false → text_eq key k ≡ false
apart key k ks i h = elim (Bool-cases (text_eq key k)) [
  | inr other ↦ other
  | inl same ↦
      let moved : contains_text ks k ≡ true =
        ap (contains_text ks) (sym ((text_eq_iff key k).0 same)) ∙ i in
      absurd (ground arith)
]

Step-Keeps :
    (key : Text) (id : Identity) {c d : Picking} → Step c d → Keeps key id c → Keeps key id d
unfolding contains_text
Step-Keeps key id {c = c} (looked d fresh) (known, free) = (
  known,
  elim (Bool-cases (text_eq (pick_key d) key)) [
    | inr other ↦ ground arith
    | inl same ↦
        let gone = ap (picked (some c.picks)) ((text_eq_iff (pick_key d) key).0 same) in
        absurd (ground arith)
  ],
)
Step-Keeps key id {c = c} (remembered {t = t} k r i h) (known, free) = (
  picked-remember_other k key r c.picks t (apart k key c.pending i free) h ∙ known,
  contains_text-without key k c.pending free,
)
Step-Keeps key id {c = c} (refused k i) (known, free) =
    (known, contains_text-without key k c.pending free)

pub Reach-Keeps :
    (key : Text) (id : Identity) {c d : Picking} → Reach c d → Keeps key id c → Keeps key id d
Reach-Keeps key id here k = k
Reach-Keeps key id (next r s) k = Step-Keeps key id s (Reach-Keeps key id r k)

Step-Reach : {c d e : Picking} → Step c d → Reach d e → Reach c e
Step-Reach s here = next here s
Step-Reach s (next r s') = next (Step-Reach s r) s'

-- The steps of one request that finds no pick: its look, what the others do then, and its own change.
pub Reach-remembered :
    (d r : Directive) (t u t' : Tunnel) (pending pending' : List Text)
    → picked (some t) (pick_key d) ≡ none
    → Reach
        (record { picks = t; pending = pick_key d ∷ pending })
        (record { picks = u; pending = pending' })
    → In pending' (pick_key d)
    → remember (pick_key d) r (some u) ≡ some t'
    → Reach
        (record { picks = t; pending = pending })
        (record { picks = t'; pending = without (pick_key d) pending' })
Reach-remembered d r t u t' pending pending' fresh moves i h =
    next (Step-Reach (looked d fresh) moves) (remembered (pick_key d) r i h)

pub Reach-refused :
    (d : Directive) (t u : Tunnel) (pending pending' : List Text)
    → picked (some t) (pick_key d) ≡ none
    → Reach
        (record { picks = t; pending = pick_key d ∷ pending })
        (record { picks = u; pending = pending' })
    → In pending' (pick_key d)
    → Reach
        (record { picks = t; pending = pending })
        (record { picks = u; pending = without (pick_key d) pending' })
Reach-refused d t u pending pending' fresh moves i =
    next (Step-Reach (looked d fresh) moves) (refused (pick_key d) i)
