-- ===== src/Directive/Resolve/Laws.antt =====
-- internal/directive/directive.go: what `Resolve` may choose, when it refuses, and that it never
-- indexes out of range.
use tls_impersonate_proxy.Base.{
  ℕ, zero, suc, ◌<◌, ◌≡◌, refl, ◌≢◌, ◌⊎◌, ◌↔◌, inl, inr, Bool, true, false, not, some, List, [],
  ◌∷◌, arith, length, is_nil, keep, Bool-cases, List-cases,
}
use tls_impersonate_proxy.Text.{Text, text, text_eq_refl, contains_text, In, In-keep, keep-In}
use tls_impersonate_proxy.Directive.Types.{Directive}
use tls_impersonate_proxy.Directive.Resolve.{Picks, choose, get_elem?, pool_of, resolve_os, resolve}

-- `pick(n)` is below `n`, as `rand.IntN` promises of a positive `n`.
pub record InRange (picks : Picks) : Type 0 where
  pub first : (n : ℕ) → 0 < n → picks.first n < n
  pub second : (n : ℕ) → 0 < n → picks.second n < n

get_elem?-In : (ts : List Text) (i : ℕ) {t : Text} → get_elem? ts i ≡ some t → In ts t
unfolding get_elem? contains_text
get_elem?-In [] i h = absurd (ground arith)
get_elem?-In (s ∷ ss) zero {t} h = ground (arith, text_eq_refl t)
get_elem?-In (s ∷ ss) (suc i) {t} h = ground (arith, get_elem?-In ss i {t = t})

get_elem?_total : (ts : List Text) (i : ℕ) → i < length ts → (t : Text) × (get_elem? ts i ≡ some t)
unfolding get_elem?
get_elem?_total [] i h = absurd (omega arith)
get_elem?_total (s ∷ ss) zero h = (s, refl)
get_elem?_total (s ∷ ss) (suc i) h = get_elem?_total ss i (omega arith)

-- A choice among the wanted names is available, and wanted, or `random` is wanted.
abbrev pub Fair : List Text → List Text → Text → Type 0
Fair want available t = In available t × (In want t ⊎ In want (text "random"))

choose-Fair :
    (want available : List Text) (t : Text)
    → want ≢ []
    → In (choose want available) t
    → Fair want available t
unfolding choose
choose-Fair [] available t n h = absurd (n refl)
choose-Fair (w ∷ ws) available t n h = elim (Bool-cases (contains_text (w ∷ ws) (text "random"))) [
  | inl wild ↦ (ground arith, inr wild)
  | inr named ↦
      let (i, a) = In-keep (contains_text available) (w ∷ ws) t (ground arith) in (a, inl i)
]

keep_empty :
    (p : Text → Bool) (ts : List Text) → ((t : Text) → In ts t → p t ≡ false) → keep p ts ≡ []
unfolding contains_text
keep_empty p [] h = refl
keep_empty p (s ∷ ss) h =
    ground
      (arith, h s (ground (arith, text_eq_refl s)), keep_empty p ss (λ t i. h t (ground arith)))

In-nil : (ts : List Text) (t : Text) → is_nil ts ≡ true → In ts t → ⊥
unfolding contains_text
In-nil [] t e h = ground arith
In-nil (s ∷ ss) t e h = ground arith

module _ (browsers : List Text) (oses : Text → List Text) (picks : Picks) (d : Directive) where
  -- What a resolved directive is: one browser, and one OS exactly where OSes were named.
  pub record IsResolved (r : Directive) : Type 0 where
    pub browser : Text
    pub one_browser : r.browser ≡ browser ∷ []
    pub fair_browser : Fair d.browser browsers browser
    pub one_os :
        ((d.os ≡ []) × (r.os ≡ [])) ⊎ ((os : Text) × (r.os ≡ os ∷ []) × Fair d.os (oses browser) os)
    pub rest : record r { browser = d.browser; os = d.os } ≡ d

  resolve_os-Fair :
      (os : List Text) (b : Text)
      → InRange picks
      → choose os (oses b) ≢ []
      → (chosen : List Text) × (resolve_os browsers oses picks os b ≡ some chosen)
        × (((os ≡ []) × (chosen ≡ [])) ⊎ ((o : Text) × (chosen ≡ o ∷ []) × Fair os (oses b) o))
  unfolding resolve_os
  resolve_os-Fair [] b r h = ([], refl, inl (refl, refl))
  resolve_os-Fair (w ∷ ws) b r h =
      let choices = choose (w ∷ ws) (oses b) in
      let (o, e) =
        get_elem?_total choices (picks.second (length choices))
          (r.second (length choices) (pos choices h)) in
      (
        o ∷ [],
        ground arith,
        inr (
          o,
          refl,
          choose-Fair (w ∷ ws) (oses b) o (λ p. ground arith) (get_elem?-In choices _ e),
        ),
      )
    where
      pos : (ts : List Text) → ts ≢ [] → 0 < length ts
      pos [] n = absurd (n refl)
      pos (t ∷ ts) n = omega arith

  available_os : Text → Bool
  available_os b = not (is_nil (choose d.os (oses b)))

  In-pool :
      (b : Text)
      → In (pool_of browsers oses d) b
      → In (choose d.browser browsers) b × (available_os b ≡ true)
  unfolding pool_of available_os
  In-pool b h = In-keep available_os (choose d.browser browsers) b h

  pool-In :
      (b : Text)
      → In (choose d.browser browsers) b
      → available_os b ≡ true
      → In (pool_of browsers oses d) b
  unfolding pool_of available_os
  pool-In b h q = keep-In available_os (choose d.browser browsers) b h q

  pool_empty :
      ((b : Text) → In (choose d.browser browsers) b → available_os b ≡ false)
      → pool_of browsers oses d ≡ []
  unfolding pool_of available_os
  pool_empty h = keep_empty available_os (choose d.browser browsers) h

  pub resolve_any : d.browser ≡ [] → resolve browsers oses picks d ≡ some (d, true)
  unfolding resolve
  resolve_any e = ground arith

  pub resolve_empty :
      d.browser ≢ []
      → pool_of browsers oses d ≡ []
      → resolve browsers oses picks d ≡ some (d, false)
  unfolding resolve
  resolve_empty n e = ground arith

  resolve_step :
      (b : Text) (os : List Text)
      → d.browser ≢ []
      → get_elem? (pool_of browsers oses d) (picks.first (length (pool_of browsers oses d)))
        ≡ some b
      → resolve_os browsers oses picks d.os b ≡ some os
      → pool_of browsers oses d ≢ []
      → resolve browsers oses picks d ≡ some (record d { browser = b ∷ []; os = os }, true)
  unfolding resolve
  resolve_step b os n e f p = ground arith

  -- With random numbers in range, and a pair of a wanted browser and a wanted OS that is available,
  -- `Resolve` succeeds, without an index out of range: it names one wanted and available browser, one
  -- wanted OS that is available for that browser where the request names OSes, no OS otherwise, and
  -- changes no other field.
  pub resolve-IsResolved :
      InRange picks
      → d.browser ≢ []
      → pool_of browsers oses d ≢ []
      → (r : Directive) × (resolve browsers oses picks d ≡ some (r, true)) × IsResolved r
  resolve-IsResolved range n p =
      let pool = pool_of browsers oses d in
      let (b, e) =
        get_elem?_total pool (picks.first (length pool)) (range.first (length pool) (pos pool p)) in
      let (wanted, some_os) = In-pool b (get_elem?-In pool _ e) in
      let (os, f, fair) = resolve_os-Fair d.os b range (λ q. unfold available_os in ground arith) in
      (
        record d { browser = b ∷ []; os = os },
        resolve_step b os n e f p,
        record {
          browser = b;
          one_browser = refl;
          fair_browser = choose-Fair d.browser browsers b n wanted;
          one_os = fair;
          rest = refl;
        },
      )
    where
      pos : (ts : List Text) → ts ≢ [] → 0 < length ts
      pos [] q = absurd (q refl)
      pos (t ∷ ts) q = omega arith

-- `Resolve` refuses a directive with a browser exactly if no browser that it may choose has an OS that
-- it may choose; it then hands the directive back as it was.
pub resolve-refuses_iff :
    (browsers : List Text) (oses : Text → List Text) (picks : Picks) (d : Directive)
    → InRange picks
    → d.browser ≢ []
    → (resolve browsers oses picks d ≡ some (d, false))
      ↔ ((b : Text) → In (choose d.browser browsers) b → choose d.os (oses b) ≡ [])
unfolding available_os
resolve-refuses_iff browsers oses picks d range n = (forth, back)
  where
    forth :
        resolve browsers oses picks d ≡ some (d, false)
        → (b : Text) → In (choose d.browser browsers) b
        → choose d.os (oses b) ≡ []
    forth e b i = elim (Bool-cases (is_nil (pool_of browsers oses d))) [
      | inr full ↦
          let (r, f, resolved) =
            resolve-IsResolved browsers oses picks d range n (λ q. ground arith) in
          absurd (ground arith)
      | inl empty ↦ elim (Bool-cases (available_os browsers oses picks d b)) [
        | inr none_left ↦ ground arith
        | inl some_left ↦ absurd (In-nil _ b empty (pool-In browsers oses picks d b i some_left))
      ]
    ]

    back :
        ((b : Text) → In (choose d.browser browsers) b → choose d.os (oses b) ≡ [])
        → resolve browsers oses picks d ≡ some (d, false)
    back h =
        let q = pool_empty browsers oses picks d (λ b i. rw (h b i)) in
        unfold resolve in ground arith

-- `Resolve` never indexes out of range.
pub resolve_total :
    (browsers : List Text) (oses : Text → List Text) (picks : Picks) (d : Directive)
    → InRange picks
    → (r : Directive) × (ok : Bool) × (resolve browsers oses picks d ≡ some (r, ok))
resolve_total browsers oses picks d range = elim (List-cases d.browser) [
  | inl any_browser ↦ (d, true, resolve_any browsers oses picks d any_browser)
  | inr (b, bs, named) ↦
      let n : d.browser ≢ [] = λ q. ground arith in
      elim (List-cases (pool_of browsers oses d)) [
        | inl empty ↦ (d, false, resolve_empty browsers oses picks d n empty)
        | inr (p, ps, full) ↦
            let (r, e, resolved) =
              resolve-IsResolved browsers oses picks d range n (λ q. ground arith) in
            (r, true, e)
      ]
]
