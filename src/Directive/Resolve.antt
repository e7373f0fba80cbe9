-- ===== src/Directive/Resolve.antt =====
-- internal/directive/directive.go: `Resolve` chooses one browser and one OS for a request.
-- The random numbers are an argument: the results of the first and of the second call of `pick`.
pub mod Laws
use tls_impersonate_proxy.Base.{
  ℕ, zero, suc, Bool, true, false, not, Option, none, some, List, [], ◌∷◌, length, is_nil, keep,
  if◌then◌else◌, ◌>>=◌,
}
use tls_impersonate_proxy.Text.{Text, text, contains_text}
use tls_impersonate_proxy.Directive.Types.{Directive}

pub record Picks : Type 0 where
  pub first : ℕ → ℕ
  pub second : ℕ → ℕ

-- `choose`
unfoldable pub choose : List Text → List Text → List Text
choose want available =
    if is_nil want
    then available
    else if contains_text want (text "random")
    then available
    else keep (contains_text available) want

-- An index out of range is a panic.
unfoldable pub get_elem? : List Text → ℕ → Option Text
get_elem? [] i = none
get_elem? (t ∷ ts) zero = some t
get_elem? (t ∷ ts) (suc i) = get_elem? ts i

module _ (browsers : List Text) (oses : Text → List Text) where
  -- The browsers that `DeleteFunc` leaves.
  unfoldable pub pool_of : Directive → List Text
  unfolding choose
  pool_of d = keep (λ b. not (is_nil (choose d.os (oses b)))) (choose d.browser browsers)

  -- `d.Os`, once the browser is chosen; `none` is a panic.
  unfoldable pub resolve_os : Picks → List Text → Text → Option (List Text)
  unfolding get_elem? choose
  resolve_os picks [] browser = some []
  resolve_os picks (o ∷ os) browser = do
    let choices = choose (o ∷ os) (oses browser)
    chosen ← get_elem? choices (picks.second (length choices))
    some (chosen ∷ [])

  unfoldable pub resolve : Picks → Directive → Option (Directive × Bool)
  unfolding pool_of resolve_os get_elem?
  resolve picks d =
      if is_nil d.browser
      then some (d, true)
      else if is_nil (pool_of d)
      then some (d, false)
      else (do
        browser ← get_elem? (pool_of d) (picks.first (length (pool_of d)))
        os ← resolve_os picks d.os browser
        some (record d { browser = browser ∷ []; os = os }, true))
