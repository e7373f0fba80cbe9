-- ===== src/Proxy/Errors/Refusals.antt =====
-- internal/proxy/errors.go, internal/directive/issues.go: the answer to a request whose directives are
-- refused.
use tls_impersonate_proxy.Base.{
  ℕ, ◌≡◌, refl, ◌≢◌, false, List, [], ◌∷◌, map, length, arith, All, ◌∙◌,
}
use tls_impersonate_proxy.Text.{Text, text, text_eq, text_eq_refl}
use tls_impersonate_proxy.Assoc.{lookup}
use tls_impersonate_proxy.Http.{
  content_length_lem, Header, canonical, values, set, add, lookup-set, lookup-add,
}
use tls_impersonate_proxy.Directive.Types.{Issue, issue_text, single_line, single_char}
use tls_impersonate_proxy.Text.{itoa}
use tls_impersonate_proxy.Proxy.Status.{status_text}
use tls_impersonate_proxy.Proxy.Errors.{no_status, add_issues, issue_headers, synthetic, teapot}
use tls_impersonate_proxy.Proxy.Errors.Laws.{
  add_issues-values, x_tip_error_lem, x_tip_error_count_lem, proxy_status_lem,
}

abbrev pub IsOneLine : Text → Type 0
IsOneLine s = All (λ c. (c ≢ 10) × (c ≢ 13)) s

single_line-IsOneLine : (s : Text) → IsOneLine (single_line s)
unfolding single_line
single_line-IsOneLine [] = tt
single_line-IsOneLine (c ∷ s) = (char c, single_line-IsOneLine s)
  where
    char : (c : ℕ) → (single_char c ≢ 10) × (single_char c ≢ 13)
    char c = (λ e. ground arith, λ e. ground arith)

shown-IsOneLine : (is : List Issue) → All IsOneLine (map (λ i. single_line (issue_text i)) is)
shown-IsOneLine [] = tt
shown-IsOneLine (i ∷ is) = (single_line-IsOneLine (issue_text i), shown-IsOneLine is)

-- A name that is canonical and is not the one that is set keeps its values.
values-set_other :
    (name value : Text) (h : Header) (n : Text)
    → text_eq (canonical name) (canonical n) ≡ false
    → values (set name value h) n ≡ values h n
unfolding values
values-set_other name value h n e = ground (arith, lookup-set name value h (canonical n))

values-add_other :
    (name value : Text) (h : Header) (n : Text)
    → text_eq (canonical name) (canonical n) ≡ false
    → values (add name value h) n ≡ values h n
unfolding values
values-add_other name value h n e = ground (arith, lookup-add name value h (canonical n))

values-set : (name value : Text) (h : Header) → values (set name value h) name ≡ value ∷ []
unfolding values
values-set name value h =
    ground (arith, lookup-set name value h (canonical name), text_eq_refl (canonical name))

add_issues-count :
    (is : List Issue) (h : Header)
    → values (add_issues is h) (text "X-Tip-Error-Count") ≡ values h (text "X-Tip-Error-Count")
unfolding add_issues
add_issues-count [] h = refl
add_issues-count (i ∷ is) h =
    let v = single_line (issue_text i) in
    add_issues-count is (add (text "X-Tip-Error") v h)
    ∙ values-add_other (text "X-Tip-Error") v h (text "X-Tip-Error-Count")
        (rw (x_tip_error_lem, x_tip_error_count_lem) (unfold text_eq in refl))

values-synthetic :
    (status_text_of : ℕ → Text) (is : List Issue) (n : Text)
    → text_eq (text "Content-Length") (canonical n) ≡ false
    → text_eq (text "Proxy-Status") (canonical n) ≡ false
    → values (teapot status_text_of is).header n ≡ values (issue_headers is) n
unfolding teapot synthetic
values-synthetic status_text_of is n a b =
    let s = status_text (record no_status { err = text "http_request_denied" }) in
    values-set_other (text "Content-Length") (text "0")
      (set (text "Proxy-Status") s (issue_headers is)) n (rw content_length_lem a)
    ∙ values-set_other (text "Proxy-Status") s (issue_headers is) n (rw proxy_status_lem b)

-- A request whose directives are refused is answered 418 with one `X-Tip-Error` for each issue, in order,
-- each with the issue's text on one line, and with their number in `X-Tip-Error-Count`.
pub teapot-issues :
    (status_text_of : ℕ → Text) (is : List Issue)
    → ((teapot status_text_of is).status_code ≡ 418)
      × (values (teapot status_text_of is).header (text "X-Tip-Error")
          ≡ map (λ i. single_line (issue_text i)) is)
      × All IsOneLine (values (teapot status_text_of is).header (text "X-Tip-Error"))
      × (values (teapot status_text_of is).header (text "X-Tip-Error-Count")
          ≡ itoa (length is) ∷ [])
unfolding issue_headers
teapot-issues status_text_of is =
    let h = set (text "X-Tip-Error-Count") (itoa (length is)) [] in
    let none_before : values h (text "X-Tip-Error") ≡ [] =
      values-set_other (text "X-Tip-Error-Count") (itoa (length is)) [] (text "X-Tip-Error")
        (rw (x_tip_error_lem, x_tip_error_count_lem) (unfold text_eq in refl))
      ∙ (unfold values lookup in refl) in
    let shown : values (teapot status_text_of is).header (text "X-Tip-Error")
        ≡ map (λ i. single_line (issue_text i)) is =
      values-synthetic status_text_of is (text "X-Tip-Error")
        (rw x_tip_error_lem (unfold text_eq in refl)) (rw x_tip_error_lem (unfold text_eq in refl))
      ∙ (add_issues-values is h ∙ rw none_before refl) in
    (
      unfold teapot synthetic in refl,
      shown,
      rw shown (shown-IsOneLine is),
      values-synthetic status_text_of is (text "X-Tip-Error-Count")
            (rw x_tip_error_count_lem (unfold text_eq in refl))
            (rw x_tip_error_count_lem (unfold text_eq in refl))
          ∙ (add_issues-count is h ∙ values-set (text "X-Tip-Error-Count") (itoa (length is)) []),
    )
