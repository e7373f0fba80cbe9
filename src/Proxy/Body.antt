-- ===== src/Proxy/Body.antt =====
-- internal/proxy/body.go: the request's body, which counts what is read of it and can be handed to a second
-- attempt while nothing was. A read returns some number of bytes, which is an argument, and no more than the
-- body still has.
use tls_impersonate_proxy.Base.{
  ℕ, zero, suc, ◌+◌, ◌≡◌, refl, ◌↔◌, inl, inr, Bool, false, ◌||◌, Option, none, some, List, [], ◌∷◌,
  ltb, leb, length, if◌then◌else◌, arith, Bool-cases, ◌≤◌,
}
use tls_impersonate_proxy.Text.{Text}

pub record Replayable : Type 0 where
  pub rest : Text
  pub consumed : Bool
  pub counted : ℕ

abbrev pub new_body : Text → Replayable
new_body bytes = record { rest = bytes; consumed = false; counted = 0 }

unfoldable pub skip : ℕ → Text → Text
skip zero s = s
skip (suc n) [] = []
skip (suc n) (c ∷ s) = skip n s

abbrev pub min : ℕ → ℕ → ℕ
min a b = if leb a b then a else b

-- `replayable.Read` over `countingBody.Read`.
unfoldable pub read : ℕ → Replayable → Replayable
read n b =
    let n' = min n (length b.rest) in
    record { rest = skip n' b.rest; consumed = b.consumed || ltb 0 n'; counted = b.counted + n' }

unfoldable pub reads : List ℕ → Replayable → Replayable
reads [] b = b
reads (n ∷ ns) b = reads ns (read n b)

-- `replay`; `none` is `errBodyConsumed`.
unfoldable pub replay : Replayable → Option Replayable
replay b = if b.consumed then none else some b

length-skip : (n : ℕ) (s : Text) → n ≤ length s → n + length (skip n s) ≡ length s
unfolding skip
length-skip zero s h = omega arith
length-skip (suc n) [] h = absurd (omega arith)
length-skip (suc n) (c ∷ s) h = ground (arith, length-skip n s)

-- What is read of a body and what is left make up the whole; nothing is marked as read while all is left.
abbrev Whole : Text → Replayable → Type 0
Whole bytes b =
    (b.counted + length b.rest ≡ length bytes)
    × (b.consumed ≡ false → b.rest ≡ bytes)
    × (b.consumed ≡ ltb 0 b.counted)

take-Whole :
    (bytes : Text) (m : ℕ) (b : Replayable)
    → m ≤ length b.rest
    → Whole bytes b
    → Whole bytes
        (record { rest = skip m b.rest; consumed = b.consumed || ltb 0 m; counted = b.counted + m })
take-Whole bytes m b le (a, c, d) =
    (ground (arith, length-skip m b.rest le), λ h. kept m h, ground arith)
  where
    kept : (m : ℕ) → (b.consumed || ltb 0 m) ≡ false → skip m b.rest ≡ bytes
    kept zero h = unfold skip in c (ground arith)
    kept (suc m) h = absurd (ground arith)

reads-Whole :
    (bytes : Text) (ns : List ℕ) (b : Replayable) → Whole bytes b → Whole bytes (reads ns b)
unfolding reads read
reads-Whole bytes [] b w = w
reads-Whole bytes (n ∷ ns) b w =
    reads-Whole bytes ns (read n b) (take-Whole bytes (min n (length b.rest)) b (ground arith) w)

-- However a request's body was read, the counter holds the number of bytes that are gone from it. The body
-- is handed to a second attempt exactly if that number is 0, and the second attempt then gets it whole.
pub replay-reads :
    (bytes : Text) (ns : List ℕ)
    → ((reads ns (new_body bytes)).counted + length (reads ns (new_body bytes)).rest ≡ length bytes)
      × (((b : Replayable) × (replay (reads ns (new_body bytes)) ≡ some b))
          ↔ ((reads ns (new_body bytes)).counted ≡ 0))
      × ((b : Replayable) → replay (reads ns (new_body bytes)) ≡ some b → b.rest ≡ bytes)
unfolding replay
replay-reads bytes ns =
    let b = reads ns (new_body bytes) in
    let (a, c, d) = reads-Whole bytes ns (new_body bytes) (omega arith, λ h. refl, refl) in
    elim (Bool-cases b.consumed) [
      | inl gone ↦ (
        a,
        (λ (x, e). absurd (ground arith), λ z. absurd (ground arith)),
        λ x e. absurd (ground arith),
      )
      | inr all_left ↦ (
        a,
        (λ (x, e). ground arith, λ z. (b, rw all_left refl)),
        λ x e. (let same : b ≡ x = ground arith in rw (← same) (c all_left)),
      )
    ]
