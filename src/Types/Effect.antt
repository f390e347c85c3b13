-- ===== src/Types/Effect.antt =====
-- Asynchronous code as explicit state passing. `W` is the world outside: clocks, network, caches.
-- An `await` that rejects, or a `throw`, is `thrown` with the value that is thrown; what it did to
-- the world stays done.
use verifier_core.Shared.{Bool, ℕ, String, Option, ◌≡◌, refl, sym, ap, ◌∙◌}
use verifier_core.Json.{Json}

pub data Attempt {ℓ} (A : Type ℓ) : Type ℓ where
  done : A → Attempt A
  thrown : Json → Attempt A

abbrev pub Action : Type 0 → Type 0 → Type 0
Action W A = W → Attempt A × W

infixl 10 ◌>>=◌ ◌>>◌
abbrev continue : {W A B : Type 0} → Attempt A → (A → Action W B) → Action W B
continue (done a) f w = f a w
continue (thrown e) f w = (thrown e, w)

continue-done :
    {W A B : Type 0} (r : Attempt A) (f : A → Action W B) (w : W) {b : B}
    → (continue r f w).0 ≡ done b
    → (a : A) × (r ≡ done a) × (continue r f w ≡ f a w)
continue-done (done a) f w e = (a, refl, refl)
continue-done (thrown x) f w e = absurd (cc)

abbrev pub ◌>>=◌ : {W A B : Type 0} → Action W A → (A → Action W B) → Action W B
◌>>=◌ m f w = let (r, w') = m w in continue r f w'

abbrev pub ◌>>◌ : {W A B : Type 0} → Action W A → Action W B → Action W B
m >> n = m >>= λ _. n

abbrev pub pure : {W A : Type 0} → A → Action W A
pure a w = (done a, w)

-- A block that returns has returned at its first step.
pub >>=-done :
    {W A B : Type 0} (m : Action W A) (f : A → Action W B) (w : W) {b : B}
    → ((m >>= f) w).0 ≡ done b
    → (a : A) × ((m w).0 ≡ done a) × ((m >>= f) w ≡ f a (m w).1)
>>=-done m f w = continue-done (m w).0 f (m w).1

-- What a block answers, its second step answers where the first one has returned.
pub >>=-answer :
    {W A B : Type 0} (m : Action W A) (f : A → Action W B) (w : W) {b : B}
    → ((m >>= f) w).0 ≡ done b
    → (a : A) × ((m w).0 ≡ done a) × ((f a (m w).1).0 ≡ done b)
>>=-answer m f w h =
    let (a, returned, e) = >>=-done m f w h in (a, returned, sym (ap (λ r. r.0) e) ∙ h)

-- `TimeService`: both clocks, read from the world. A reading is a number of clock ticks.
pub record TimeService (W : Type 0) : Type 0 where
  pub date_now_ms : W → ℕ × W
  pub performance_now_ms : W → ℕ × W

-- What the source takes from the JavaScript runtime: the global clocks, `Date.prototype.toISOString`
-- and the instant of `new Date(text)` (`none` for an invalid date). An instant is counted in
-- milliseconds from the earliest one that a `Date` holds, so it is a natural number.
pub record Platform (W : Type 0) : Type 0 where
  pub clock : TimeService W
  pub to_iso_string : ℕ → String
  pub parse_date : String → Option ℕ

-- Tests on texts that the source takes from elsewhere: whether `new URL(s)` accepts a text, and whether
-- the `dateRegex` of `@interop/vc` matches it.
pub record TextTests : Type 0 where
  pub accepts_url : String → Bool
  pub is_date_time : String → Bool
