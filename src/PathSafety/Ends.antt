-- ===== src/PathSafety/Ends.antt =====
-- The first and the last unit of a text.
use just_git.Base.{ℕ, ◌≡◌, refl, false, [], ◌∷◌, ◌++◌, arith, Text, includes_unit, ◌<◌, length}
use just_git.PathSafety.{first_is, last_is}

pub first_is-includes_unit : (u : ℕ) (s : Text) → includes_unit u s ≡ false → first_is u s ≡ false
unfolding first_is includes_unit
first_is-includes_unit u [] h = refl
first_is-includes_unit u (x ∷ s) h = ground arith

pub last_is-includes_unit : (u : ℕ) (s : Text) → includes_unit u s ≡ false → last_is u s ≡ false
unfolding last_is includes_unit
last_is-includes_unit u [] h = refl
last_is-includes_unit u (x ∷ []) h = ground arith
last_is-includes_unit u (x ∷ y ∷ s) h = last_is-includes_unit u (y ∷ s) (ground arith)

pub last_is-append : (u : ℕ) (a b : Text) → 0 < length b → last_is u (a ++ b) ≡ last_is u b
unfolding last_is
last_is-append u a [] h = absurd (omega arith)
last_is-append u [] (y ∷ b) h = refl
last_is-append u (x ∷ []) (y ∷ b) h = refl
last_is-append u (x ∷ z ∷ a) (y ∷ b) h = last_is-append u (z ∷ a) (y ∷ b) h
