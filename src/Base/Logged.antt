-- ===== src/Base/Logged.antt =====
-- Routines that make outside calls: a log of type `L`, the calls so far, is their state.
abbrev pub Logged {ℓ} : Type 0 → Type ℓ → Type ℓ
Logged L A = L → A × L

abbrev pub pure {ℓ} : {L : Type 0} {A : Type ℓ} → A → Logged L A
pure a l = (a, l)

infixl 5 ◌>>=◌ ◌>>◌
abbrev pub ◌>>=◌ {ℓ κ} :
    {L : Type 0} {A : Type ℓ} {B : Type κ} → Logged L A → (A → Logged L B) → Logged L B
◌>>=◌ m f l = f (m l).0 (m l).1

abbrev pub ◌>>◌ {ℓ κ} :
    {L : Type 0} {A : Type ℓ} {B : Type κ} → Logged L A → Logged L B → Logged L B
m >> k = m >>= λ _. k
