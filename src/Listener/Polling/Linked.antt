-- ===== src/Listener/Polling/Linked.antt =====
-- Calls of `select` one after the other, each with the timeout that the one before has left.
use desert_addon_uwapp_net.Common.{
  ℕ, ◌+◌, ◌-◌, ◌≤◌, ◌≡◌, sym, subst, List, [], ◌∷◌, ◌++◌, arith, All, ◌==◌, if◌then◌else◌,
  Bool-cases, inl, inr,
}
use desert_addon_uwapp_net.Listener.Polling.{Poll}

-- the time that these calls have waited
abbrev pub waited : List Poll → ℕ
waited [] = 0
waited (p ∷ ps) = (p.given - p.left) + waited ps

-- Each call is given what the one before has left: from `t` to `t'`.
abbrev pub Linked : ℕ → List Poll → ℕ → Type 0
Linked t [] t' = t ≡ t'
Linked t (p ∷ ps) t' =
    (p.given ≡ t) × (p.left ≤ p.given) × (p.result ≡ 0 → p.left ≡ 0) × Linked p.left ps t'

pub Linked-append :
    (t : ℕ) (ps : List Poll) (t₁ : ℕ) (qs : List Poll) (t' : ℕ)
    → Linked t ps t₁
    → Linked t₁ qs t'
    → Linked t (ps ++ qs) t'
Linked-append t [] t₁ qs t' h k = subst (λ x. Linked x qs t') (sym h) k
Linked-append t (p ∷ ps) t₁ qs t' h k = (h.0, h.1, h.2, Linked-append p.left ps t₁ qs t' h.3 k)

pub Linked-waited : (t : ℕ) (ps : List Poll) (t' : ℕ) → Linked t ps t' → waited ps + t' ≡ t
Linked-waited t [] t' h = omega arith
Linked-waited t (p ∷ ps) t' h = omega (arith, h.0, h.1, Linked-waited p.left ps t' h.3)

-- Once the timeout is used up, it is so for all the calls.
Linked-zero : (ps : List Poll) (t' : ℕ) → Linked 0 ps t' → All (λ p. p.given ≡ 0) ps
Linked-zero [] t' h = tt
Linked-zero (p ∷ ps) t' h =
    let spent : p.left ≡ 0 = omega (arith, h.0, h.1) in
    (h.0, Linked-zero ps t' (subst (λ x. Linked x ps t') spent h.3))

-- the calls after the first that ran out of time
abbrev pub after_idle : List Poll → List Poll
after_idle [] = []
after_idle (p ∷ ps) = if p.result == 0 then ps else after_idle ps

pub Linked-idle :
    (t : ℕ) (ps : List Poll) (t' : ℕ) → Linked t ps t' → All (λ q. q.given ≡ 0) (after_idle ps)
Linked-idle t [] t' h = tt
Linked-idle t (p ∷ ps) t' h = elim (Bool-cases (p.result == 0)) [
  | inl idle ↦
      let spent : p.left ≡ 0 = h.2 (ground (arith, idle)) in
      rw idle (Linked-zero ps t' (subst (λ x. Linked x ps t') spent h.3))
  | inr busy ↦ rw busy (Linked-idle p.left ps t' h.3)
]
