-- ===== src/Gateway/Routing/Takes.antt =====
-- Whose messages a take from a distributed queue comes back with.
use ryuk_dpq.Base.{ℕ, ◌≡◌, String, Bool, false, not, List, [], ◌∷◌, ◌⊎◌, ltb, if◌then◌else◌, All}
use ryuk_dpq.Base.Int.{ℤ}
use ryuk_dpq.Gateway.Routing.{Code, Answer, answered, refused, Owner, above, same_top, asked_before}

-- The first is not asked before the second.
abbrev NotBefore : Owner → Owner → Type 0
NotBefore a b = asked_before a b ≡ false

abbrev goes : ℤ → ℕ → ℤ → ℕ → Bool
goes t s u r = if not (same_top t u) then above t u else ltb r s

-- Each is asked after no owner that is to be asked before it.
abbrev IsRanked : List Owner → Type 0
IsRanked [] = Unit
IsRanked (a ∷ as') = All (λ b. NotBefore b a) as' × IsRanked as'

module _ {A : Type 0} (ask : String → Answer (List A)) where
  -- The owner has none, or fails.
  abbrev pub GivesNone : Owner → Type 0
  GivesNone o = (ask o.addr ≡ answered []) ⊎ ((c : Code) × (ask o.addr ≡ refused c))

  -- The messages are those of an owner; of the others, each that goes before it gives none.
  abbrev pub TakesFrom : List Owner → Answer (List A) → Type 0
  TakesFrom os r =
      (o : Owner) × (m : A) × (ms : List A) × (ask o.addr ≡ answered (m ∷ ms))
      × (r ≡ answered (m ∷ ms))
      × All (λ p. GivesNone p ⊎ (asked_before p o ≡ false)) os

  -- Nobody has any; it is an error only where nobody answered and somebody failed.
  abbrev pub TakesNothing : List Owner → Answer (List A) → Type 0
  TakesNothing os r =
      All GivesNone os
      × ((r ≡ answered [])
          ⊎ ((c : Code) × (r ≡ refused c) × All (λ p. (d : Code) × (ask p.addr ≡ refused d)) os))

  abbrev AllRefuse : List Owner → Type 0
  AllRefuse os = All (λ p. (d : Code) × (ask p.addr ≡ refused d)) os

  abbrev Loops : List Owner → ℕ → Answer (List A) → Type 0
  Loops os n r =
      TakesFrom os r
      ⊎ (All GivesNone os
          × ((r ≡ answered []) ⊎ ((c : Code) × (r ≡ refused c) × AllRefuse os × (n ≡ 0))))
