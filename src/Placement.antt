-- ===== src/Placement.antt =====
-- backend/gateway/entity/model-member.go: rendezvous hashing, which node owns a queue or a slot.
pub mod Ranking
pub mod Keys
pub mod Tests
use Prim.Native.Nat.{bit_xor}
use ryuk_dpq.Base.{
  ℕ, zero, suc, ◌+◌, ◌*◌, ◌/◌, ◌%◌, ◌^◌, ◌≡◌, String, Bool, true, false, not, ◌&&◌, ◌||◌, Option,
  none, some, List, [], ◌∷◌, ◌++◌, ◌==◌, ltb, leb, if◌then◌else◌, length, take,
}
use ryuk_dpq.Base.Int.{ℤ, pos, negsuc}
use ryuk_dpq.Slotting.{utf8, sum64}

pub record Member : Type 0 where
  pub id : String
  pub addr : String

unfoldable pub hash64 : String → ℕ
hash64 s = sum64 (utf8 s)

-- splitmix64 of the two hashes; a shift right by k is a division by 2 ^ k.
unfoldable pub mix : ℕ → ℕ → ℕ
mix a b =
    let x0 = bit_xor a (b * 0x9e3779b97f4a7c15 % 2 ^ 64) % 2 ^ 64 in
    let x1 = bit_xor x0 (x0 / 2 ^ 30) % 2 ^ 64 * 0xbf58476d1ce4e5b9 % 2 ^ 64 in
    let x2 = bit_xor x1 (x1 / 2 ^ 27) % 2 ^ 64 * 0x94d049bb133111eb % 2 ^ 64 in
    bit_xor x2 (x2 / 2 ^ 31) % 2 ^ 64

unfoldable pub score : ℕ → Member → ℕ
unfolding mix hash64
score kh m = mix kh (hash64 m.id)

-- The best member so far, with its score: a member replaces it where it scores more.
unfoldable pub challenge : ℕ → Option (Member × ℕ) → Member → Option (Member × ℕ)
challenge kh none m = some (m, score kh m)
challenge kh (some (b, t)) m = if ltb t (score kh m) then some (m, score kh m) else some (b, t)

unfoldable pub best_of : ℕ → Option (Member × ℕ) → List Member → Option (Member × ℕ)
best_of kh best [] = best
best_of kh best (m ∷ ms) = best_of kh (challenge kh best m) ms

unfoldable pub winner : Option (Member × ℕ) → Option Member
winner none = none
winner (some (b, t)) = some b

unfoldable pub owner_for : String → List Member → Option Member
owner_for key members = winner (best_of (hash64 key) none members)

-- The order of the ranking: more score first, and by identifier where the scores are equal. The
-- order of the identifiers is an argument.
unfoldable pub ranks_before : (String → String → Bool) → ℕ → Member → Member → Bool
ranks_before less kh m n =
    if not (score kh m == score kh n) then ltb (score kh n) (score kh m) else less m.id n.id

unfoldable pub rank_insert : (String → String → Bool) → ℕ → Member → List Member → List Member
rank_insert less kh m [] = m ∷ []
rank_insert less kh m (n ∷ ns) =
    if ranks_before less kh n m then n ∷ rank_insert less kh m ns else m ∷ n ∷ ns

unfoldable pub rank : (String → String → Bool) → ℕ → List Member → List Member
rank less kh [] = []
rank less kh (m ∷ ms) = rank_insert less kh m (rank less kh ms)

-- `width <= 0 || width >= len(members)` keeps all of them.
unfoldable pub candidates_for : (String → String → Bool) → String → List Member → ℤ → List Member
candidates_for less key members (negsuc w) = members
candidates_for less key members (pos w) =
    if w == 0 || leb (length members) w then members else take w (rank less (hash64 key) members)
