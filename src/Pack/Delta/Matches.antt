-- ===== src/Pack/Delta/Matches.antt =====
-- Proofs about the search of src/lib/pack/delta.ts: a match is one, whatever the index.
use just_git.Base.{
  ℕ, zero, suc, ◌+◌, ◌-◌, ◌≤◌, ◌≡◌, refl, ap, min, List, [], ◌∷◌, length, take, drop, ltb, leb,
  ◌==◌, arith, Bool-cases, ==_iff, inl, inr,
}
use just_git.Pack.Sizes.{Bytes}
use just_git.Pack.Delta.Match.{BlockEntry, Match, match_len, try_entry, find_match}

-- The source from `moff` on and the rest of the target agree on `msize` bytes.
pub record Matches (src rest : Bytes) (m : Match) : Type 0 where
  pub in_src : m.moff + m.msize ≤ length src
  pub in_rest : m.msize ≤ length rest
  pub agree : take m.msize (drop m.moff src) ≡ take m.msize rest

match_len-le : (n : ℕ) (a b : Bytes) → match_len n a b ≤ n
unfolding match_len
match_len-le zero a b = omega arith
match_len-le (suc n) [] b = omega arith
match_len-le (suc n) (x ∷ a) [] = omega arith
match_len-le (suc n) (x ∷ a) (y ∷ b) = ground (arith, match_len-le n a b)

take-match_len : (n : ℕ) (a b : Bytes) → take (match_len n a b) a ≡ take (match_len n a b) b
unfolding match_len
take-match_len zero a b = refl
take-match_len (suc n) [] b = refl
take-match_len (suc n) (x ∷ a) [] = refl
take-match_len (suc n) (x ∷ a) (y ∷ b) = elim (Bool-cases (x == y)) [
  | inl e ↦
      rw e (rw (take-match_len n a b) (ap (λ z. z ∷ take (match_len n a b) b) ((==_iff x y).0 e)))
  | inr e ↦ rw e
]

try_entry-Matches :
    (src rest : Bytes) (val : ℕ) (e : BlockEntry) (m : Match)
    → Matches src rest m
    → Matches src rest (try_entry src rest val e m).1
unfolding try_entry
try_entry-Matches src rest val e m h =
    let size = min (length src - e.ptr) (length rest) in
    let n = match_len size (drop e.ptr src) rest in
    elim (Bool-cases (e.val == val)) [
      | inr k ↦ rw k h
      | inl k ↦ rw k (elim (Bool-cases (leb size m.msize)) [
        | inl l ↦ rw l h
        | inr l ↦ rw l (elim (Bool-cases (ltb m.msize n)) [
          | inr g ↦ rw g h
          | inl g ↦ rw g (record {
            in_src = ground (arith, match_len-le size (drop e.ptr src) rest);
            in_rest = ground (arith, match_len-le size (drop e.ptr src) rest);
            agree = take-match_len size (drop e.ptr src) rest;
          })
        ])
      ])
    ]

pub find_match-Matches :
    (src rest : Bytes) (val : ℕ) (es : List BlockEntry) (m : Match)
    → Matches src rest m
    → Matches src rest (find_match src rest val es m)
unfolding find_match
find_match-Matches src rest val [] m h = h
find_match-Matches src rest val (e ∷ es) m h =
    let tried = try_entry-Matches src rest val e m h in
    elim (Bool-cases (try_entry src rest val e m).0) [
      | inl k ↦ rw k tried
      | inr k ↦ rw k (find_match-Matches src rest val es (try_entry src rest val e m).1 tried)
    ]
