-- ===== src/Diff3/Indices.antt =====
-- `diffIndices` of src/lib/diff3.ts. An array and a position in it are what follows the position.
use just_git.Base.{
  ℕ, zero, suc, ◌+◌, Bool, true, false, ◌||◌, Option, none, some, List, [], ◌∷◌, Text, length, ltb,
  if◌then◌else◌,
}

abbrev pub Lines : Type 0
Lines = List Text

abbrev pub Flags : Type 0
Flags = List Bool

-- A flag for each line of both texts: whether it is changed.
abbrev pub ChangedLines : Type 0
ChangedLines = Lines → Lines → Flags × Flags

pub record DiffIndex : Type 0 where
  pub start_1 : ℕ
  pub length_1 : ℕ
  pub start_2 : ℕ
  pub length_2 : ℕ

-- `while (... && !changedA[iA] && !changedB[iB])`: how far it goes, and what is left.
unfoldable pub skip_matched : Flags → Flags → ℕ × Flags × Flags
skip_matched [] fb = (0, [], fb)
skip_matched (x ∷ fa) [] = (0, x ∷ fa, [])
skip_matched (true ∷ fa) (y ∷ fb) = (0, true ∷ fa, y ∷ fb)
skip_matched (false ∷ fa) (true ∷ fb) = (0, false ∷ fa, true ∷ fb)
skip_matched (false ∷ fa) (false ∷ fb) =
    let rest = skip_matched fa fb in (suc rest.0, rest.1, rest.2)

-- `while (i < n && changed[i]) i++`
unfoldable pub skip_changed : Flags → ℕ × Flags
skip_changed [] = (0, [])
skip_changed (false ∷ f) = (0, false ∷ f)
skip_changed (true ∷ f) = let rest = skip_changed f in (suc rest.0, rest.1)

unfoldable pub are_ended : Flags → Flags → Bool
are_ended [] [] = true
are_ended [] (y ∷ fb) = false
are_ended (x ∷ fa) fb = false

-- The loop. `none`: the fuel ran out, as it does where a round makes no step.
unfoldable pub diff_indices_from : ℕ → ℕ → ℕ → Flags → Flags → Option (List DiffIndex)
diff_indices_from zero i_a i_b fa fb = if are_ended fa fb then some [] else none
diff_indices_from (suc fuel) i_a i_b fa fb =
    let s = skip_matched fa fb in
    let a = skip_changed s.1 in
    let b = skip_changed s.2 in
    let index : DiffIndex = record {
      start_1 = i_a + s.0;
      length_1 = a.0;
      start_2 = i_b + s.0;
      length_2 = b.0;
    } in
    elim (are_ended s.1 s.2) as (λ _. Option (List DiffIndex)) [
      | true ↦ some []
      | false ↦
          elim (diff_indices_from fuel (i_a + s.0 + a.0) (i_b + s.0 + b.0) a.1 b.1)
            as (λ _. Option (List DiffIndex)) [
              | none ↦ none
              | some rest ↦ some (if ltb 0 a.0 || ltb 0 b.0 then index ∷ rest else rest)
            ]
    ]

unfoldable pub build_diff_indices : Flags → Flags → Option (List DiffIndex)
build_diff_indices fa fb = diff_indices_from (length fa + length fb) 0 0 fa fb

unfoldable pub diff_indices : ChangedLines → Lines → Lines → Option (List DiffIndex)
diff_indices changed [] [] = some []
diff_indices changed [] (y ∷ ys) =
    some (record { start_1 = 0; length_1 = 0; start_2 = 0; length_2 = length (y ∷ ys) } ∷ [])
diff_indices changed (x ∷ xs) [] =
    some (record { start_1 = 0; length_1 = length (x ∷ xs); start_2 = 0; length_2 = 0 } ∷ [])
diff_indices changed (x ∷ xs) (y ∷ ys) =
    let flags = changed (x ∷ xs) (y ∷ ys) in build_diff_indices flags.0 flags.1
