-- ===== src/Objects/Names.antt =====
-- Proofs about src/lib/objects/tree.ts and src/lib/path-safety.ts: the names in a tree that was parsed.
use just_git.Base.{
  ℕ, zero, suc, ◌≡◌, refl, true, Option, none, some, List, [], ◌∷◌, arith, Text, split_part, subst,
  length, take, drop, All,
}
use just_git.PathSafety.{is_safe_component, all_components, verify_path}
use just_git.PathSafety.Ends.{first_is-includes_unit, last_is-includes_unit}
use just_git.Objects.Hex.{Bytes, bytes_to_hex}
use just_git.Objects.Tree.{
  TreeEntry, TreeError, Parsed, tree, failed, stuck, validate_tree_entry, cut, pad_mode, cons_entry,
  push_entry, parse_entries, parse_tree,
}

validate-verify_path :
    (name mode : Text) → validate_tree_entry name mode ≡ none → verify_path name ≡ true
unfolding validate_tree_entry verify_path is_safe_component all_components
validate-verify_path name mode h =
    ground (
      arith,
      first_is-includes_unit 0x2f name,
      last_is-includes_unit 0x2f name,
      split_part 0x2f name,
    )

-- Every name is accepted as a path.
abbrev AreSafe : Parsed → Type 0
AreSafe (tree entries) = All (λ e. verify_path e.name ≡ true) entries
AreSafe (failed x) = Unit
AreSafe stuck = Unit

push_entry-AreSafe : (e : TreeEntry) (rest : Parsed) → AreSafe rest → AreSafe (push_entry e rest)
unfolding push_entry cons_entry
push_entry-AreSafe e rest h =
    by_error (validate_tree_entry e.name e.mode) (validate-verify_path e.name e.mode) rest h
  where
    by_error :
        (x : Option TreeError)
        → (x ≡ none → verify_path e.name ≡ true)
        → (rest : Parsed) → AreSafe rest
        → AreSafe (elim x as (λ _. Parsed) [ some t ↦ failed t | none ↦ cons_entry e rest ])
    by_error (some t) v rest h = tt
    by_error none v (tree es) h = (v refl, h)
    by_error none v (failed t) h = tt
    by_error none v stuck h = tt

parse_entries-AreSafe :
    (decode : Bytes → Text) (fuel : ℕ) (content : Bytes)
    → AreSafe (parse_entries decode fuel content)
unfolding parse_entries
parse_entries-AreSafe decode fuel [] = tt
parse_entries-AreSafe decode zero (b ∷ content) = tt
parse_entries-AreSafe decode (suc fuel) (b ∷ content) =
    by_cut (cut 0x20 (b ∷ content)) (λ s. parse_entries-AreSafe decode fuel s)
  where
    by_name :
        (m : Bytes) (c : Option (Bytes × Bytes))
        → ((s : Bytes) → AreSafe (parse_entries decode fuel s))
        → AreSafe (elim c as (λ _. Parsed) [
          | none ↦ tree []
          | some n ↦
              push_entry
                (record {
                  mode = pad_mode (decode m);
                  name = decode n.0;
                  hash = bytes_to_hex (take 20 n.1);
                })
                (parse_entries decode fuel (drop 20 n.1))
        ])
    by_name m none ih = tt
    by_name m (some n) ih = push_entry-AreSafe _ _ (ih (drop 20 n.1))

    by_cut :
        (c : Option (Bytes × Bytes))
        → ((s : Bytes) → AreSafe (parse_entries decode fuel s))
        → AreSafe (elim c as (λ _. Parsed) [
          | none ↦ tree []
          | some m ↦ elim (cut 0 m.1) as (λ _. Parsed) [
            | none ↦ tree []
            | some n ↦
                push_entry
                  (record {
                    mode = pad_mode (decode m.0);
                    name = decode n.0;
                    hash = bytes_to_hex (take 20 n.1);
                  })
                  (parse_entries decode fuel (drop 20 n.1))
          ]
        ])
    by_cut none ih = tt
    by_cut (some m) ih = by_name m.0 (cut 0 m.1) ih

-- Whatever the bytes and the decoder, verifyPath accepts each name in a tree that is parsed.
pub parse_tree-verify_path :
    (decode : Bytes → Text) (content : Bytes) (entries : List TreeEntry)
    → parse_tree decode content ≡ tree entries
    → All (λ e. verify_path e.name ≡ true) entries
unfolding parse_tree
parse_tree-verify_path decode content entries h =
    subst AreSafe h (parse_entries-AreSafe decode (length content) content)
