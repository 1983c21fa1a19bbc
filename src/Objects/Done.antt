-- ===== src/Objects/Done.antt =====
-- Proofs about the fuel of the parser in src/lib/objects/tree.ts.
use just_git.Base.{
  ℕ, zero, suc, ◌≤◌, ◌<◌, ◌≡◌, refl, Bool, true, false, Option, none, some, [], ◌∷◌, arith, Text,
  length, length-drop, take, drop,
}
use just_git.Objects.Hex.{Bytes, bytes_to_hex}
use just_git.Objects.Tree.{
  TreeEntry, TreeError, Parsed, tree, failed, stuck, validate_tree_entry, cut, pad_mode, cons_entry,
  push_entry, parse_entries, parse_tree,
}

-- A cut takes at least the byte that it looks for.
cut-length : (u : ℕ) (s : Bytes) (r : Bytes × Bytes) → cut u s ≡ some r → length r.1 < length s
unfolding cut
cut-length u [] r e = ground arith
cut-length u (b ∷ s) r e = by_cut (cut u s) refl (cut-length u s) e
  where
    by_cut :
        (c : Option (Bytes × Bytes))
        → cut u s ≡ c
        → ((q : Bytes × Bytes) → cut u s ≡ some q → length q.1 < length s)
        → cut u (b ∷ s) ≡ some r
        → length r.1 < length (b ∷ s)
    by_cut none q ih e = ground (arith, q)
    by_cut (some q) p ih e = ground (arith, p, ih q p)

abbrev pub is_stuck : Parsed → Bool
is_stuck stuck = true
is_stuck _ = false

push_entry-is_stuck :
    (e : TreeEntry) (rest : Parsed) → is_stuck rest ≡ false → is_stuck (push_entry e rest) ≡ false
unfolding push_entry
push_entry-is_stuck e rest h = by_error (validate_tree_entry e.name e.mode) rest h
  where
    by_error :
        (x : Option TreeError) (rest : Parsed)
        → is_stuck rest ≡ false
        → is_stuck (elim x as (λ _. Parsed) [ some t ↦ failed t | none ↦ cons_entry e rest ])
          ≡ false
    by_error (some t) rest h = refl
    by_error none (tree es) h = unfold cons_entry in refl
    by_error none (failed t) h = unfold cons_entry in refl
    by_error none stuck h = unfold cons_entry in h

module _ (decode : Bytes → Text) where
  -- The round behind the mode.
  after_mode : ℕ → Bytes → Option (Bytes × Bytes) → Parsed
  after_mode fuel m none = tree []
  after_mode fuel m (some n) =
      push_entry
        (record {
          mode = pad_mode (decode m);
          name = decode n.0;
          hash = bytes_to_hex (take 20 n.1);
        })
        (parse_entries decode fuel (drop 20 n.1))

  after_mode-is_stuck :
      (fuel : ℕ) (m r : Bytes) (c : Option (Bytes × Bytes))
      → cut 0 r ≡ c
      → length r ≤ fuel
      → ((s : Bytes) → length s ≤ fuel → is_stuck (parse_entries decode fuel s) ≡ false)
      → is_stuck (after_mode fuel m c) ≡ false
  unfolding after_mode
  after_mode-is_stuck fuel m r none e p ih = refl
  after_mode-is_stuck fuel m r (some n) e p ih =
      push_entry-is_stuck _ _
        (ih (drop 20 n.1) (omega (arith, length-drop 20 n.1, cut-length 0 r n e)))

  parse_entries-is_stuck :
      (fuel : ℕ) (content : Bytes)
      → length content ≤ fuel
      → is_stuck (parse_entries decode fuel content) ≡ false
  unfolding parse_entries
  parse_entries-is_stuck fuel [] p = refl
  parse_entries-is_stuck zero (b ∷ content) p = absurd (omega arith)
  parse_entries-is_stuck (suc fuel) (b ∷ content) p =
      by_cut (cut 0x20 (b ∷ content)) refl (λ s. parse_entries-is_stuck fuel s)
    where
      by_cut :
          (c : Option (Bytes × Bytes))
          → cut 0x20 (b ∷ content) ≡ c
          → ((s : Bytes) → length s ≤ fuel → is_stuck (parse_entries decode fuel s) ≡ false)
          → is_stuck (parse_entries decode (suc fuel) (b ∷ content)) ≡ false
      by_cut none e ih = rw (e, parse_entries)
      by_cut (some m) e ih =
          rw (e, parse_entries)
            (unfold after_mode in
              after_mode-is_stuck fuel m.0 m.1 (cut 0 m.1) refl
                (omega (arith, cut-length 0x20 (b ∷ content) m e)) ih)

-- On any bytes and with any decoder the parser of trees returns a tree or an error.
pub parse_tree-is_stuck :
    (decode : Bytes → Text) (content : Bytes) → is_stuck (parse_tree decode content) ≡ false
unfolding parse_tree
parse_tree-is_stuck decode content =
    parse_entries-is_stuck decode (length content) content (omega arith)
