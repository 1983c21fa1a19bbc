-- ===== src/Objects/Examples.antt =====
-- The theorems on trees at concrete bytes.
use just_git.Base.{ℕ, ◌≡◌, refl, true, false, List, [], ◌∷◌, ◌++◌, codes, All, base_functions}
use just_git.Base.ParseInt.Hex.{hex_digit}
use just_git.PathSafety.{is_dot_git, verify_path}
use just_git.Objects.Hex.{Bytes, lut, hex_of, bytes_to_hex}
use just_git.Objects.Tree.{
  TreeEntry, tree, validate_tree_entry, cut, pad_mode, cons_entry, push_entry, parse_entries,
  parse_tree, serialize_tree,
}
use just_git.Objects.ReadBack.{IsUtf8, IsWritable, parse_tree-serialize_tree}
use just_git.Objects.Names.{parse_tree-verify_path}
use just_git.Objects.Done.{is_stuck, parse_tree-is_stuck}

abbrev same : List ℕ → List ℕ
same s = s

same-IsUtf8 : IsUtf8 same same
same-IsUtf8 = record {
  encode-nil = refl;
  encode-append = λ a b c h. refl;
  encode-zero = λ s h. h;
  decode-ascii = λ s h. refl;
}

abbrev subdir : TreeEntry
subdir = record {
  mode = codes "040000";
  name = codes "lib";
  hash = codes "00112233445566778899aabbccddeeff01234567";
}

subdir-IsWritable : IsWritable same same same-IsUtf8 subdir
unfolding validate_tree_entry is_dot_git base_functions
subdir-IsWritable = (
  refl,
  (
    refl,
    refl,
    (
      refl,
      refl,
      (
        refl,
        refl,
        (
          refl,
          refl,
          (
            refl,
            refl,
            (
              refl,
              refl,
              (
                refl,
                refl,
                (
                  refl,
                  refl,
                  (
                    refl,
                    refl,
                    (
                      refl,
                      refl,
                      (
                        refl,
                        refl,
                        (
                          refl,
                          refl,
                          (
                            refl,
                            refl,
                            (
                              refl,
                              refl,
                              (
                                refl,
                                refl,
                                (
                                  refl,
                                  refl,
                                  (refl, refl, (refl, refl, (refl, refl, (refl, refl, tt)))),
                                ),
                              ),
                            ),
                          ),
                        ),
                      ),
                    ),
                  ),
                ),
              ),
            ),
          ),
        ),
      ),
    ),
  ),
  refl,
)

parse_tree-serialize_tree_example :
    parse_tree same (serialize_tree same (subdir ∷ [])) ≡ tree (subdir ∷ [])
parse_tree-serialize_tree_example =
    parse_tree-serialize_tree same same same-IsUtf8 (subdir ∷ []) (subdir-IsWritable, tt)

-- "40000 lib", a zero byte and twenty bytes of a hash.
abbrev lib_bytes : Bytes
lib_bytes =
    codes "40000 lib"
    ++ (0 ∷ 1 ∷ 2 ∷ 3 ∷ 4 ∷ 5 ∷ 6 ∷ 7 ∷ 8 ∷ 9 ∷ 10 ∷ 11 ∷ 12 ∷ 13 ∷ 14 ∷ 15 ∷ 16 ∷ 17 ∷ 18 ∷ 19 ∷ 20
        ∷ [])

abbrev lib_entry : TreeEntry
lib_entry = record {
  mode = codes "040000";
  name = codes "lib";
  hash = codes "0102030405060708090a0b0c0d0e0f1011121314";
}

lib_parses : parse_tree same lib_bytes ≡ tree (lib_entry ∷ [])
unfolding parse_tree parse_entries push_entry cons_entry validate_tree_entry cut pad_mode is_dot_git
    bytes_to_hex hex_of lut hex_digit base_functions
lib_parses = refl

parse_tree-verify_path_example : All (λ e. verify_path e.name ≡ true) (lib_entry ∷ [])
parse_tree-verify_path_example = parse_tree-verify_path same lib_bytes (lib_entry ∷ []) lib_parses

parse_tree-is_stuck_example : is_stuck (parse_tree same lib_bytes) ≡ false
parse_tree-is_stuck_example = parse_tree-is_stuck same lib_bytes

-- An entry cut off within its hash is no error: the text "undefined" stands for each missing byte.
truncated_hash : hex_of 3 (1 ∷ []) ≡ codes "01undefinedundefined"
unfolding hex_of lut hex_digit
truncated_hash = refl
