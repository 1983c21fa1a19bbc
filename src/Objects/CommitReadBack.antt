-- ===== src/Objects/CommitReadBack.antt =====
-- Proofs about src/lib/objects/commit.ts.
use just_git.Base.{ℕ, ◌<◌, ◌≡◌, false, List, map, Text, codes, includes_unit, length, All}
use just_git.Objects.Identity.{Identity, serialize_identity}
use just_git.Objects.IdentityReadBack.{IsPlain}
use just_git.Objects.Commit.{newline, Commit, header_line}

-- What the format can carry.
pub record CommitIsPlain (c : Commit) (authored committed : ℕ) : Type 0 where
  pub tree_there : 0 < length c.tree
  pub tree_line : includes_unit newline c.tree ≡ false
  pub parent_lines : All (λ p. includes_unit newline p ≡ false) c.parents
  pub author_plain : IsPlain c.author authored
  pub author_line : includes_unit newline (serialize_identity c.author) ≡ false
  pub committer_plain : IsPlain c.committer committed
  pub committer_line : includes_unit newline (serialize_identity c.committer) ≡ false

abbrev parent_lines_of : List Text → List Text
parent_lines_of ps = map (λ parent. header_line (codes "parent") parent) ps
