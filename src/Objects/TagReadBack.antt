-- ===== src/Objects/TagReadBack.antt =====
-- Proofs about src/lib/objects/tag.ts.
use just_git.Base.{ℕ, ◌<◌, ◌≡◌, false, includes_unit, length}
use just_git.Objects.Identity.{Identity, serialize_identity}
use just_git.Objects.IdentityReadBack.{IsPlain}
use just_git.Objects.Commit.{newline}
use just_git.Objects.Tag.{Tag}

-- What the format can carry.
pub record TagIsPlain (t : Tag) (tagged : ℕ) : Type 0 where
  pub object_there : 0 < length t.object
  pub object_line : includes_unit newline t.object ≡ false
  pub type_line : includes_unit newline t.object_type ≡ false
  pub name_there : 0 < length t.name
  pub name_line : includes_unit newline t.name ≡ false
  pub tagger_plain : IsPlain t.tagger tagged
  pub tagger_line : includes_unit newline (serialize_identity t.tagger) ≡ false
