-- ===== src/Path/Inside.antt =====
-- Proofs about src/lib/path-safety.ts with src/lib/path.ts: paths joined to a worktree.
use just_git.Base.{
  ◌≡◌, ◌≢◌, refl, sym, ap, ◌∙◌, true, false, List, [], ◌∷◌, ◌++◌, append_assoc, arith, Text, codes,
  text_eq, split, join_with, IsPart, split-IsPart, split-ne-nil, join_with-split, join_with-append,
  split-append_sep, All, starts_with, starts_with-append,
}
use just_git.PathSafety.{
  last_is, is_safe_component, all_components, verify_path, is_inside_work_tree,
}
use just_git.Path.{slash, push_segments, drop_empty, normalize, join}
use just_git.Path.Normal.{
  IsPlain, rooted, push_segments-append, push_segments_plain, push_segments-rooted,
  normalize_absolute, last_is-join_with, last_is-append, join_with-ne-nil,
}

safe_IsPlain : (c : Text) → IsPart slash c → is_safe_component c ≡ true → IsPlain c
unfolding is_safe_component
safe_IsPlain [] p h = ground arith
safe_IsPlain (x ∷ c) p h = record {
  part = p;
  not_empty = unfold text_eq in refl;
  not_dot = ground arith;
  not_up = ground arith;
}

all_components-IsPlain :
    (cs : List Text)
    → All (IsPart slash) cs
    → all_components is_safe_component cs ≡ true
    → All IsPlain cs
unfolding all_components
all_components-IsPlain [] p h = tt
all_components-IsPlain (c ∷ cs) p h =
    (safe_IsPlain c p.0 (ground arith), all_components-IsPlain cs p.1 (ground arith))

-- The components of an accepted path are plain.
pub verify_path-IsPlain : (path : Text) → verify_path path ≡ true → All IsPlain (split slash path)
unfolding verify_path
verify_path-IsPlain path h =
    all_components-IsPlain (split slash path) (split-IsPart slash path) (ground arith)

rooted_segments :
    (ws : List Text) (path : Text)
    → All IsPlain ws
    → All IsPlain (split slash path)
    → push_segments true [] (split slash (rooted ws ++ (slash ∷ path))) ≡ ws ++ split slash path
rooted_segments ws path w p =
    ap (push_segments true []) (split-append_sep slash (rooted ws) path)
    ∙ push_segments-append true [] (split slash (rooted ws)) (split slash path)
    ∙ ap (λ l. push_segments true l (split slash path)) (push_segments-rooted ws w)
    ∙ push_segments_plain true ws (split slash path) p

append-ne-nil : (s t : Text) → t ≢ [] → (s ++ t) ≢ []
append-ne-nil [] t n e = n e
append-ne-nil (x ∷ s) t n e = cc

path_last :
    (path : Text) → All IsPlain (split slash path) → (last_is slash path ≡ false) × (path ≢ [])
path_last path p =
    by_parts (split slash path) (split-ne-nil slash path) p (join_with-split slash path)
  where
    by_parts :
        (cs : List Text)
        → cs ≢ []
        → All IsPlain cs
        → join_with slash cs ≡ path
        → (last_is slash path ≡ false) × (path ≢ [])
    by_parts [] n a e = absurd (n refl)
    by_parts (c ∷ cs) n a e = rw (← e) (last_is-join_with c cs a, join_with-ne-nil c cs a.0)

joined_texts :
    (ws : List Text) (path : Text)
    → path ≢ []
    → join_with slash (drop_empty (rooted ws ∷ path ∷ [])) ≡ rooted ws ++ (slash ∷ path)
unfolding join_with drop_empty text_eq rooted
joined_texts ws [] n = absurd (n refl)
joined_texts ws (x ∷ path) n = refl

join-normalize :
    (ws : List Text) (path : Text)
    → path ≢ []
    → join (rooted ws ∷ path ∷ []) ≡ normalize (rooted ws ++ (slash ∷ path))
unfolding join
join-normalize ws path n = rw (joined_texts ws path n) (unfold rooted text_eq in refl)

-- Joining a worktree and an accepted path appends the components, and resolves nothing.
join_plain :
    (ws : List Text) (path : Text)
    → All IsPlain ws
    → All IsPlain (split slash path)
    → join (rooted ws ∷ path ∷ []) ≡ rooted (ws ++ split slash path)
unfolding rooted
join_plain ws path w p =
    let (last, nonempty) = path_last path p in
    join-normalize ws path nonempty
    ∙ normalize_absolute (join_with slash ws ++ (slash ∷ path)) (ws ++ split slash path)
        (append-ne-nil (join_with slash ws) (slash ∷ path) (λ e. cc)) (rooted_segments ws path w p)
        (last_is-append (rooted ws) (slash ∷ path) (λ e. cc)
          ∙ last_is-append (slash ∷ []) path nonempty
          ∙ last)

rooted-append :
    (w : Text) (ws : List Text) (path : Text)
    → rooted ((w ∷ ws) ++ split slash path) ≡ (rooted (w ∷ ws) ++ (slash ∷ [])) ++ path
rooted-append w ws path =
    by_parts (split slash path) (split-ne-nil slash path) (join_with-split slash path)
  where
    by_parts :
        (cs : List Text)
        → cs ≢ []
        → join_with slash cs ≡ path
        → rooted ((w ∷ ws) ++ cs) ≡ (rooted (w ∷ ws) ++ (slash ∷ [])) ++ path
    by_parts [] n e = absurd (n refl)
    by_parts (c ∷ cs) n e = rw (← e) (
        unfold rooted in
        ap (λ l. slash ∷ l) (join_with-append slash w c ws cs)
        ∙ sym (append_assoc (rooted (w ∷ ws)) (slash ∷ []) (join_with slash (c ∷ cs))))

text_ne_longer : (a b : Text) → b ≢ [] → text_eq (a ++ b) a ≡ false
unfolding text_eq
text_ne_longer [] [] n = absurd (n refl)
text_ne_longer [] (x ∷ b) n = refl
text_ne_longer (x ∷ a) b n = ground (arith, text_ne_longer a b n)

root_ne_rooted :
    (w : Text) (ws : List Text)
    → All IsPlain (w ∷ ws)
    → text_eq (rooted (w ∷ ws)) (codes "/") ≡ false
unfolding rooted text_eq
root_ne_rooted w ws a = unequal (join_with slash (w ∷ ws)) (join_with-ne-nil w ws a.0)
  where
    unequal : (s : Text) → s ≢ [] → text_eq (slash ∷ s) (slash ∷ []) ≡ false
    unequal [] n = absurd (n refl)
    unequal (x ∷ s) n = refl

inside_root : (path : Text) → path ≢ [] → is_inside_work_tree (codes "/") (slash ∷ path) ≡ true
unfolding is_inside_work_tree text_eq starts_with
inside_root [] n = absurd (n refl)
inside_root (x ∷ path) n = ground arith

inside_plain :
    (ws : List Text) (path : Text)
    → All IsPlain ws
    → path ≢ []
    → is_inside_work_tree (rooted ws) (rooted (ws ++ split slash path)) ≡ true
inside_plain [] path a n =
    unfold rooted in rw (join_with-split slash path) (unfold join_with in inside_root path n)
inside_plain (w ∷ ws) path a n =
    let root = rooted (w ∷ ws) in
    rw (rooted-append w ws path) (
      unfold is_inside_work_tree in
      ground (
        arith,
        root_ne_rooted w ws a,
        append_assoc root (slash ∷ []) path,
        text_ne_longer root (slash ∷ path) (λ e. cc),
        starts_with-append (root ++ (slash ∷ [])) path,
      ))

-- With a worktree that is a root and plain components, a path that verifyPath accepts joins to
-- the components of the worktree followed by those of the path, and isInsideWorkTree accepts the
-- result.
pub join-verify_path :
    (ws : List Text) (path : Text)
    → All IsPlain ws
    → verify_path path ≡ true
    → (join (rooted ws ∷ path ∷ []) ≡ rooted (ws ++ split slash path))
      × (is_inside_work_tree (rooted ws) (join (rooted ws ∷ path ∷ [])) ≡ true)
join-verify_path ws path w h =
    let p = verify_path-IsPlain path h in
    (
      join_plain ws path w p,
      rw (join_plain ws path w p) (inside_plain ws path w (path_last path p).1),
    )
