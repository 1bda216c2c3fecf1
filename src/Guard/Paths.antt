-- ===== src/Guard/Paths.antt =====
-- About `resolve_path` on paths that are joined by a dot.
use konf.Shared.{
  ℕ, ◌≡◌, refl, ap, ◌∙◌, inl, inr, Option, none, some, List, [], ◌∷◌, ◌++◌, arith, ◌==◌, Bool-cases,
  Text, Json,
}
use konf.Guard.{cons_first, split, resolve_segment, resolve_segments, resolve_path}

cons_first-append :
    (c : ℕ) (s : Text) (xs ys : List Text)
    → cons_first c ((s ∷ xs) ++ ys) ≡ cons_first c (s ∷ xs) ++ ys
cons_first-append c s xs ys = refl

-- Splitting gives at least one segment.
split-ne_nil : (sep : ℕ) (s : Text) → (h : Text) × (t : List Text) × (split sep s ≡ h ∷ t)
unfolding split
split-ne_nil sep [] = ([], [], refl)
split-ne_nil sep (c ∷ s) =
    let (h, t, e) = split-ne_nil sep s in
    elim (Bool-cases (c == sep)) [ inl q ↦ ([], split sep s, rw q) | inr q ↦ (c ∷ h, t, rw (q, e)) ]

pub split-append : (sep : ℕ) (a b : Text) → split sep (a ++ sep ∷ b) ≡ split sep a ++ split sep b
unfolding split
split-append sep [] b = ground arith
split-append sep (c ∷ a) b =
    let (h, t, e) = split-ne_nil sep a in
    elim (Bool-cases (c == sep)) [
      | inl q ↦ rw (q, split-append sep a b)
      | inr q ↦ rw (q, split-append sep a b, e)
    ]

resolve_segments-none : (xs : List Text) → resolve_segments none xs ≡ none
unfolding resolve_segments
resolve_segments-none [] = refl
resolve_segments-none (x ∷ xs) = refl

resolve_segments-append :
    (xs : List Text) (v : Option Json) (ys : List Text)
    → resolve_segments v (xs ++ ys) ≡ resolve_segments (resolve_segments v xs) ys
unfolding resolve_segments
resolve_segments-append [] v ys = refl
resolve_segments-append (x ∷ xs) none [] = refl
resolve_segments-append (x ∷ xs) none (y ∷ ys) = refl
resolve_segments-append (x ∷ xs) (some v) ys = resolve_segments-append xs (resolve_segment v x) ys

abbrev pub then_resolve : Option Json → Text → Option Json
then_resolve none path = none
then_resolve (some v) path = resolve_path v path

then_resolve-segments :
    (o : Option Json) (b : Text) → resolve_segments o (split b'.' b) ≡ then_resolve o b
unfolding resolve_path
then_resolve-segments none b = resolve_segments-none (split b'.' b)
then_resolve-segments (some v) b = refl

-- The path `a.b` leads to what `b` leads to from where `a` leads, and nowhere if `a` leads nowhere.
pub resolve_path-dot :
    (value : Json) (a b : Text)
    → resolve_path value (a ++ b'.' ∷ b) ≡ then_resolve (resolve_path value a) b
unfolding resolve_path
resolve_path-dot value a b =
    ap (resolve_segments (some value)) (split-append b'.' a b)
    ∙ resolve_segments-append (split b'.' a) (some value) (split b'.' b)
    ∙ then_resolve-segments (resolve_segments (some value) (split b'.' a)) b
