-- ===== src/Guard/Glob/Sound.antt =====
-- About what the loop of `glob_matches` accepts.
use konf.Shared.{
  ℕ, zero, suc, ◌≡◌, refl, ◌⊎◌, inl, inr, true, ◌||◌, none, some, [], ◌∷◌, arith, ◌==◌, Bool-cases,
  Text,
}
use konf.Guard.Glob.{rest, Star, retry, glob_loop, glob_matches, glob_fuel}
use konf.Guard.Glob.Relation.{Suffix, same, later, Suffix-rest, Glob, one, many, only_stars-Glob}

-- What is left of the pattern matches what is left of the text, or what stands behind the last star
-- matches the text after some later start.
abbrev pub Matching : Text → Text → Star → Type 0
Matching p t none = Glob p t
Matching p t (some (sp, st)) = Glob p t ⊎ ((u : Text) × Suffix u (rest st) × Glob sp u)

Matching-Glob : (p t : Text) (star : Star) → Glob p t → Matching p t star
Matching-Glob p t none g = g
Matching-Glob p t (some s) g = inl g

Matching-one :
    (x c : ℕ) (p t : Text) (star : Star)
    → (x ≡ b'?') ⊎ (x ≡ c)
    → Matching p t star
    → Matching (x ∷ p) (c ∷ t) star
Matching-one x c p t none q g = one q g
Matching-one x c p t (some s) q (inl g) = inl (one q g)
Matching-one x c p t (some s) q (inr w) = inr w

Matching-many :
    (x c : ℕ) (p t : Text) → x ≡ b'*' → Matching p (c ∷ t) (some (p, c ∷ t)) → Glob (x ∷ p) (c ∷ t)
Matching-many x c p t q (inl g) = many q (same refl) g
Matching-many x c p t q (inr (u, s, g)) = many q (later s) g

retry-Matching :
    (fuel : ℕ) (p t : Text) (star : Star)
    → ((p t : Text) (star : Star) → glob_loop fuel p t star ≡ some true → Matching p t star)
    → retry (glob_loop fuel) star ≡ some true
    → Matching p t star
retry-Matching fuel p t none sound h = absurd (ground arith)
retry-Matching fuel p t (some (sp, st)) sound h = elim (sound sp (rest st) (some (sp, rest st)) h) [
  | inl g ↦ inr (rest st, same refl, g)
  | inr (u, s, g) ↦ inr (u, Suffix-rest (rest st) s, g)
]

test→one : (x c : ℕ) → (x == b'?' || x == c) ≡ true → (x ≡ b'?') ⊎ (x ≡ c)
test→one x c h = ground arith

glob_loop-Matching :
    (fuel : ℕ) (p t : Text) (star : Star) → glob_loop fuel p t star ≡ some true → Matching p t star
unfolding glob_loop
glob_loop-Matching zero p t star h = absurd (ground arith)
glob_loop-Matching (suc fuel) p [] star h =
    Matching-Glob p [] star (only_stars-Glob p (ground arith))
glob_loop-Matching (suc fuel) [] (c ∷ t) star h =
    retry-Matching fuel [] (c ∷ t) star (glob_loop-Matching fuel) h
glob_loop-Matching (suc fuel) (x ∷ p) (c ∷ t) star h = elim (Bool-cases (x == b'?' || x == c)) [
  | inl e ↦
      Matching-one x c p t star (test→one x c e) (glob_loop-Matching fuel p t star (rw e at h))
  | inr e ↦ elim (Bool-cases (x == b'*')) [
    | inl s ↦ Matching-Glob (x ∷ p) (c ∷ t) star (
        Matching-many x c p t (ground arith)
          (glob_loop-Matching fuel p (c ∷ t) (some (p, c ∷ t)) (rw (e, s) at h)))
    | inr s ↦ retry-Matching fuel (x ∷ p) (c ∷ t) star (glob_loop-Matching fuel) (rw (e, s) at h)
  ]
]

-- A text that `glob_matches` accepts is one that the pattern means.
pub glob_matches-Glob : (pattern t : Text) → glob_matches pattern t ≡ true → Glob pattern t
unfolding glob_matches
glob_matches-Glob pattern t h =
    glob_loop-Matching (glob_fuel pattern t) pattern t none (ground arith)
