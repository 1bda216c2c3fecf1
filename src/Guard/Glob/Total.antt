-- ===== src/Guard/Glob/Total.antt =====
-- About the fuel of the loop of `glob_matches`.
use konf.Shared.{
  ℕ, zero, suc, ◌+◌, ◌*◌, ◌≤◌, ◌<◌, ◌≡◌, refl, ap, inl, inr, Bool, false, ◌||◌, none, some, [], ◌∷◌,
  arith, ◌==◌, Bool-cases, Text, length,
}
use konf.Guard.Glob.{rest, only_stars, Star, retry, glob_loop, glob_fuel}

-- Before the first star `left` bounds the text; then it is what is left behind the last star.
abbrev Fits : ℕ → ℕ → Text → Star → Type 0
Fits n left t none = length t ≤ left
Fits n left t (some (sp, st)) = (length t ≤ left) × (length st ≡ left) × (length sp ≤ n)

Fits-le : (n left : ℕ) (t : Text) (star : Star) → Fits n left t star → length t ≤ left
Fits-le n left t none h = h
Fits-le n left t (some (sp, st)) h = h.0

Fits-rest : (n left c : ℕ) (t : Text) (star : Star) → Fits n left (c ∷ t) star → Fits n left t star
Fits-rest n left c t none h = omega arith
Fits-rest n left c t (some (sp, st)) h = (omega arith, h.1, h.2)

length-rest : (t : Text) → 0 < length t → length (rest t) + 1 ≡ length t
length-rest [] h = absurd (omega arith)
length-rest (c ∷ t) h = omega arith

-- The measure falls: literals and stars shorten the pattern, a retry shortens what is left.
retry_measure :
    (n left l k fuel : ℕ)
    → l + 1 ≡ left
    → k ≤ n
    → left * (n + 1) < suc fuel
    → l * (n + 1) + k < fuel
retry_measure n left l k fuel e h m = omega (arith, ap (λ (z : ℕ). z * (n + 1)) e)

star_measure :
    (n left l k fuel : ℕ) → l ≤ left → left * (n + 1) + suc k < suc fuel → l * (n + 1) + k < fuel
star_measure n left l k fuel h m = grind arith

-- What is claimed of every call on less fuel.
abbrev Ends : ℕ → ℕ → Type 0
Ends fuel n =
    (left : ℕ) (p t : Text) (star : Star)
    → left * (n + 1) + length p < fuel
    → length p ≤ n
    → Fits n left t star
    → (b : Bool) × (glob_loop fuel p t star ≡ some b)

retry-total :
    (fuel n left c : ℕ) (t : Text) (star : Star)
    → left * (n + 1) < suc fuel
    → Fits n left (c ∷ t) star
    → Ends fuel n
    → (b : Bool) × (retry (glob_loop fuel) star ≡ some b)
retry-total fuel n left c t none m f ends = (false, refl)
retry-total fuel n left c t (some (sp, st)) m f ends =
    let shorter = length-rest st (omega arith) in
    ends (length (rest st)) sp (rest st) (some (sp, rest st))
      (retry_measure n left (length (rest st)) (length sp) fuel (omega arith) f.2 m) f.2
      (omega arith, refl, f.2)

glob_loop-total : (fuel n : ℕ) → Ends fuel n
unfolding glob_loop
glob_loop-total zero n left p t star m k f = absurd (omega arith)
glob_loop-total (suc fuel) n left p [] star m k f = (only_stars p, refl)
glob_loop-total (suc fuel) n left [] (c ∷ t) star m k f =
    retry-total fuel n left c t star (omega arith) f (glob_loop-total fuel n)
glob_loop-total (suc fuel) n left (x ∷ p) (c ∷ t) star m k f =
    elim (Bool-cases (x == b'?' || x == c)) [
      | inl e ↦ rw e (
          glob_loop-total fuel n left p t star (omega arith) (omega arith)
            (Fits-rest n left c t star f))
      | inr e ↦ elim (Bool-cases (x == b'*')) [
        | inl s ↦
            rw (e, s)
              (glob_loop-total fuel n (length (c ∷ t)) p (c ∷ t) (some (p, c ∷ t))
                (star_measure n left (length (c ∷ t)) (length p) fuel
                  (Fits-le n left (c ∷ t) star f) m)
                (omega arith) (omega arith, refl, omega arith))
        | inr s ↦
            rw (e, s) (retry-total fuel n left c t star (omega arith) f (glob_loop-total fuel n))
      ]
    ]

-- The loop of `glob_matches` returns a result, for every pattern and text.
pub glob_fuel-enough :
    (pattern t : Text) → (b : Bool) × (glob_loop (glob_fuel pattern t) pattern t none ≡ some b)
glob_fuel-enough pattern t =
    glob_loop-total (glob_fuel pattern t) (length pattern) (length t) pattern t none (grind arith)
      (omega arith) (omega arith)
