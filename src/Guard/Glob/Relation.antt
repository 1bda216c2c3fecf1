-- ===== src/Guard/Glob/Relation.antt =====
-- What a glob pattern means: `?` stands for one character, `*` for any number of them, any other
-- character for itself.
use konf.Shared.{ℕ, ◌≡◌, refl, ◌⊎◌, inl, inr, true, [], ◌∷◌, arith, subst, Text, ◌≢◌}
use konf.Guard.Glob.{rest, only_stars}

pub data Suffix (u : Text) : Text → Type 0 where
  same : {t : Text} → u ≡ t → Suffix u t
  later : {c : ℕ} {t : Text} → Suffix u t → Suffix u (c ∷ t)

pub data Glob : Text → Text → Type 0 where
  done : Glob [] []
  one : {x c : ℕ} {p t : Text} → (x ≡ b'?') ⊎ (x ≡ c) → Glob p t → Glob (x ∷ p) (c ∷ t)
  many : {x : ℕ} {p t u : Text} → x ≡ b'*' → Suffix u t → Glob p u → Glob (x ∷ p) t

pub Suffix-trans : {u v t : Text} → Suffix u v → Suffix v t → Suffix u t
Suffix-trans {u} h (same e) = subst (Suffix u) e h
Suffix-trans h (later k) = later (Suffix-trans h k)

-- A suffix of a non-empty text is the text, or a suffix of its rest.
pub Suffix-cons : {u : Text} {c : ℕ} {t : Text} → Suffix u (c ∷ t) → (u ≡ c ∷ t) ⊎ Suffix u t
Suffix-cons (same e) = inl e
Suffix-cons (later h) = inr h

pub Suffix-rest : {u : Text} (t : Text) → Suffix u (rest t) → Suffix u t
Suffix-rest [] h = h
Suffix-rest (c ∷ t) h = later h

pub rest-Suffix : {d : ℕ} {v : Text} (t : Text) → Suffix (d ∷ v) t → Suffix v (rest t)
rest-Suffix [] (same e) = absurd (cc e)
rest-Suffix (c ∷ t) (same e) = same (cc e)
rest-Suffix (c ∷ []) (later h) = rest-Suffix [] h
rest-Suffix (c ∷ x ∷ t) (later h) = later (rest-Suffix (x ∷ t) h)

pub Suffix-nil : {u : Text} → Suffix u [] → u ≡ []
Suffix-nil (same e) = e

-- A pattern that matches the empty text is made of stars.
pub Glob-nil : (p : Text) {t : Text} → t ≡ [] → Glob p t → only_stars p ≡ true
unfolding only_stars
Glob-nil [] e g = refl
Glob-nil (x ∷ p) e (one q g) = absurd (cc e)
Glob-nil (x ∷ p) {t} e (many {u = v} q s g) =
    ground (arith, Glob-nil p (Suffix-nil (subst (Suffix v) e s)) g)

pub only_stars-Glob : (p : Text) → only_stars p ≡ true → Glob p []
unfolding only_stars
only_stars-Glob [] h = done
only_stars-Glob (x ∷ p) h = many (ground arith) (same refl) (only_stars-Glob p (ground arith))

-- What a pattern that starts with no star matches.
pub Glob-cons_inv :
    {x : ℕ} {p t : Text}
    → x ≢ b'*'
    → Glob (x ∷ p) t
    → (d : ℕ) × (v : Text) × (t ≡ d ∷ v) × Glob p v × ((x ≡ b'?') ⊎ (x ≡ d))
Glob-cons_inv ne (one {c = d} {t = v} q g) = (d, v, refl, g, q)
Glob-cons_inv ne (many q s g) = absurd (ne q)
