-- ===== src/Guard/Glob/Complete.antt =====
-- About `glob_matches` and the meaning of a pattern, on texts with and without a star.
use konf.Shared.{
  ℕ, zero, suc, ◌+◌, ◌*◌, length, ◌≡◌, ◌≢◌, ◌↔◌, refl, sym, ap, subst, inl, inr, Bool, true, false,
  ◌||◌, none, some, [], ◌∷◌, arith, ◌==◌, Bool-cases, Text,
}
use konf.Guard.Glob.{rest, only_stars, Star, retry, glob_loop, glob_matches, glob_fuel}
use konf.Guard.Glob.Relation.{
  Suffix, same, later, Suffix-trans, Suffix-cons, Suffix-rest, rest-Suffix, Suffix-nil, Glob, done,
  one, many, Glob-nil, Glob-cons_inv,
}
use konf.Guard.Glob.Sound.{Matching, glob_matches-Glob}
use konf.Guard.Glob.Total.{glob_fuel-enough}

-- No character of the text is `*`.
abbrev pub NoStar : Text → Type 0
NoStar [] = Unit {0}
NoStar (c ∷ t) = (c ≢ b'*') × NoStar t

NoStar-rest : (t : Text) → NoStar t → NoStar (rest t)
NoStar-rest [] h = h
NoStar-rest (c ∷ t) h = h.1

-- A match of what stands behind the last star, from a later start, goes on to match what is left of
-- the pattern somewhere in what is left of the text. The text behind the last star has no star.
abbrev Resumes : Text → Text → Star → Type 0
Resumes p t none = Unit {0}
Resumes p t (some (sp, st)) =
    NoStar st × ((u : Text) → Suffix u (rest st) → Glob sp u → (v : Text) × Suffix v t × Glob p v)

-- A pattern character that is not a star: a match of the pattern goes on to a match of its rest.
Glob-rest :
    {x : ℕ} {p t : Text} → x ≢ b'*' → Glob (x ∷ p) t → (v : Text) × Suffix v (rest t) × Glob p v
Glob-rest ne g = let (d, v, e, h, q) = Glob-cons_inv ne g in (v, same (sym (ap rest e)), h)

Resumes-one :
    (x c : ℕ) (p t : Text) (star : Star)
    → x ≢ b'*'
    → Resumes (x ∷ p) (c ∷ t) star
    → Resumes p t star
Resumes-one x c p t none ne r = tt
Resumes-one x c p t (some (sp, st)) ne r = (r.0, after)
  where
    after : (u : Text) → Suffix u (rest st) → Glob sp u → (v : Text) × Suffix v t × Glob p v
    after u s g =
        let (w, k, h) = r.1 u s g in
        let (d, v, e, i, q) = Glob-cons_inv ne h in
        (v, rest-Suffix (c ∷ t) (subst (λ z. Suffix z (c ∷ t)) e k), i)

Matching-rest :
    (x c : ℕ) (p t : Text) (star : Star)
    → x ≢ b'*'
    → Matching (x ∷ p) (c ∷ t) star
    → Matching p t star
Matching-rest x c p t none ne m =
    let (d, v, e, i, q) = Glob-cons_inv ne m in subst (Glob p) (sym (ap rest e)) i
Matching-rest x c p t (some s) ne (inl m) =
    let (d, v, e, i, q) = Glob-cons_inv ne m in inl (subst (Glob p) (sym (ap rest e)) i)
Matching-rest x c p t (some s) ne (inr w) = inr w

-- At a star of the pattern all that matters is whether its rest matches from some start.
Glob-star :
    (x c : ℕ) (p t u : Text)
    → Suffix u (c ∷ t)
    → Glob (x ∷ p) u
    → Matching p (c ∷ t) (some (p, c ∷ t))
Glob-star x c p t u s (one {t = v} q g) = inr (v, rest-Suffix (c ∷ t) s, g)
Glob-star x c p t u s (many {u = v} e k g) = elim (Suffix-cons (Suffix-trans k s)) [
  | inl f ↦ inl (subst (Glob p) f g)
  | inr f ↦ inr (v, f, g)
]

Matching-star :
    (x c : ℕ) (p t : Text) (star : Star)
    → Resumes (x ∷ p) (c ∷ t) star
    → Matching (x ∷ p) (c ∷ t) star
    → Matching p (c ∷ t) (some (p, c ∷ t))
Matching-star x c p t none r m = Glob-star x c p t (c ∷ t) (same refl) m
Matching-star x c p t (some (sp, st)) r (inl m) = Glob-star x c p t (c ∷ t) (same refl) m
Matching-star x c p t (some (sp, st)) r (inr (u, s, g)) =
    let (v, k, h) = r.1 u s g in Glob-star x c p t v k h

-- A match that is not at hand comes from a later start behind the last star.
Matching-retry :
    (sp st p t : Text)
    → (Glob p t → ⊥)
    → Matching p t (some (sp, st))
    → Matching sp (rest st) (some (sp, rest st))
Matching-retry sp st p t miss (inl m) = absurd (miss m)
Matching-retry sp st p t miss (inr (u, s, g)) = go (rest st) s
  where
    go : (z : Text) → Suffix u z → Matching sp z (some (sp, z))
    go [] k = inl (subst (Glob sp) (Suffix-nil k) g)
    go (c ∷ z) k = elim (Suffix-cons k) [
      | inl f ↦ inl (subst (Glob sp) f g)
      | inr f ↦ inr (u, f, g)
    ]

Resumes-retry : (sp st : Text) → NoStar st → Resumes sp (rest st) (some (sp, rest st))
Resumes-retry sp st n = (NoStar-rest st n, λ u s g. (u, Suffix-rest (rest st) s, g))

-- What is claimed of every call on less fuel.
abbrev Finds : ℕ → Type 0
Finds fuel =
    (p t : Text) (star : Star) (b : Bool)
    → NoStar t
    → Resumes p t star
    → Matching p t star
    → glob_loop fuel p t star ≡ some b
    → b ≡ true

retry-Finds :
    (fuel : ℕ) (p t : Text) (star : Star) (b : Bool)
    → (Glob p t → ⊥)
    → Resumes p t star
    → Matching p t star
    → Finds fuel
    → retry (glob_loop fuel) star ≡ some b
    → b ≡ true
retry-Finds fuel p t none b miss r m finds h = absurd (miss m)
retry-Finds fuel p t (some (sp, st)) b miss r m finds h =
    finds sp (rest st) (some (sp, rest st)) b (NoStar-rest st r.0) (Resumes-retry sp st r.0)
      (Matching-retry sp st p t miss m) h

at_end : (p : Text) (star : Star) → Resumes p [] star → Matching p [] star → only_stars p ≡ true
at_end p none r m = Glob-nil p refl m
at_end p (some (sp, st)) r (inl m) = Glob-nil p refl m
at_end p (some (sp, st)) r (inr (u, s, g)) =
    let (v, k, h) = r.1 u s g in Glob-nil p (Suffix-nil k) h

Glob-nil_cons : {c : ℕ} {t p u : Text} → p ≡ [] → u ≡ c ∷ t → Glob p u → ⊥
Glob-nil_cons e f done = cc f
Glob-nil_cons e f (one q g) = cc e
Glob-nil_cons e f (many q s g) = cc e

mismatch :
    (x c : ℕ) (p t : Text)
    → (x == b'?' || x == c) ≡ false
    → (x == b'*') ≡ false
    → Glob (x ∷ p) (c ∷ t)
    → ⊥
mismatch x c p t e s (one q g) = ground arith
mismatch x c p t e s (many q k g) = ground arith

-- A character that stands for one of a text without stars is no star.
literal-ne : (x c : ℕ) → c ≢ b'*' → (x == b'?' || x == c) ≡ true → x ≢ b'*'
literal-ne x c n e q = ground arith

glob_loop-Finds : (fuel : ℕ) → Finds fuel
unfolding glob_loop
glob_loop-Finds zero p t star b n r m h = absurd (ground arith)
glob_loop-Finds (suc fuel) p [] star b n r m h = ground (arith, at_end p star r m)
glob_loop-Finds (suc fuel) [] (c ∷ t) star b n r m h =
    retry-Finds fuel [] (c ∷ t) star b (Glob-nil_cons refl refl) r m (glob_loop-Finds fuel) h
glob_loop-Finds (suc fuel) (x ∷ p) (c ∷ t) star b n r m h =
    elim (Bool-cases (x == b'?' || x == c)) [
      | inl e ↦
          let ne : x ≢ b'*' = literal-ne x c n.0 e in
          glob_loop-Finds fuel p t star b n.1 (Resumes-one x c p t star ne r)
            (Matching-rest x c p t star ne m) (rw e at h)
      | inr e ↦ elim (Bool-cases (x == b'*')) [
        | inl s ↦
            glob_loop-Finds fuel p (c ∷ t) (some (p, c ∷ t)) b n (n, λ u k g. (u, later k, g))
              (Matching-star x c p t star r m) (rw (e, s) at h)
        | inr s ↦
            retry-Finds fuel (x ∷ p) (c ∷ t) star b (mismatch x c p t e s) r m
              (glob_loop-Finds fuel) (rw (e, s) at h)
      ]
    ]

Glob→glob_matches : (pattern t : Text) → NoStar t → Glob pattern t → glob_matches pattern t ≡ true
unfolding glob_matches
Glob→glob_matches pattern t n g =
    let (b, e) = glob_fuel-enough pattern t in
    let found = glob_loop-Finds (glob_fuel pattern t) pattern t none b n tt g e in ground arith

-- Where the text has no star, `glob_matches` decides the meaning of the pattern.
pub glob_matches-iff-Glob :
    (pattern t : Text) → NoStar t → (glob_matches pattern t ≡ true) ↔ Glob pattern t
glob_matches-iff-Glob pattern t n = (glob_matches-Glob pattern t, Glob→glob_matches pattern t n)

single_star-loop :
    (f c d : ℕ) (t : Text) → glob_loop (suc (suc f)) (c ∷ []) (c ∷ d ∷ t) none ≡ some false
unfolding glob_loop
single_star-loop f c d t = ground arith

single_star : (c d : ℕ) (t : Text) → glob_matches (c ∷ []) (c ∷ d ∷ t) ≡ false
unfolding glob_matches
single_star c d t =
    let e : glob_fuel (c ∷ []) (c ∷ d ∷ t) ≡ suc (suc (length t * 2 + 4)) = omega arith in
    rw (e, single_star-loop (length t * 2 + 4) c d t)

-- A pattern that is a single star rejects every text of two or more characters that begins with a
-- star, although it means any text.
pub glob_matches-star_text :
    (c d : ℕ) (t : Text)
    → c ≡ b'*'
    → (glob_matches (c ∷ []) (c ∷ d ∷ t) ≡ false) × Glob (c ∷ []) (c ∷ d ∷ t)
glob_matches-star_text c d t e = (single_star c d t, many e (all_suffix (c ∷ d ∷ t)) done)
  where
    all_suffix : (z : Text) → Suffix [] z
    all_suffix [] = same refl
    all_suffix (x ∷ z) = later (all_suffix z)
