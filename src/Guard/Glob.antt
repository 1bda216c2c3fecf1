-- ===== src/Guard/Glob.antt =====
-- `glob_matches` of crates/konf-runtime/src/guard.rs. A position in the pattern or in the text is
-- what is left of it from there, so `pi < p_vec.len()` says that something is left. The loop takes
-- fuel, and `none` means that it ran out; `glob_matches` gives it enough.
pub mod Total
pub mod Relation
pub mod Sound
pub mod Complete
use konf.Shared.{
  ℕ, zero, suc, ◌+◌, ◌*◌, Bool, true, false, ◌||◌, ◌&&◌, Option, none, some, List, [], ◌∷◌,
  if◌then◌else◌, ◌==◌, Text, length,
}

abbrev pub rest : Text → Text
rest [] = []
rest (c ∷ t) = t

-- The loop that consumes the stars at the end of the pattern, and the test after it.
unfoldable pub only_stars : Text → Bool
only_stars [] = true
only_stars (x ∷ p) = x == b'*' && only_stars p

-- `star_p` and `star_t`, which are set together.
abbrev pub Star : Type 0
Star = Option (Text × Text)

-- Back to the last star, which takes one character more.
abbrev pub retry : (Text → Text → Star → Option Bool) → Star → Option Bool
retry go none = some false
retry go (some (sp, st)) = go sp (rest st) (some (sp, rest st))

unfoldable pub glob_loop : ℕ → Text → Text → Star → Option Bool
glob_loop zero p t star = none
glob_loop (suc fuel) p [] star = some (only_stars p)
glob_loop (suc fuel) [] (c ∷ t) star = retry (glob_loop fuel) star
glob_loop (suc fuel) (x ∷ p) (c ∷ t) star =
    let literal = glob_loop fuel p t star in
    let starred = glob_loop fuel p (c ∷ t) (some (p, c ∷ t)) in
    let again = retry (glob_loop fuel) star in
    if x == b'?' || x == c then literal else if x == b'*' then starred else again

abbrev pub glob_fuel : Text → Text → ℕ
glob_fuel pattern t = (length t + 1) * (length pattern + 1)

abbrev or_false : Option Bool → Bool
or_false none = false
or_false (some b) = b

unfoldable pub glob_matches : Text → Text → Bool
glob_matches pattern t = or_false (glob_loop (glob_fuel pattern t) pattern t none)
