-- ===== src/Glob/Decides.antt =====
-- An answer that may be missing, and the statement that it decides.
use wedb_embed.Base.{◌≡◌, refl, ◌↔◌, Bool, true, false, Option, none, some}
use wedb_embed.Glob.{answer}

-- There is an answer, and it is true just if the statement holds.
abbrev pub Decides : Option Bool → Type 0 → Type 0
Decides none P = ⊥
Decides (some true) P = P
Decides (some false) P = ¬ P

pub Decides_iff : (o : Option Bool) {P Q : Type 0} → (P → Q) → (Q → P) → Decides o P → Decides o Q
Decides_iff none f g d = d
Decides_iff (some true) f g d = f d
Decides_iff (some false) f g d = λ q. d (g q)

pub Decides-answer :
    (o : Option Bool) {P : Type 0} → Decides o P → (o ≡ some (answer o)) × ((answer o ≡ true) ↔ P)
Decides-answer none d = absurd d
Decides-answer (some true) d = (refl, ((λ e. d), λ p. refl))
Decides-answer (some false) d = (refl, ((λ e. cc e), λ p. absurd (d p)))

pub Decides_same : {o o' : Option Bool} (P : Type 0) → o ≡ o' → Decides o' P → Decides o P
Decides_same P h d = rw h d

-- A test before the rest, without which nothing holds.
pub Decides_test :
    (b : Bool) (o : Option Bool) {P : Type 0}
    → (b ≡ true → Decides o P)
    → (b ≡ false → ¬ P)
    → Decides (elim b [ true ↦ o | false ↦ some false ]) P
Decides_test true o f g = f refl
Decides_test false o f g = g refl
