-- ===== src/Text/Equality.antt =====
-- `eqb` decides equality of texts.
use socks_hub.Prelude.{◌≡◌, refl, ◌↔◌, true, [], ◌∷◌, arith}
use socks_hub.Text.{Text, eqb}

eqb→eq : (s t : Text) → eqb s t ≡ true → s ≡ t
unfolding eqb
eqb→eq [] [] h = refl
eqb→eq [] (b ∷ t) h = ground arith
eqb→eq (a ∷ s) [] h = ground arith
eqb→eq (a ∷ s) (b ∷ t) h = ground (arith, eqb→eq s t)

pub eqb_refl : (s : Text) → eqb s s ≡ true
unfolding eqb
eqb_refl [] = refl
eqb_refl (a ∷ s) = ground (arith, eqb_refl s)

pub eqb_iff : (s t : Text) → (eqb s t ≡ true) ↔ (s ≡ t)
eqb_iff s t = (eqb→eq s t, λ e. rw e (eqb_refl t))
