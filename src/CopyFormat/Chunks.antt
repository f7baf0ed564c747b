-- ===== src/CopyFormat/Chunks.antt =====
-- A stream that comes in chunks (ppbase/backup/copy_format.py).
use ppbase.Prelude.{ℕ, List, [], ◌∷◌, ◌++◌, append_assoc, ◌≡◌, refl, sym, ap, ◌∙◌}

unfoldable pub joined : List (List ℕ) → List ℕ
joined [] = []
joined (chunk ∷ chunks) = chunk ++ joined chunks

pub joined-append : (xs ys : List (List ℕ)) → joined (xs ++ ys) ≡ joined xs ++ joined ys
unfolding joined
joined-append [] ys = refl
joined-append (x ∷ xs) ys =
    ap (λ (t : List ℕ). x ++ t) (joined-append xs ys) ∙ sym (append_assoc x (joined xs) (joined ys))
