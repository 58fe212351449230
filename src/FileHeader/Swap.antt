-- ===== src/FileHeader/Swap.antt =====
-- Sectors marked for one file and then for another, in the map of code/filesys/filehdr.cc: the
-- order makes no difference.
use nachos_system_calls.Prelude.{
  ◌≡◌, refl, sym, ap, subst, ◌∙◌, ℕ, Bool, true, false, some, List, [], ◌∷◌, set, get_elem?,
  get_elem?-set_ne,
}
use nachos_system_calls.Bitmap.Clear.{was_clear}
use nachos_system_calls.FileHeader.Marks.{Marks, apart, set-set_ne}

Marks-set :
    (xs ys : List Bool) (fs : List ℕ) (g : ℕ)
    → Marks xs fs ys
    → get_elem? ys g ≡ some false
    → (get_elem? xs g ≡ some false) × Marks (set xs g true) fs (set ys g true)
Marks-set xs ys [] g m h =
    (subst (λ x. get_elem? x g ≡ some false) (sym m) h, ap (λ x. set x g true) m)
Marks-set xs ys (f ∷ fs) g (c, m) h =
    let (k, n) = Marks-set (set xs f true) ys fs g m h in
    let d = apart xs f g c k in
    (
      was_clear xs f g k,
      (
        get_elem?-set_ne xs true (λ e. d (sym e)) ∙ c,
        subst (λ x. Marks x fs (set ys g true)) (set-set_ne xs f g true true d) n,
      ),
    )

pub Marks-swap :
    (xs ys zs : List Bool) (fs gs : List ℕ)
    → Marks xs fs ys
    → Marks ys gs zs
    → (ws : List Bool) × Marks xs gs ws × Marks ws fs zs
Marks-swap xs ys zs fs [] m n = (xs, refl, subst (Marks xs fs) n m)
Marks-swap xs ys zs fs (g ∷ gs) m (c, n) =
    let (k, l) = Marks-set xs ys fs g m c in
    let (ws, p, q) = Marks-swap (set xs g true) (set ys g true) zs fs gs l n in (ws, (k, p), q)
