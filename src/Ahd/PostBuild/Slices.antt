-- ===== src/Ahd/PostBuild/Slices.antt =====
-- Cutting a text that is put together of parts.
use auto_test_poc.Base.{
  ℕ, zero, suc, ◌+◌, ◌-◌, ◌≤◌, ◌≡◌, ap, ◌∙◌, [], ◌∷◌, ◌++◌, arith, length, take, drop,
  take-append_le, drop-append_le, length-drop,
}
use auto_test_poc.Py.Text.{Text}
use auto_test_poc.Ahd.Fields.{slice}

pub drop-append_right :
    (n : ℕ) (a b : Text) → length a ≤ n → drop n (a ++ b) ≡ drop (n - length a) b
drop-append_right n [] b h = ap (λ k. drop k b) (omega arith)
drop-append_right zero (x ∷ a) b h = absurd (omega arith)
drop-append_right (suc n) (x ∷ a) b h =
    drop-append_right n a b (omega arith) ∙ ap (λ k. drop k b) (omega arith)

-- A part behind the first text is a part of the second.
pub slice-append_right :
    (start width : ℕ) (a b : Text)
    → length a ≤ start
    → slice start width (a ++ b) ≡ slice (start - length a) width b
slice-append_right start width a b h = ap (take width) (drop-append_right start a b h)

-- A part that ends within the first text is a part of it.
pub slice-append_left :
    (start width : ℕ) (a b : Text)
    → start + width ≤ length a
    → slice start width (a ++ b) ≡ slice start width a
slice-append_left start width a b h =
    ap (take width) (drop-append_le start a b (omega arith))
    ∙ take-append_le width (drop start a) b (omega (arith, length-drop start a))
