-- ===== src/Psi/Unpack.antt =====
-- Items of one size that are written one behind the other are unpacked as they were.
use mathlib.Core.List.{flatten}
use petace_set_ops.Base.{
  ℕ, zero, suc, ◌+◌, ◌*◌, ◌≡◌, refl, sym, ap, ◌∙◌, List, [], ◌∷◌, ◌++◌, arith, Bytes, length, take,
  drop, All, take_append, drop_append, drop-drop, length-append,
}
use petace_set_ops.Psi.{unpack}

abbrev pub AllOfLength : ℕ → List Bytes → Type 0
AllOfLength width = All (λ key. length key ≡ width)

-- Unpacking from a later item on is unpacking what stands there.
unpack-drop :
    (rounds item_idx width : ℕ) (buffer : Bytes)
    → unpack rounds item_idx width buffer ≡ unpack rounds 0 width (drop (item_idx * width) buffer)
unfolding unpack
unpack-drop zero item_idx width buffer = refl
unpack-drop (suc rounds) item_idx width buffer =
    let here : 0 * width ≡ 0 = omega arith in
    let next : (0 + 1) * width ≡ width = omega arith in
    let past : item_idx * width + width ≡ (item_idx + 1) * width = omega arith in
    λ i.
      take width (drop (sym here i) (drop (item_idx * width) buffer))
      ∷ (unpack-drop rounds (item_idx + 1) width buffer
            ∙ ap (unpack rounds 0 width) (
                ap (λ k. drop k buffer) (sym past)
                ∙ sym (drop-drop width (item_idx * width) buffer)
                ∙ ap (λ k. drop k (drop (item_idx * width) buffer)) (sym next))
            ∙ sym (unpack-drop rounds (0 + 1) width (drop (item_idx * width) buffer)))
          i

pub length-flatten :
    (keys : List Bytes) (width : ℕ)
    → AllOfLength width keys
    → length (flatten keys) ≡ length keys * width
unfolding flatten
length-flatten [] width h = omega arith
length-flatten (key ∷ keys) width (hk, h) =
    omega (arith, length-append key (flatten keys), length-flatten keys width h)

pub unpack-flatten :
    (keys : List Bytes) (width : ℕ)
    → AllOfLength width keys
    → unpack (length keys) 0 width (flatten keys) ≡ keys
unfolding unpack flatten
unpack-flatten [] width h = refl
unpack-flatten (key ∷ keys) width (hk, h) =
    let here : 0 * width ≡ 0 = omega arith in
    let next : (0 + 1) * width ≡ length key = omega arith in
    λ i.
      (ap (λ k. take width (drop k (key ++ flatten keys))) here
          ∙ ap (λ k. take k (key ++ flatten keys)) (sym hk)
          ∙ take_append key (flatten keys))
        i
      ∷ (unpack-drop (length keys) (0 + 1) width (key ++ flatten keys)
            ∙ ap (λ k. unpack (length keys) 0 width (drop k (key ++ flatten keys))) next
            ∙ ap (unpack (length keys) 0 width) (drop_append key (flatten keys))
            ∙ unpack-flatten keys width h)
          i
