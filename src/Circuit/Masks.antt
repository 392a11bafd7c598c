-- ===== src/Circuit/Masks.antt =====
-- Both parties of circuit PSI have the same mask of an entry.
use mathlib.Core.List.{Mem, mem-append_left, mem-append_right, flatten}
use petace_set_ops.Base.{
  ℕ, zero, suc, ◌+◌, ◌≡◌, ap, ◌∙◌, subst, List, [], ◌∷◌, arith, Bytes, get_or, get_or-map,
  get_or-mem,
}
use petace_set_ops.Kkrt.Tables.{Verse}
use petace_set_ops.Circuit.Tables.{Pads, encode_rows}
use petace_set_ops.Circuit.Locate.{At}

pub flatten-mem :
    (values : List (List Bytes)) (v : Bytes) (b t : ℕ) → At values v b t → Mem v (flatten values)
unfolding flatten
flatten-mem [] v b t (lt, _, _) = elim lt [ ]
flatten-mem (entries ∷ values) v zero t (lt, in_b, e) =
    mem-append_left (flatten values) (subst (λ y. Mem y entries) e (get_or-mem entries t [] in_b))
flatten-mem (entries ∷ values) v (suc b) t (lt, in_b, e) =
    mem-append_right entries (flatten-mem values v b t (omega arith, in_b, e))

module _ (verse : Verse) (pads : Pads verse) (key : verse.Key) where
  -- Both parties have the mask of an entry in its bin.
  pub encoded_mask :
      (i : ℕ) (values : List (List Bytes)) (v : Bytes) (b t : ℕ)
      → At values v b t
      → get_or (get_or (encode_rows verse pads key i values) b []) t verse.zero_block
        ≡ verse.encode key (i + b) (verse.block_of_bytes v)
  unfolding encode_rows
  encoded_mask i [] v b t (lt, _, _) = elim lt [ ]
  encoded_mask i (entries ∷ values) v zero t (lt, in_b, e) =
      let here : i ≡ i + 0 = omega arith in
      get_or-map (λ value. verse.encode key i (verse.block_of_bytes value)) entries t []
        verse.zero_block in_b
      ∙ (λ k. verse.encode key (here k) (verse.block_of_bytes (e k)))
  encoded_mask i (entries ∷ values) v (suc b) t (lt, in_b, e) =
      let next : i + 1 + b ≡ i + suc b = omega arith in
      encoded_mask (i + 1) values v b t (omega arith, in_b, e)
      ∙ ap (λ n. verse.encode key n (verse.block_of_bytes v)) next
