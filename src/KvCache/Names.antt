-- ===== src/KvCache/Names.antt =====
-- The names of the residual stream's tensors determine the boundary.
use Prim.Native.String.{◌++◌ as ◌<>◌}
use text.Mathlib.TextLemmas.{append_cancel_left}
use graph_extraction.Base.{
  ℕ, ◌+◌, ◌-◌, ◌*◌, ◌/◌, ◌%◌, ◌<◌, ◌≡◌, ◌≢◌, ◌⊎◌, refl, sym, ap, ◌∙◌, String, Bool, true, false,
  Option, ◌==◌, arith, inl, inr, eq_iff, Bool-cases,
}
use graph_extraction.Base.Decimal.{show, read_number, read_number-show}
use graph_extraction.Onnx.{Graph}
use graph_extraction.KvCache.{Result, ok, sublayer_tensor_name, boundary_for_index}

-- The index of a boundary: the inverse of `boundary_for_index`.
abbrev pub index_of : ℕ → Bool → ℕ
index_of layer_idx true = layer_idx * 2 + 1
index_of layer_idx false = layer_idx * 2 + 2

module _ {A : Type 0} (prefix : String) (g : Option (Graph A)) where
  -- The tensor at the j-th boundary.
  abbrev pub boundary_name : ℕ → Result String
  boundary_name j =
      let (layer_idx, boundary) = boundary_for_index j in
      sublayer_tensor_name layer_idx boundary prefix g

  attn_name : ℕ → String
  attn_name l = prefix <> ("." <> (show l <> "/Add_output_0"))

  mlp_name : ℕ → String
  mlp_name l = prefix <> ("." <> (show l <> "/Add_1_output_0"))

  boundary_name_attn : (l : ℕ) → boundary_name (l * 2 + 1) ≡ ok (attn_name l)
  unfolding boundary_for_index sublayer_tensor_name attn_name
  boundary_name_attn l =
      let a : (l * 2 + 1 == 0) ≡ false = ground arith in
      let b : ((l * 2 + 1) % 2 == 1) ≡ true = ground arith in
      let c : (l * 2 + 1 - 1) / 2 ≡ l = omega arith in rw (a, b, c) refl

  boundary_name_mlp : (l : ℕ) → boundary_name (l * 2 + 2) ≡ ok (mlp_name l)
  unfolding boundary_for_index sublayer_tensor_name mlp_name
  boundary_name_mlp l =
      let a : (l * 2 + 2 == 0) ≡ false = ground arith in
      let b : ((l * 2 + 2) % 2 == 1) ≡ false = ground arith in
      let c : (l * 2 + 2) / 2 - 1 ≡ l = omega arith in rw (a, b, c) refl

  index-cases : (j : ℕ) → 0 < j → ((l : ℕ) × (j ≡ l * 2 + 1)) ⊎ ((l : ℕ) × (j ≡ l * 2 + 2))
  index-cases j h = elim (Bool-cases (j % 2 == 1)) [
    | inl t ↦ inl (j / 2, ground arith)
    | inr t ↦ inr (j / 2 - 1, ground arith)
  ]

  -- What a name says after the prefix and the dot.
  tail-eq :
      (k l : ℕ) (s t : String)
      → (prefix <> ("." <> (show k <> s))) ≡ (prefix <> ("." <> (show l <> t)))
      → read_number k s ≡ read_number l t
  tail-eq k l s t e =
      let e' =
        append_cancel_left "." (show k <> s) (show l <> t) (append_cancel_left prefix _ _ e) in
      sym (read_number-show k s) ∙ ap (read_number 0) e' ∙ read_number-show l t

  ok-inj : (s t : String) → ok s ≡ ok t → s ≡ t
  ok-inj s t e = ground (arith, e)

  same_attn : (k l : ℕ) → ok (attn_name k) ≡ ok (attn_name l) → k ≡ l
  unfolding attn_name read_number
  same_attn k l e = ap (λ r. r.0) (tail-eq k l "/Add_output_0" "/Add_output_0" (ok-inj _ _ e))

  same_mlp : (k l : ℕ) → ok (mlp_name k) ≡ ok (mlp_name l) → k ≡ l
  unfolding mlp_name read_number
  same_mlp k l e = ap (λ r. r.0) (tail-eq k l "/Add_1_output_0" "/Add_1_output_0" (ok-inj _ _ e))

  attn-ne-mlp : (k l : ℕ) → ok (attn_name k) ≢ ok (mlp_name l)
  unfolding attn_name mlp_name read_number
  attn-ne-mlp k l e =
      let x =
        ap (λ (r : ℕ × String). r.1)
          (tail-eq k l "/Add_output_0" "/Add_1_output_0" (ok-inj _ _ e)) in
      let y : false ≡ true = (eq_iff "/Add_output_0" "/Add_1_output_0").1 x in
      absurd (ground (arith, y))

  -- Two boundaries behind the embedding that have one name are the same.
  pub boundary_name-inj : (i j : ℕ) → 0 < i → 0 < j → boundary_name i ≡ boundary_name j → i ≡ j
  boundary_name-inj i j hi hj e = elim (index-cases i hi) [
    | inl (k, p) ↦ elim (index-cases j hj) [
      | inl (l, q) ↦
          p ∙ ap (λ n. n * 2 + 1) (same_attn k l (at_attn k p ∙ e ∙ sym (at_attn l q))) ∙ sym q
      | inr (l, q) ↦ absurd (attn-ne-mlp k l (at_attn k p ∙ e ∙ sym (at_mlp l q)))
    ]
    | inr (k, p) ↦ elim (index-cases j hj) [
      | inl (l, q) ↦ absurd (attn-ne-mlp l k (at_attn l q ∙ sym e ∙ sym (at_mlp k p)))
      | inr (l, q) ↦
          p ∙ ap (λ n. n * 2 + 2) (same_mlp k l (at_mlp k p ∙ e ∙ sym (at_mlp l q))) ∙ sym q
    ]
  ]
    where
      at_attn : {n : ℕ} (l : ℕ) → n ≡ l * 2 + 1 → ok (attn_name l) ≡ boundary_name n
      at_attn l q = sym (boundary_name_attn l) ∙ ap boundary_name (sym q)

      at_mlp : {n : ℕ} (l : ℕ) → n ≡ l * 2 + 2 → ok (mlp_name l) ≡ boundary_name n
      at_mlp l q = sym (boundary_name_mlp l) ∙ ap boundary_name (sym q)
