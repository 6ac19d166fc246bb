-- ===== src/KvCache/Rename.antt =====
-- `_rename_tensor` leaves what the graph computes as it is, under a new name that is not in use.
use graph_extraction.Base.{
  ◌≡◌, ◌≢◌, sym, ◌∙◌, String, Bool-cases, inl, inr, List, str_eq, eq_iff, All, arith,
}
use graph_extraction.Base.Texts.{str_ne, str_eq_self}
use graph_extraction.Onnx.{Node, Graph}
use graph_extraction.Onnx.Meaning.{Agrees, run, run-Agrees}
use graph_extraction.KvCache.{rename, rename_tensor}

rename-inj :
    (old new x y : String) → x ≢ new → y ≢ new → rename old new x ≡ rename old new y → x ≡ y
rename-inj old new x y hx hy e = elim (Bool-cases (str_eq x old)) [
  | inl p ↦ elim (Bool-cases (str_eq y old)) [
    | inl q ↦ (eq_iff x old).0 p ∙ sym ((eq_iff y old).0 q)
    | inr q ↦ absurd (hy (sym (rw (p, q) at e)))
  ]
  | inr p ↦ elim (Bool-cases (str_eq y old)) [
    | inl q ↦ absurd (hx (rw (p, q) at e))
    | inr q ↦ rw (p, q) at e
  ]
]

module _ {A V : Type 0} (op : A → List V → List V) (old new : String) where
  -- A graph whose nodes do not name `new` computes, after `_rename_tensor`, from the tensors under
  -- their new names, every tensor that it has computed before: the one that was called `old` as
  -- `new`, and the others under their own names.
  pub rename_tensor-run :
      (g : Graph A) (env env' : String → V)
      → All (λ (n : Node A). All (λ x. x ≢ new) n.input × All (λ x. x ≢ new) n.output) g.node
      → (env' new ≡ env old)
      → ((x : String) → x ≢ old → x ≢ new → env' x ≡ env x)
      → old ≢ new
      → (run op (rename_tensor old new g).node env' new ≡ run op g.node env old)
        × ((x : String)
            → x ≢ old
            → x ≢ new
            → run op (rename_tensor old new g).node env' x ≡ run op g.node env x)
  unfolding rename_tensor
  rename_tensor-run g env env' fresh eo ex differ =
      let start : Agrees op (rename old new) (λ x. x ≢ new) (rename-inj old new) env env' = λ x h.
        elim (Bool-cases (str_eq x old)) [
          | inl t ↦ rw (t, (eq_iff x old).0 t) eo
          | inr t ↦ rw t (ex x (λ e. absurd (ground (arith, t, (eq_iff x old).1 e))) h)
        ] in
      let end =
        run-Agrees op (rename old new) (λ x. x ≢ new) (rename-inj old new) g.node env env' fresh
          start in
      (rw (str_eq_self old) at (end old differ), λ x h k. rw (str_ne x old h) at (end x k))
