-- ===== src/Onnx/Meaning.antt =====
-- What a graph computes, node by node, and that it does so under other names.
use graph_extraction.Base.{
  ◌≡◌, ◌≢◌, refl, ap, String, Bool-cases, inl, inr, List, [], ◌∷◌, map, str_eq, eq_iff, All,
  if◌then◌else◌, arith,
}
use graph_extraction.Base.Texts.{str_ne}
use graph_extraction.Onnx.{Node, rename_node}

module _ {A V : Type 0} (op : A → List V → List V) where
  -- The tensors at hand, by name.
  abbrev pub Tensors : Type 0
  Tensors = String → V

  unfoldable pub assign : List String → List V → Tensors → Tensors
  assign [] vs env = env
  assign (x ∷ xs) [] env = env
  assign (x ∷ xs) (v ∷ vs) env = assign xs vs (λ y. if str_eq x y then v else env y)

  -- The nodes stand in an order in which they can be run.
  unfoldable pub run : List (Node A) → Tensors → Tensors
  unfolding assign
  run [] env = env
  run (n ∷ ns) env = run ns (assign n.output (op n.attrs (map env n.input)) env)

  module _ (ρ : String → String) (P : String → Type 0)
      (inj : (x y : String) → P x → P y → ρ x ≡ ρ y → x ≡ y) where
    -- The same tensors under other names.
    abbrev pub Agrees : Tensors → Tensors → Type 0
    Agrees env env' = (x : String) → P x → env' (ρ x) ≡ env x

    abbrev pub Named : Node A → Type 0
    Named n = All P n.input × All P n.output

    assign-Agrees :
        (xs : List String) (vs : List V) (env env' : Tensors)
        → All P xs
        → Agrees env env'
        → Agrees (assign xs vs env) (assign (map ρ xs) vs env')
    unfolding assign
    assign-Agrees [] vs env env' h k = k
    assign-Agrees (x ∷ xs) [] env env' h k = k
    assign-Agrees (x ∷ xs) (v ∷ vs) env env' (p, h) k = assign-Agrees xs vs _ _ h (λ y q.
        elim (Bool-cases (str_eq x y)) [
          | inl t ↦
              let e : ρ x ≡ ρ y = ap ρ ((eq_iff x y).0 t) in rw (t, (eq_iff (ρ x) (ρ y)).1 e) refl
          | inr t ↦
              let ne : ρ x ≢ ρ y =
                λ e. absurd (ground (arith, t, (eq_iff x y).1 (inj x y p q e))) in
              rw (t, str_ne (ρ x) (ρ y) ne) (k y q)
        ])

    map-Agrees :
        (xs : List String) (env env' : Tensors)
        → All P xs
        → Agrees env env'
        → map env' (map ρ xs) ≡ map env xs
    map-Agrees [] env env' h k = refl
    map-Agrees (x ∷ xs) env env' (p, h) k = λ i. k x p i ∷ map-Agrees xs env env' h k i

    -- Nodes under other names compute the same tensors under those names.
    pub run-Agrees :
        (ns : List (Node A)) (env env' : Tensors)
        → All Named ns
        → Agrees env env'
        → Agrees (run ns env) (run (map (rename_node ρ) ns) env')
    unfolding run
    run-Agrees [] env env' h k = k
    run-Agrees (n ∷ ns) env env' ((hi, ho), h) k = run-Agrees ns _ _ h (
        rw (map-Agrees n.input env env' hi k)
          (assign-Agrees n.output (op n.attrs (map env n.input)) env env' ho k))
