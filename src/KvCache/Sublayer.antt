-- ===== src/KvCache/Sublayer.antt =====
-- `ensure_kv_cache_sublayer` again, once its file is there.
use graph_extraction.Base.{
  ℕ, ◌+◌, ◌≡◌, ◌≢◌, ◌⊎◌, refl, sym, ap, ◌∙◌, subst, String, Bool, false, ◌||◌, Bool-cases,
  Option-cases, inl, inr, Option, some, List, [], ◌∷◌, map, str_eq, All, All-mono, arith,
}
use graph_extraction.Base.Dict.{lookup, insert, lookup-insert}
use graph_extraction.Base.Texts.{mem, str_ne, str_eq_self}
use graph_extraction.Config.{ModelConfig}
use graph_extraction.Onnx.{Graph}
use graph_extraction.KvCache.{Result, ok, raised, rename, rename_tensor}
use graph_extraction.KvCache.Files.{
  Onnx, KvSublayer, hidden_in, hidden_out, without, used_names, keep_inputs, attention_layer,
  kv_cache_model_path, kv_cache_sublayer_path, Files, boundary_tensor, cut, extract_sublayer,
  cached_sublayer, ensure_kv_cache_sublayer,
}

-- What the documentation says of the extractor: the inputs of the graph are the names asked for.
pub record IsExtractor {A : Type 0} (onnx : Onnx A) : Type 0 where
  pub inputs :
      (g g' : Graph A) (ins outs : List String)
      → onnx.extract_model g ins outs ≡ ok g'
      → g'.input ≡ ins

-- Neither the name that the first boundary gets nor the one that the second has.
abbrev pub IsPlain : String → String → Type 0
IsPlain out_name i = (i ≢ hidden_in) × (i ≢ out_name)

module _ (in_name out_name : String) (apart : in_name ≢ out_name)
    (other : out_name ≢ hidden_in) where
  renamed : String → String
  renamed i = rename out_name hidden_out (rename in_name hidden_in i)

  -- The inputs besides the boundary are the same before and after the renaming.
  without-renamed :
      (is : List String)
      → All (λ i. (i ≡ in_name) ⊎ IsPlain out_name i) is
      → without hidden_in (map renamed is) ≡ without in_name is
  unfolding without renamed
  without-renamed [] h = refl
  without-renamed (i ∷ is) (inl e, h) =
      rw (e, str_eq_self in_name, str_ne hidden_in out_name (λ k. other (sym k)))
        (without-renamed is h)
  without-renamed (i ∷ is) (inr (a, b), h) = elim (Bool-cases (str_eq i in_name)) [
    | inl t ↦ rw (t, str_ne hidden_in out_name (λ k. other (sym k))) (without-renamed is h)
    | inr t ↦
        rw (t, str_ne i out_name b, str_ne i hidden_in a) (ap (λ xs. i ∷ xs) (without-renamed is h))
  ]

All-keep_inputs :
    (P : String → Type 0) (in_name : String) (used is : List String)
    → All P is
    → All P (keep_inputs in_name used is)
unfolding keep_inputs
All-keep_inputs P in_name used [] h = tt
All-keep_inputs P in_name used (i ∷ is) (p, h) =
    elim (Bool-cases (str_eq i in_name || mem i used)) [
      | inl t ↦ rw t (p, All-keep_inputs P in_name used is h)
      | inr t ↦ rw t (All-keep_inputs P in_name used is h)
    ]

map-map : (f g : String → String) (xs : List String) → map f (map g xs) ≡ map (λ x. f (g x)) xs
map-map f g [] = refl
map-map f g (x ∷ xs) = ap (λ ys. f (g x) ∷ ys) (map-map f g xs)

ok-inj : {B : Type 0} {a b : B} → ok a ≡ ok b → a ≡ b
ok-inj {B} {a} {b} e = ap (λ r. elim r [ ok x ↦ x | raised y ↦ a ]) e

module _ {A : Type 0} (onnx : Onnx A) (cfg : ModelConfig) (node : String)
    (law : IsExtractor onnx) where
  module _ (g : Graph A) (j_in : ℕ) (in_name out_name : String)
      (at_in : boundary_tensor onnx cfg node g j_in ≡ ok in_name)
      (at_out : boundary_tensor onnx cfg node g (j_in + 1) ≡ ok out_name)
      (apart : in_name ≢ out_name) (other : out_name ≢ hidden_in)
      (plain : All (IsPlain out_name) g.input) where
    -- What is read back from the file is what was returned when it was written.
    cut-cached :
        (path : String) (e : Graph A)
        → e.input ≡ in_name ∷ g.input
        → cached_sublayer onnx cfg node j_in path (cut onnx cfg node in_name out_name e) ≡ record {
          path = path;
          j_in = j_in;
          layer_idx = attention_layer j_in;
          extra_inputs = without in_name (keep_inputs in_name (used_names e.node) e.input);
        }
    unfolding rename_tensor
    cut-cached path e x =
        let kept = keep_inputs in_name (used_names e.node) e.input in
        let kinds : All (λ i. (i ≡ in_name) ⊎ IsPlain out_name i) e.input =
          subst (All (λ i. (i ≡ in_name) ⊎ IsPlain out_name i)) (sym x) (
            inl refl,
            All-mono (IsPlain out_name) (λ i. (i ≡ in_name) ⊎ IsPlain out_name i) g.input
                (λ i p. inr p) plain,
          ) in
        let same : without hidden_in
              (map (rename out_name hidden_out) (map (rename in_name hidden_in) kept))
            ≡ without in_name kept =
          ap (without hidden_in)
            (map-map (rename out_name hidden_out) (rename in_name hidden_in) kept)
          ∙ unfold renamed in
            without-renamed in_name out_name apart other kept (
              All-keep_inputs (λ i. (i ≡ in_name) ⊎ IsPlain out_name i) in_name (used_names e.node)
                e.input kinds) in
        ap
          (λ (xs : List String). record {
            path = path;
            j_in = j_in;
            layer_idx = attention_layer j_in;
            extra_inputs = xs;
          })
          same

    extract_sublayer-cached :
        (path : String) (s s' : Files onnx cfg node) (sub : KvSublayer)
        → extract_sublayer onnx cfg node j_in path g s ≡ ok (sub, s')
        → (c : Graph A) × (s' ≡ insert path c s) × (cached_sublayer onnx cfg node j_in path c ≡ sub)
    unfolding extract_sublayer
    extract_sublayer-cached path s s' sub h =
        finish (onnx.extract_model (onnx.infer_shapes g) (in_name ∷ g.input) (out_name ∷ [])) refl
      where
        finish :
            (r : Result (Graph A))
            → onnx.extract_model (onnx.infer_shapes g) (in_name ∷ g.input) (out_name ∷ []) ≡ r
            → (c : Graph A) × (s' ≡ insert path c s)
              × (cached_sublayer onnx cfg node j_in path c ≡ sub)
        finish (raised e) x = absurd (ground (arith, rw (at_in, at_out, x) at h))
        finish (ok e) x =
            let sub' : KvSublayer = record {
              path = path;
              j_in = j_in;
              layer_idx = attention_layer j_in;
              extra_inputs = without in_name (keep_inputs in_name (used_names e.node) e.input);
            } in
            let c = cut onnx cfg node in_name out_name e in
            let y : ok (sub', insert path c s) ≡ ok (sub, s') = rw (at_in, at_out, x) at h in
            let p : sub' ≡ sub = ap (λ r. r.0) (ok-inj y) in
            let q : insert path c s ≡ s' = ap (λ r. r.1) (ok-inj y) in
            (c, sym q, cut-cached path e (law.inputs _ e _ _ x) ∙ p)

    -- Where the extractor gives a model the inputs it is asked for, the base model is there and has
    -- the two boundaries, their names differ, the second is not called `hidden_in`, and no input of
    -- the model is called `hidden_in` or like the second boundary: what `ensure_kv_cache_sublayer`
    -- returns when it writes the file, or finds it, a further call without `force` returns too, and
    -- it leaves the files as they are.
    pub ensure_kv_cache_sublayer_again :
        (out_dir : Option String) (force : Bool) (s s' : Files onnx cfg node) (sub : KvSublayer)
        → lookup (kv_cache_model_path cfg node) s ≡ some g
        → ensure_kv_cache_sublayer onnx cfg node j_in out_dir force s ≡ ok (sub, s')
        → ensure_kv_cache_sublayer onnx cfg node j_in out_dir false s' ≡ ok (sub, s')
    unfolding ensure_kv_cache_sublayer
    ensure_kv_cache_sublayer_again out_dir force s s' sub m h =
        elim (Option-cases (lookup path s)) [
          | inl x ↦ written (rw (m, x) at h)
          | inr (c, x) ↦ elim (Bool-cases force) [
            | inl t ↦ written (rw (m, x, t) at h)
            | inr t ↦
                let y : ok (cached_sublayer onnx cfg node j_in path c, s) ≡ ok (sub, s') =
                  rw (m, x, t) at h in
                let p = ap (λ r. r.1) (ok-inj y) in
                subst
                  (λ u. ensure_kv_cache_sublayer onnx cfg node j_in out_dir false u ≡ ok (sub, u)) p
                  (rw (m, x) (ap (λ r. ok (r.0, s)) (ok-inj y)))
          ]
        ]
      where
        path : String
        path = kv_cache_sublayer_path cfg node j_in out_dir

        found :
            (c : Graph A)
            → s' ≡ insert path c s
            → (k : Graph A) × (lookup (kv_cache_model_path cfg node) s' ≡ some k)
        found c e = elim (Bool-cases (str_eq path (kv_cache_model_path cfg node))) [
          | inl t ↦ (c, rw (e, lookup-insert, t) refl)
          | inr t ↦ (g, rw (e, lookup-insert, t) m)
        ]

        written :
            extract_sublayer onnx cfg node j_in path g s ≡ ok (sub, s')
            → ensure_kv_cache_sublayer onnx cfg node j_in out_dir false s' ≡ ok (sub, s')
        written w =
            let (c, e, k) = extract_sublayer-cached path s s' sub w in
            let (b, l) = found c e in
            let there : lookup path s' ≡ some c = rw (e, lookup-insert, str_eq_self path) refl in
            rw (l, there) (ap (λ r. ok (r, s')) k)
