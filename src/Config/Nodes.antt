-- ===== src/Config/Nodes.antt =====
-- The configuration on different nodes, and the disposable copies of the batch search.
use Prim.Native.Char.{Char, char, code}
use Prim.Native.String
use Prim.Native.String.{◌++◌ as ◌<>◌}
use text.Mathlib.TextLemmas.{
  append_cancel_left, append_assoc, length-append, cons-append, head-eq_of_cons-eq,
}
use graph_extraction.Base.{
  ℕ, ◌≡◌, ◌≢◌, refl, sym, ap, ◌∙◌, String, some, length, leb, arith, Bool-cases, inl, inr,
}
use graph_extraction.Base.Dict.{lookup}
use graph_extraction.Base.Texts.{str_eq_self}
use graph_extraction.Config.{
  LossType, masked_sum_loss, squared_diff_loss, normalized_squared_diff_loss, envelope_diff_loss,
  loss_value, loss_of, ModelConfig, batch_for_node, dir, probe_cfg,
}

-- A loss type is found again by its value.
pub loss_of-loss_value : (l : LossType) → loss_of (loss_value l) ≡ some l
unfolding loss_of
loss_of-loss_value masked_sum_loss = refl
loss_of-loss_value squared_diff_loss = refl
loss_of-loss_value normalized_squared_diff_loss = refl
loss_of-loss_value envelope_diff_loss = refl

suffix-ne-slash : (s t : String) → ("_batch_probe_" <> s) ≢ ("/" <> t)
suffix-ne-slash s t e =
    let under : Char = char 95 tt in
    let slash : Char = char 47 tt in
    let a : ("_batch_probe_" <> s) ≡ String.◌∷◌ under ("batch_probe_" <> s) =
      cons-append under "batch_probe_" s in
    let b : ("/" <> t) ≡ String.◌∷◌ slash ("" <> t) = cons-append slash "" t in
    let h : under ≡ slash = head-eq_of_cons-eq (sym a ∙ e ∙ b) in
    let k : 95 ≡ 47 = ap code h in absurd (omega (arith, k))

-- The copy for a probe has the size to probe on its node, and a directory that is not the
-- configuration's own, on whatever node.
pub probe_cfg_lem :
    (cfg : ModelConfig) (node other : String) (batch : ℕ)
    → (batch_for_node (probe_cfg cfg node batch) node ≡ batch)
      × (dir (probe_cfg cfg node batch) node ≢ dir cfg other)
unfolding probe_cfg batch_for_node dir lookup
probe_cfg_lem cfg node other batch = (rw (str_eq_self node) refl, differs)
  where
    suffix : String
    suffix = "_batch_probe_" <> node

    differs : ("onnx_models/" <> (cfg.name <> suffix)) ≢ dir cfg other
    differs e = elim (Bool-cases (leb (length cfg.batch_by_node) 1)) [
      | inl t ↦
          let e' : ("onnx_models/" <> (cfg.name <> suffix)) ≡ ("onnx_models/" <> cfg.name) =
            rw t at e in
          let k : (cfg.name <> suffix) ≡ cfg.name =
            append_cancel_left "onnx_models/" (cfg.name <> suffix) cfg.name e' in
          let n = ap String.count k in
          absurd
            (omega (arith, n, length-append cfg.name suffix, length-append "_batch_probe_" node))
      | inr t ↦
          let e' : ("onnx_models/" <> (cfg.name <> suffix))
              ≡ (("onnx_models/" <> cfg.name) <> ("/" <> other)) =
            rw t at e in
          suffix-ne-slash node other (
            append_cancel_left ("onnx_models/" <> cfg.name) suffix ("/" <> other)
              (append_assoc "onnx_models/" cfg.name suffix ∙ e'))
    ]
