-- ===== src/KvCache/Layers.antt =====
-- The number of layers, counted from the names of a graph's inputs.
use Prim.Native.String.{◌++◌ as ◌<>◌}
use text.Mathlib.TextLemmas.{append_assoc}
use text.Mathlib.TextPositions.{starts_with-append}
use graph_extraction.Base.{
  ℕ, zero, suc, ◌+◌, ◌≡◌, refl, sym, ap, ◌∙◌, String, true, false, List, ◌++◌, arith,
}
use graph_extraction.Base.Texts.{ends_with, ends_with-append, ends_with-append_other}
use graph_extraction.Base.Decimal.{show}
use graph_extraction.KvCache.{is_past_key, kv_names_from, past_kv_input_names, count_layers}

abbrev stem : String
stem = "past_key_values."

key_counts : (i : ℕ) → is_past_key (stem <> (show i <> ".key")) ≡ true
key_counts i =
    let a = starts_with-append stem (show i <> ".key") in
    let b : ends_with (stem <> (show i <> ".key")) ".key" ≡ true =
      ap (λ s. ends_with s ".key") (sym (append_assoc stem (show i) ".key"))
      ∙ ends_with-append (stem <> show i) ".key" in
    rw (a, b) refl

value_counts_not : (i : ℕ) → is_past_key (stem <> (show i <> ".value")) ≡ false
unfolding ends_with
value_counts_not i =
    let a = starts_with-append stem (show i <> ".value") in
    let b : ends_with (stem <> (show i <> ".value")) ".key" ≡ false =
      ap (λ s. ends_with s ".key") (sym (append_assoc stem (show i) ".value"))
      ∙ ends_with-append_other (stem <> show i) ".value" ".key" (omega arith) refl in
    rw (a, b) refl

count-kv_names_from :
    (n i : ℕ) (names : List String)
    → count_layers (kv_names_from stem n i ++ names) ≡ n + count_layers names
unfolding count_layers kv_names_from
count-kv_names_from zero i names = omega arith
count-kv_names_from (suc n) i names =
    rw (key_counts i, value_counts_not i) (omega (arith, count-kv_names_from n (suc i) names))

-- Behind the inputs for the past of `n` layers, the count goes on from `n`: the number of layers
-- is read back from the names that it has given.
pub count_layers-past_kv_input_names :
    (n : ℕ) (names : List String)
    → count_layers (past_kv_input_names n ++ names) ≡ n + count_layers names
unfolding past_kv_input_names
count_layers-past_kv_input_names n names = count-kv_names_from n 0 names
