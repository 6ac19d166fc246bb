-- ===== src/Browser/Depth.antt =====
-- The fuel of `files_under`.
use mathlib.Core.Path.{ap₂}
use graph_extraction.Base.{
  ℕ, zero, suc, ◌+◌, ◌<◌, ◌≡◌, refl, ap, ◌∙◌, inl, inr, String, true, List, [], ◌∷◌, ◌++◌, length,
  length-append, All, All-append, Bool-cases, arith,
}
use graph_extraction.Upload.State.{Ptr}
use graph_extraction.Browser.{
  Dir, Node, Tree, empty_node, same_dir, dir_mem, node_at, change_node, add_subdir, add_file,
  parts_of, add_parts, no_change, add_ptrs, build_tree, files_of_all, files_below, depth,
  files_under,
}

same_dir-length : (d e : Dir) → same_dir d e ≡ true → length d ≡ length e
unfolding same_dir
same_dir-length [] [] h = refl
same_dir-length [] (y ∷ ys) h = absurd (ground arith)
same_dir-length (x ∷ xs) [] h = absurd (ground arith)
same_dir-length (x ∷ xs) (y ∷ ys) h = ap suc (same_dir-length xs ys (ground (arith, h)))

-- A subdirectory's path has one name more.
abbrev IsBelow : Dir → Node → Type 0
IsBelow d node = All (λ (c : Dir). length c ≡ suc (length d)) node.subdirs

abbrev IsLayered : Tree → Type 0
IsLayered [] = Unit
IsLayered ((d, node) ∷ tree) = IsBelow d node × IsLayered tree

IsBelow-same :
    (d e : Dir) (cs : List Dir)
    → length d ≡ length e
    → All (λ (c : Dir). length c ≡ suc (length d)) cs
    → All (λ (c : Dir). length c ≡ suc (length e)) cs
IsBelow-same d e [] q h = tt
IsBelow-same d e (c ∷ cs) q h = (h.0 ∙ ap suc q, IsBelow-same d e cs q h.1)

node_at-IsBelow : (d : Dir) (tree : Tree) → IsLayered tree → IsBelow d (node_at d tree)
unfolding node_at
node_at-IsBelow d [] h = tt
node_at-IsBelow d ((e, node) ∷ tree) h = elim (Bool-cases (same_dir e d)) [
  | inl t ↦ rw t (IsBelow-same e d node.subdirs (same_dir-length e d t) h.0)
  | inr t ↦ rw t (node_at-IsBelow d tree h.1)
]

node_at-deep : (d : Dir) (tree : Tree) → depth tree < length d → node_at d tree ≡ empty_node
unfolding node_at depth
node_at-deep d [] h = refl
node_at-deep d ((e, node) ∷ tree) h = elim (Bool-cases (same_dir e d)) [
  | inl t ↦ let q = same_dir-length e d t in absurd (ground (arith, h, q))
  | inr t ↦ rw t (node_at-deep d tree (ground (arith, h)))
]

files_of_all-cong :
    (f g : Dir → List Ptr) (n : ℕ) (cs : List Dir)
    → All (λ (c : Dir). length c ≡ n) cs
    → ((c : Dir) → length c ≡ n → f c ≡ g c)
    → files_of_all f cs ≡ files_of_all g cs
unfolding files_of_all
files_of_all-cong f g n [] h k = refl
files_of_all-cong f g n (c ∷ cs) h k =
    ap₂ (λ x y. x ++ y) (k c h.0) (files_of_all-cong f g n cs h.1 k)

files_below-suc :
    (tree : Tree)
    → IsLayered tree
    → (n : ℕ) (d : Dir) → depth tree < n + length d
    → files_below (suc n) d tree ≡ files_below n d tree
unfolding files_below files_of_all
files_below-suc tree h zero d l = rw (node_at-deep d tree (omega (arith, l))) refl
files_below-suc tree h (suc n) d l =
    ap (λ fs. (node_at d tree).files ++ fs)
      (files_of_all-cong (λ e. files_below (suc n) e tree) (λ e. files_below n e tree)
        (suc (length d)) (node_at d tree).subdirs (node_at-IsBelow d tree h)
        (λ c q. files_below-suc tree h n c (omega (arith, l, q))))

change_node-IsLayered :
    (d : Dir) (f : Node → Node)
    → ((e : Dir) → length e ≡ length d → (node : Node) → IsBelow e node → IsBelow e (f node))
    → (tree : Tree) → IsLayered tree
    → IsLayered (change_node d f tree)
unfolding change_node
change_node-IsLayered d f k [] h = (k d refl empty_node tt, tt)
change_node-IsLayered d f k ((e, node) ∷ tree) h = elim (Bool-cases (same_dir e d)) [
  | inl t ↦ rw t (k e (same_dir-length e d t) node h.0, h.1)
  | inr t ↦ rw t (h.0, change_node-IsLayered d f k tree h.1)
]

add_subdir-IsBelow :
    (above : Dir) (name : String) (e : Dir)
    → length e ≡ length above
    → (node : Node) → IsBelow e node
    → IsBelow e (add_subdir (above ++ name ∷ []) node)
add_subdir-IsBelow above name e q node h =
    elim (Bool-cases (dir_mem (above ++ name ∷ []) node.subdirs)) [
      | inl t ↦ rw t h
      | inr t ↦
          rw t
            (All-append _ node.subdirs _ h (omega (arith, q, length-append above (name ∷ [])), tt))
    ]

add_parts-IsLayered :
    (above : Dir) (parts : List String) (p : Ptr) (tree : Tree)
    → IsLayered tree
    → IsLayered (add_parts above parts p tree)
unfolding add_parts
add_parts-IsLayered above [] p tree h = h
add_parts-IsLayered above (name ∷ []) p tree h =
    change_node-IsLayered above (add_file p) (λ e q node b. b) tree h
add_parts-IsLayered above (part ∷ next ∷ parts) p tree h =
    add_parts-IsLayered (above ++ part ∷ []) (next ∷ parts) p _ (
      change_node-IsLayered above (add_subdir (above ++ part ∷ [])) (add_subdir-IsBelow above part)
        tree h)

add_ptrs-IsLayered :
    (ptrs : List Ptr) (tree : Tree) → IsLayered tree → IsLayered (add_ptrs ptrs tree)
unfolding add_ptrs
add_ptrs-IsLayered [] tree h = h
add_ptrs-IsLayered (p ∷ ps) tree h =
    add_ptrs-IsLayered ps _ (add_parts-IsLayered [] (parts_of p.original_path) p tree h)

build_tree-IsLayered : (ptrs : List Ptr) → IsLayered (build_tree ptrs)
unfolding build_tree
build_tree-IsLayered ptrs =
    change_node-IsLayered [] no_change (λ e q node b. b) (add_ptrs ptrs [])
      (add_ptrs-IsLayered ptrs [] tt)

-- In a tree that `_build_tree` made, more fuel than `files_under` takes finds the same files.
files_under-enough :
    (ptrs : List Ptr) (d : Dir) (more : ℕ)
    → files_below (more + suc (depth (build_tree ptrs))) d (build_tree ptrs)
      ≡ files_under d (build_tree ptrs)
unfolding files_under
files_under-enough ptrs d zero =
    let q : 0 + suc (depth (build_tree ptrs)) ≡ suc (depth (build_tree ptrs)) = omega arith in
    ap (λ n. files_below n d (build_tree ptrs)) q
files_under-enough ptrs d (suc more) =
    let fuel = more + suc (depth (build_tree ptrs)) in
    let q : suc more + suc (depth (build_tree ptrs)) ≡ suc fuel = omega arith in
    ap (λ n. files_below n d (build_tree ptrs)) q
    ∙ files_below-suc (build_tree ptrs) (build_tree-IsLayered ptrs) fuel d (omega arith)
    ∙ files_under-enough ptrs d more
