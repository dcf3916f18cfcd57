-- ===== src/Index/Closure/Samples.antt =====
-- Two small disks that differ outside the closure of a module.
use Prim.Native.Char.{code}
use lean_dup.Base.{
  ℕ, suc, ◌<◌, ◌≡◌, refl, sym, ap, ◌∙◌, subst, String, Bool, true, List, [], ◌∷◌, some, arith,
  if◌then◌else◌, ◌==◌, ◌&&◌, false, nat_eq, text_ord,
}
use lean_dup.Base.Sets
use lean_dup.Index.Closure.{
  FilePath, Files, module_file_name, split_dots, add_char, set_extension, ilean_path, source_path,
  source_search, read_imports, imports, fresh_digest,
}
use lean_dup.Index.Closure.Reach.{Reaches, here, there, IsAcyclic}
use lean_dup.Index.Closure.Traversal.{cost}
use lean_dup.Index.Closure.Local.{Agree}

abbrev pub path_eq : FilePath → FilePath → Bool
path_eq [] [] = true
path_eq [] (y ∷ ys) = false
path_eq (x ∷ xs) [] = false
path_eq (x ∷ xs) (y ∷ ys) = x == y && path_eq xs ys

-- `App.Main` imports `App.Lib`, which imports `Dep.Core`.
abbrev pub depth : FilePath → ℕ
depth p =
    if path_eq p ("build" ∷ "App" ∷ "Main.ilean" ∷ [])
    then 2
    else if path_eq p ("build" ∷ "App" ∷ "Lib.ilean" ∷ [])
    then 1
    else 0

abbrev pub depth_imports : List ℕ → List String
depth_imports [] = []
depth_imports (n ∷ ns) =
    if nat_eq n 2 then "App.Lib" ∷ [] else if nat_eq n 1 then "Dep.Core" ∷ [] else []

abbrev pub codes : String → List ℕ
codes String.[] = []
codes (String.◌∷◌ c s) = code c ∷ codes s

abbrev pub hash : List ℕ → String
hash [] = "none"
hash (n ∷ []) = "single"
hash (n ∷ v ∷ ns) = if nat_eq v 1 then "edited" else "plain"

-- The version shows in the file of the unrelated module `Other` only.
abbrev pub disk : ℕ → Files
disk version = record {
  build_roots = ("build" ∷ []) ∷ [];
  source_roots = [];
  is_file = λ p. true;
  read =
      λ p. some (depth p ∷ (if path_eq p ("build" ∷ "Other.ilean" ∷ []) then version else 0) ∷ []);
  parse_imports = λ bytes. some (depth_imports bytes);
  bytes = codes;
  hex_digest = hash;
}

abbrev pub rank : String → ℕ
rank m = depth ("build" ∷ module_file_name m "ilean")

imports-disk : (v : ℕ) (m : String) → imports (disk v) m ≡ depth_imports (rank m ∷ [])
unfolding imports read_imports ilean_path
imports-disk v m = refl

rank_lib : rank "App.Lib" ≡ 1
unfolding module_file_name split_dots add_char set_extension
rank_lib = refl

rank_core : rank "Dep.Core" ≡ 0
unfolding module_file_name split_dots add_char set_extension
rank_core = refl

rank_main : rank "App.Main" ≡ 2
unfolding module_file_name split_dots add_char set_extension
rank_main = refl

depth_falls : (n : ℕ) (i : String) → Sets.contains i (depth_imports (n ∷ [])) ≡ true → rank i < n
unfolding Sets.contains
depth_falls n i h = ground (
  arith,
  Sets.same_iff i "App.Lib",
  Sets.same_iff i "Dep.Core",
  rank_lib,
  rank_core,
  at i "App.Lib",
  at i "Dep.Core",
)
  where
    at : (i j : String) → i ≡ j → rank i ≡ rank j
    at i j e = ap rank e

pub disk-IsAcyclic : (v : ℕ) → IsAcyclic (disk v) rank
disk-IsAcyclic v = record {
  falls =
      λ m i h. depth_falls (rank m) i (subst (λ s. Sets.contains i s ≡ true) (imports-disk v m) h);
}

main_cost : cost (disk 0) 3 "App.Main" ≡ 6
unfolding cost imports read_imports ilean_path module_file_name split_dots add_char set_extension
main_cost = refl

main_cost_1 : cost (disk 1) 3 "App.Main" ≡ 6
unfolding cost imports read_imports ilean_path module_file_name split_dots add_char set_extension
main_cost_1 = refl

pub enough : cost (disk 0) (suc (rank "App.Main")) "App.Main" < 7
enough =
    subst (λ n. cost (disk 0) (suc n) "App.Main" < 7) (sym rank_main) (omega (arith, main_cost))

pub enough_1 : cost (disk 1) (suc (rank "App.Main")) "App.Main" < 7
enough_1 =
    subst (λ n. cost (disk 1) (suc n) "App.Main" < 7) (sym rank_main) (omega (arith, main_cost_1))

abbrev Unmoved : String → Type 0
Unmoved x = fresh_digest (disk 0) x ≡ fresh_digest (disk 1) x

main-Unmoved : Unmoved "App.Main"
unfolding fresh_digest ilean_path source_path source_search module_file_name split_dots add_char
    set_extension
main-Unmoved = refl

lib-Unmoved : Unmoved "App.Lib"
unfolding fresh_digest ilean_path source_path source_search module_file_name split_dots add_char
    set_extension
lib-Unmoved = refl

core-Unmoved : Unmoved "Dep.Core"
unfolding fresh_digest ilean_path source_path source_search module_file_name split_dots add_char
    set_extension
core-Unmoved = refl

below :
    (v : ℕ) (m i : String) (n : ℕ)
    → rank m ≡ n
    → Sets.contains i (imports (disk v) m) ≡ true
    → Sets.contains i (depth_imports (n ∷ [])) ≡ true
below v m i n e h =
    subst (λ k. Sets.contains i (depth_imports (k ∷ [])) ≡ true) e
      (subst (λ s. Sets.contains i s ≡ true) (imports-disk v m) h)

only : (i j : String) → Sets.contains i (j ∷ []) ≡ true → i ≡ j
unfolding Sets.contains
only i j h = ground (arith, Sets.same_iff i j)

Reaches-core : (x : String) → Reaches (disk 0) x "Dep.Core" → Unmoved x
Reaches-core x (here e) = subst Unmoved e core-Unmoved
Reaches-core x (there i k h) = absurd (Sets.not_contains-nil i (below 0 "Dep.Core" i 0 rank_core k))

Reaches-lib : (x : String) → Reaches (disk 0) x "App.Lib" → Unmoved x
Reaches-lib x (here e) = subst Unmoved e lib-Unmoved
Reaches-lib x (there i k h) =
    Reaches-core x
      (subst (Reaches (disk 0) x) (only i "Dep.Core" (below 0 "App.Lib" i 1 rank_lib k)) h)

Reaches-main : (x : String) → Reaches (disk 0) x "App.Main" → Unmoved x
Reaches-main x (here e) = subst Unmoved e main-Unmoved
Reaches-main x (there i k h) =
    Reaches-lib x
      (subst (Reaches (disk 0) x) (only i "App.Lib" (below 0 "App.Main" i 2 rank_main k)) h)

pub disks-Agree : Agree (disk 0) (disk 1) "App.Main"
disks-Agree = record {
  same_imports = λ x h. imports-disk 0 x ∙ sym (imports-disk 1 x);
  same_content = Reaches-main;
}
