-- ===== src/Index/Closure.antt =====
-- crates/index/src/import_graph.rs: module import closures and their digests. A path is the list
-- of its components; module names hold no slash. The file system, the JSON parser and SHA-256
-- are the fields of `Files`.
pub mod Reach
mod Merge
mod Store
pub mod Traversal
mod Visit
pub mod Members
pub mod Digest
pub mod Local
pub mod Samples
mod Tests
use Prim.Native.Char.{code}
use Prim.Native.String.{◌∷◌ as cons, ◌++◌ as append}
use lean_dup.Base.{
  ℕ, zero, suc, String, Bool, true, false, ◌&&◌, not, Option, none, some, List, [], ◌∷◌, ◌++◌, map,
  nat_eq, text_ord, if◌then◌else◌, find, is_empty, filter, ◌==◌,
}
use mathlib.Core.Option
use lean_dup.Base.Maps
use lean_dup.Base.Maps.{get_or_default}
use lean_dup.Base.Sets

abbrev pub FilePath : Type 0
FilePath = List String

-- What one run sees of the disk: `is_file`, `read` (`none` for an error), the direct imports that
-- `serde_json` finds in an `.ilean` document, and the hexadecimal SHA-256 of some bytes.
pub record Files : Type 0 where
  pub build_roots : List FilePath
  pub source_roots : List FilePath
  pub is_file : FilePath → Bool
  pub read : FilePath → Option (List ℕ)
  pub parse_imports : List ℕ → Option (List String)
  pub bytes : String → List ℕ
  pub hex_digest : List ℕ → String

pub record Resolver : Type 0 where
  pub direct : List (String × Option (List String))
  pub members : List (String × List String)
  pub content : List (String × String)

abbrev pub fresh : Resolver
fresh = record { direct = []; members = []; content = [] }

-- `module.split('.')`, pushed one by one: an empty component adds nothing to a path.
pub add_char : String → List String → List String
add_char c [] = c ∷ []
add_char c (x ∷ xs) = append c x ∷ xs

pub split_dots : String → List String
split_dots String.[] = "" ∷ []
split_dots (cons c s) =
    let rest = split_dots s in
    if nat_eq (code c) b'.' then "" ∷ rest else add_char (cons c String.[]) rest

pub set_extension : String → List String → List String
set_extension extension [] = []
set_extension extension (x ∷ []) = append x (append "." extension) ∷ []
set_extension extension (x ∷ y ∷ ys) = x ∷ set_extension extension (y ∷ ys)

pub module_file_name : String → String → FilePath
module_file_name name extension =
    set_extension extension (filter (λ part. not (part == "")) (split_dots name))

abbrev pub and_then? {ℓ κ} : {A : Type ℓ} {B : Type κ} → Option A → (A → Option B) → Option B
and_then? none f = none
and_then? (some a) f = f a

-- The variables of the loop in `closure_members`; the top of the stack comes first.
pub record Walk : Type 0 where
  pub stack : List (String × Bool)
  pub result : List String
  pub resolver : Resolver

pub is_member : String → Resolver → Bool
is_member name r = Maps.contains_key name r.members

pub push_imports :
    List String → List String → Resolver → List (String × Bool) → List (String × Bool)
push_imports [] result r stack = stack
push_imports (i ∷ is) result r stack =
    push_imports is result r
      (if not (is_member i r) && not (Sets.contains i result) then (i, false) ∷ stack else stack)

pub merge_members : List String → Resolver → List String → List String
merge_members [] r merged = merged
merge_members (i ∷ is) r merged =
    merge_members is r (Sets.extend (get_or_default [] (Maps.get i r.members)) merged)

-- The branch `if expanded`, after its imports are known.
pub memoize : String → List String → List (String × Bool) → List String → Resolver → Walk
memoize current found stack result r =
    let merged = Sets.insert current (merge_members found r []) in
    record {
      stack = stack;
      result = Sets.extend merged (Sets.insert current result);
      resolver = record r { members = Maps.insert current merged r.members };
    }

pub answer : String → Walk → List String × Resolver
answer name w = (get_or_default w.result (Maps.get name w.resolver.members), w.resolver)

module _ (files : Files) where
  pub ilean_path : String → Option FilePath
  ilean_path name =
      let relative = module_file_name name "ilean" in
      find files.is_file (map (λ root. root ++ relative) files.build_roots)

  pub source_search : FilePath → List FilePath → Option FilePath
  source_search relative [] = none
  source_search relative (root ∷ roots) =
      let rest = source_search relative roots in
      if files.is_file (root ++ relative)
      then some (root ++ relative)
      else if files.is_file (root ++ "src" ∷ relative)
      then some (root ++ "src" ∷ relative)
      else rest

  pub source_path : String → Option FilePath
  source_path name = source_search (module_file_name name "lean") files.source_roots

  -- What `direct_imports` computes on a miss, and what it answers.
  pub read_imports : String → Option (List String)
  read_imports name =
      and_then? (ilean_path name) (λ path. and_then? (files.read path) files.parse_imports)

  pub imports : String → List String
  imports name = get_or_default [] (read_imports name)

  pub direct_imports : String → Resolver → List String × Resolver
  direct_imports name r = elim (Maps.get name r.direct) [
    | some cached ↦ (get_or_default [] cached, r)
    | none ↦ (
      get_or_default [] (read_imports name),
      record r { direct = Maps.insert name (read_imports name) r.direct },
    )
  ]

  pub expand : String → List (String × Bool) → List String → Resolver → Walk
  expand current stack result r =
      let (found, r') = direct_imports current r in
      record {
        stack = push_imports found result r' ((current, true) ∷ stack);
        result = result;
        resolver = r';
      }

  pub finish : String → List (String × Bool) → List String → Resolver → Walk
  finish current stack result r =
      let (found, r') = direct_imports current r in memoize current found stack result r'

  -- One round of `while let Some((current, expanded)) = stack.pop()`.
  pub visit : String → Bool → List (String × Bool) → List String → Resolver → Walk
  visit current expanded stack result r =
      if Sets.contains current result
      then record { stack = stack; result = result; resolver = r }
      else if expanded
      then finish current stack result r
      else if is_member current r
      then record { stack = stack; result = result; resolver = r }
      else expand current stack result r

  pub round : Walk → Walk
  round w = elim w.stack [
    | [] ↦ w
    | (current, expanded) ∷ stack ↦ visit current expanded stack w.result w.resolver
  ]

  -- The loop, with fuel: `none` means that the fuel ran out.
  pub walk : ℕ → Walk → Option Walk
  walk zero w = none
  walk (suc f) w = let rest = walk f (round w) in if is_empty w.stack then some w else rest

  pub closure_members : ℕ → String → Resolver → Option (List String × Resolver)
  closure_members fuel name r = elim (Maps.get name r.members) [
    | some cached ↦ some (cached, r)
    | none ↦
        Option.map (answer name)
          (walk fuel (record { stack = (name, false) ∷ []; result = []; resolver = r }))
  ]

  -- The source file, else the `.ilean` file, else the name.
  pub fresh_digest : String → String
  fresh_digest name =
      let of_ilean = and_then? (ilean_path name) files.read in
      get_or_default (files.hex_digest (files.bytes name)) (
        Option.map files.hex_digest
          (elim (and_then? (source_path name) files.read) [ some b ↦ some b | none ↦ of_ilean ]))

  pub content_digest : String → Resolver → String × Resolver
  content_digest name r = elim (Maps.get name r.content) [
    | some cached ↦ (cached, r)
    | none ↦
        let digest = fresh_digest name in
        (digest, record r { content = Maps.insert name digest r.content })
  ]

  -- The loop of `closure_digest` over the ordered members.
  pub ingredients : List String → String → Resolver → String × Resolver
  ingredients [] text r = (text, r)
  ingredients (m ∷ ms) text r =
      let (digest, r') = content_digest m r in
      ingredients ms (append text (append m (append "\n" (append digest "\n")))) r'

  pub digest_members : List String × Resolver → String × Resolver
  digest_members (ms, r) =
      let (text, r') = ingredients ms "" r in (files.hex_digest (files.bytes text), r')

  pub closure_digest : ℕ → String → Resolver → Option (String × Resolver)
  closure_digest fuel name r = Option.map digest_members (closure_members fuel name r)
