-- ===== src/Index/Closure/Tests.antt =====
-- Runs of the walk on small disks, and the theorems at them.
use lean_dup.Base.{◌≡◌, refl, String, List, [], ◌∷◌, some, text_ord}
use lean_dup.Index.Closure.{
  Resolver, fresh, module_file_name, split_dots, add_char, set_extension, ilean_path, source_path,
  source_search, closure_members, fresh_digest, closure_digest,
}
use lean_dup.Index.Closure.Reach.{IsSound, IsClosure, fresh-IsSound}
use lean_dup.Index.Closure.Members.{closure_members_lem}
use lean_dup.Index.Closure.Local.{closure_digest_local}
use lean_dup.Index.Closure.Samples.{disk, rank, disk-IsAcyclic, enough, enough_1, disks-Agree}

split_test : split_dots "App.Main" ≡ "App" ∷ "Main" ∷ []
unfolding split_dots add_char
split_test = refl

file_test : module_file_name "App.Main" "ilean" ≡ "App" ∷ "Main.ilean" ∷ []
unfolding module_file_name split_dots add_char set_extension
file_test = refl

closure_members_lem_example :
    (s : List String) × (r : Resolver) × (closure_members (disk 0) 7 "App.Main" fresh ≡ some (s, r))
    × IsClosure (disk 0) "App.Main" s
    × IsSound (disk 0) r
closure_members_lem_example =
    closure_members_lem (disk 0) rank (disk-IsAcyclic 0) "App.Main" fresh 7 (fresh-IsSound (disk 0))
      enough

other_moves : fresh_digest (disk 1) "Other" ≡ "edited"
unfolding fresh_digest ilean_path source_path source_search module_file_name split_dots add_char
    set_extension
other_moves = refl

closure_digest_local_example :
    (digest : String) × (q q' : Resolver) × (closure_digest (disk 0) 7 "App.Main" fresh
      ≡ some (digest, q))
    × (closure_digest (disk 1) 7 "App.Main" fresh ≡ some (digest, q'))
closure_digest_local_example =
    closure_digest_local (disk 0) (disk 1) rank rank "App.Main" fresh fresh 7 7 (disk-IsAcyclic 0)
      (disk-IsAcyclic 1) (fresh-IsSound (disk 0)) (fresh-IsSound (disk 1)) enough enough_1
      disks-Agree refl refl
