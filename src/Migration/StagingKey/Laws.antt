-- ===== src/Migration/StagingKey/Laws.antt =====
-- Which migrations share a staging name of generateStorageURL in vmmigration_controller.go.
use Prim.Native.Char.{Char}
use Prim.Native.String.{◌++◌}
use text.Mathlib.TextLemmas.{append_assoc}
use virtrigaud.Prelude.{◌≡◌, refl, arith, ◌⊎◌, inl, inr, String}
use virtrigaud.Prelude.Cut.{FreeOf, cut_at}
use virtrigaud.Migration.StagingKey.{pvc_path, s3_key, nfs_key}

abbrev slash : Char
slash = "/"

-- No character of the text is a slash.
abbrev pub SlashFree : String → Type 0
SlashFree s = FreeOf slash s

directory_free : SlashFree "vmmigrations"
directory_free = ground arith

-- The two parts of a path below the directory, whatever follows them
parts_equal :
    (ns n ns' n' rest rest' : String)
    → SlashFree ns
    → SlashFree n
    → SlashFree ns'
    → SlashFree n'
    → "vmmigrations" ++ ("/" ++ (ns ++ ("/" ++ (n ++ ("/" ++ rest)))))
      ≡ "vmmigrations" ++ ("/" ++ (ns' ++ ("/" ++ (n' ++ ("/" ++ rest')))))
    → (ns ≡ ns') × (n ≡ n')
parts_equal ns n ns' n' rest rest' f g f' g' e =
    let (dir, below) =
      cut_at slash "vmmigrations" "vmmigrations" _ _ directory_free directory_free e in
    let (spaces, under) = cut_at slash ns ns' _ _ f f' below in
    (spaces, (cut_at slash n n' rest rest' g g' under).0)

-- On the pvc and s3 backends two migrations share a staging name, of whatever stages, only if they have
-- the same namespace and the same name, when these hold no slash, as no name of a Kubernetes object
-- does.
pub staging_key_injective :
    (namespace name stage namespace' name' stage' : String)
    → SlashFree namespace
    → SlashFree name
    → SlashFree namespace'
    → SlashFree name'
    → ((pvc_path namespace name stage ≡ pvc_path namespace' name' stage')
        ⊎ (s3_key namespace name stage ≡ s3_key namespace' name' stage'))
    → (namespace ≡ namespace') × (name ≡ name')
unfolding pvc_path s3_key
staging_key_injective ns n st ns' n' st' f g f' g' (inl e) = parts_equal ns n ns' n' _ _ f g f' g' e
staging_key_injective ns n st ns' n' st' f g f' g' (inr e) = parts_equal ns n ns' n' _ _ f g f' g' e

-- On the nfs backend different migrations share a staging name: the namespace "a-b" with the name "c",
-- and the namespace "a" with the name "b-c", for any texts a, b and c and every stage.
pub nfs_keys_collide :
    (a b c stage : String) → nfs_key (a ++ ("-" ++ b)) c stage ≡ nfs_key a (b ++ ("-" ++ c)) stage
unfolding nfs_key
nfs_keys_collide a b c stage =
    rw
      (
        append_assoc a ("-" ++ b) _,
        append_assoc "-" b _,
        append_assoc b ("-" ++ c) _,
        append_assoc "-" c _,
      )
      refl
