-- ===== src/Migration/StagingKey/Tests.antt =====
-- Staging names of generateStorageURL.
use virtrigaud.Prelude.{◌≡◌, refl, inl, arith, String}
use virtrigaud.Migration.StagingKey.Laws.{SlashFree, staging_key_injective}

ns-SlashFree : SlashFree "ns"
ns-SlashFree = ground arith

vm-SlashFree : SlashFree "vm"
vm-SlashFree = ground arith

staging_key_injective_example : (◌≡◌ {A = String} "ns" "ns") × (◌≡◌ {A = String} "vm" "vm")
staging_key_injective_example =
    staging_key_injective "ns" "vm" "export" "ns" "vm" "export" ns-SlashFree vm-SlashFree
      ns-SlashFree vm-SlashFree (inl refl)
