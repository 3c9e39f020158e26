-- ===== src/Vault/Path/Tests.antt =====
-- internal/vault/path.go: the theorem on cleaned paths, at a path with steps.
use open_seavault_rclone.Shared.{◌≡◌, refl, some, none}
use open_seavault_rclone.Vault.Path.{clean_virtual_path, virtual_join}
use open_seavault_rclone.Vault.Path.Clean.{IsInside, clean_virtual_path-IsInside}

steps_out : clean_virtual_path "a/../../x" ≡ none
unfolding clean_virtual_path
steps_out = refl

join_of_two : virtual_join "content" "/docs\\a" ≡ some "content/docs/a"
unfolding virtual_join
join_of_two = refl

clean_virtual_path-IsInside_example : IsInside "b/c"
unfolding clean_virtual_path
clean_virtual_path-IsInside_example = clean_virtual_path-IsInside " /a/../b//./c " "b/c" refl
