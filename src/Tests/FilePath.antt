-- ===== src/Tests/FilePath.antt =====
-- Path functions at texts that the Go documentation or the program uses.
use go_container_manager.Prelude.{◌≡◌, refl}
use go_container_manager.FilePath.{join, base, ext, trim_suffix}

join_plain : join "/data" "u1" ≡ "/data/u1"
unfolding join
join_plain = refl

join_dots : join "/tmp/../x/" "./a//b" ≡ "/x/a/b"
unfolding join
join_dots = refl

base_tests :
    (base "../../etc/passwd" ≡ "passwd")
    × (base "a/b/" ≡ "b")
    × (base "///" ≡ "/")
    × (base "" ≡ ".")
unfolding base
base_tests = (refl, refl, refl, refl)

ext_tests : (ext "a.tar.gz" ≡ ".gz") × (ext "noext" ≡ "") × (trim_suffix "a.tar.gz" ".gz" ≡ "a.tar")
unfolding ext trim_suffix
ext_tests = (refl, refl, refl)
