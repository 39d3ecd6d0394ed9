-- ===== src/Tests/Dialects.antt =====
-- Paths of a configuration in both dialects, on concrete inputs.
use cageforge.Base.{
  ℕ, Bool, true, false, ◌&&◌, not, List, [], ◌∷◌, Text, codes, ascii_lower, map, ◌≡◌, refl, arith,
}
use cageforge.Path.Compare.{paths_equal, contains_parent_traversal}
use cageforge.Path.Dialect.{
  PathDialect, Lowercase, platform_key_eq, is_absolute_text, contains_parent_traversal_text,
  new_platform_key,
}
use cageforge.Path.Dialect.Host.{posix_reading-eq-host}

instance abbrev ascii_table : Lowercase
ascii_table = record { to_lowercase = map ascii_lower }

abbrev same_on_windows : Text → Text → Bool
same_on_windows a b =
    platform_key_eq (new_platform_key a PathDialect.windows)
      (new_platform_key b PathDialect.windows)

-- Spellings of one drive, of one share, and of a drive and a share.
windows_runs :
    (same_on_windows (codes "\\\\?\\C:\\Work") (codes "c:/work/./")
      && (same_on_windows (codes "\\\\?\\UNC\\host\\share") (codes "//HOST/share")
          && not (same_on_windows (codes "c:/work") (codes "//c/work"))))
    ≡ true
unfolding platform_key_eq new_platform_key cageforge.Base.text_eq
windows_runs = refl

windows_absolute_runs :
    (is_absolute_text (codes "c:\\work") PathDialect.windows
      && (not (is_absolute_text (codes "c:work") PathDialect.windows)
          && (contains_parent_traversal_text (codes "a\\..") PathDialect.windows
              && not (contains_parent_traversal_text (codes "a\\..") PathDialect.posix))))
    ≡ true
unfolding is_absolute_text contains_parent_traversal_text
windows_absolute_runs = refl

posix_reading-eq-host_example :
    (platform_key_eq
        (new_platform_key (codes "/w/./a/..") PathDialect.posix)
        (new_platform_key (codes "//w/a/../") PathDialect.posix)
      ≡ paths_equal (codes "/w/./a/..") (codes "//w/a/../"))
    × (contains_parent_traversal_text (codes "/w/./a/..") PathDialect.posix
        ≡ contains_parent_traversal (codes "/w/./a/.."))
posix_reading-eq-host_example = posix_reading-eq-host (codes "/w/./a/..") (codes "//w/a/../")
