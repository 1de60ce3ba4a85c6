-- ===== src/Settings/Sections.antt =====
-- The comparison of sections in `Filter` and `GetSectionStringMap`.
use radondb_clickhouse_opera.Base.{◌≡◌, refl, Bool, true, false}
use radondb_clickhouse_opera.Settings.Path.{
  Section, section_empty, section_common, section_users, section_host,
}
use radondb_clickhouse_opera.Settings.{same_section}

-- equality of sections
abbrev pub is_section : Section → Section → Bool
is_section section_empty section_empty = true
is_section section_common section_common = true
is_section section_users section_users = true
is_section section_host section_host = true
is_section a b = false

pub same_section-eq : (a b : Section) → same_section a b ≡ is_section a b
unfolding same_section
same_section-eq section_empty section_empty = refl
same_section-eq section_empty section_common = refl
same_section-eq section_empty section_users = refl
same_section-eq section_empty section_host = refl
same_section-eq section_common section_empty = refl
same_section-eq section_common section_common = refl
same_section-eq section_common section_users = refl
same_section-eq section_common section_host = refl
same_section-eq section_users section_empty = refl
same_section-eq section_users section_common = refl
same_section-eq section_users section_users = refl
same_section-eq section_users section_host = refl
same_section-eq section_host section_empty = refl
same_section-eq section_host section_common = refl
same_section-eq section_host section_users = refl
same_section-eq section_host section_host = refl

pub section_equal : (a b : Section) → is_section a b ≡ true → a ≡ b
section_equal section_empty section_empty h = refl
section_equal section_empty section_common h = cc
section_equal section_empty section_users h = cc
section_equal section_empty section_host h = cc
section_equal section_common section_empty h = cc
section_equal section_common section_common h = refl
section_equal section_common section_users h = cc
section_equal section_common section_host h = cc
section_equal section_users section_empty h = cc
section_equal section_users section_common h = cc
section_equal section_users section_users h = refl
section_equal section_users section_host h = cc
section_equal section_host section_empty h = cc
section_equal section_host section_common h = cc
section_equal section_host section_users h = cc
section_equal section_host section_host h = refl

pub is_section_refl : (a : Section) → is_section a a ≡ true
is_section_refl section_empty = refl
is_section_refl section_common = refl
is_section_refl section_users = refl
is_section_refl section_host = refl
